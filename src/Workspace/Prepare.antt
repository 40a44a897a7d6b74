-- ===== src/Workspace/Prepare.antt =====
-- src/agent/workspace.rs: a workspace and its caches, before the run.
use flowz.Prelude.{
  Str, lit, length, join_path, starts_with, all, is_ascii_hexdigit, Bool, true, false, not, ◌&&◌,
  eqb, if◌then◌else◌, List, [], ◌∷◌, ◌++◌, Option, none, some, Result, ok, err,
}
use flowz.Model.{IndexMap, Run}
use flowz.Pipeline.{normalize_cache_path}
use flowz.Agent.Steps.{CacheMount}
use flowz.Workspace.Machine.{
  Machine, Failure, M, ◌>>=◌, ◌>>◌, pure, context, ignore, when, State, priv_cmd, zfs, git,
  dataset_exists, mountpoint, uid_gid, sanitize,
}

pub record CacheClone : Type 0 where
  pub base : Str
  pub clone : Str
  pub restored : Bool
  pub in_workspace : Bool

pub data WorkspaceBackend : Type 0 where
  dir_backend zfs_backend : Str → WorkspaceBackend

-- A directory; or a clone with its snapshot, and the parent of the caches.
pub data Cleanup : Type 0 where
  clean_dir : Str → Cleanup
  clean_zfs : Str → Str → Str → Str → Cleanup

pub record Workspace : Type 0 where
  pub path : Str
  pub cleanup : Cleanup
  pub caches : List CacheClone

module _ (machine : Machine) where
  -- `prepare_dir`
  abbrev pub cloned : Option Bool × State machine → Result Failure (Unit {0}) × State machine
  cloned (none, s) = (err (lit "spawn git clone" ∷ []), s)
  cloned (some true, s) = (ok tt, s)
  cloned (some false, s) = (err (lit "git clone exited" ∷ []), s)

  abbrev pub git_clone : Str → Str → M (State machine) (Unit {0})
  git_clone path url s =
      cloned
        (machine.status_in path (lit "git") (lit "clone" ∷ lit "--depth=1" ∷ url ∷ lit "." ∷ []) s)

  abbrev pub made : Str → Bool × State machine → Result Failure (Unit {0}) × State machine
  made path (true, s) = (ok tt, s)
  made path (false, s) = (err ((lit "create workspace " ++ path) ∷ []), s)

  abbrev pub prepare_dir : Str → Run → Str → M (State machine) Workspace
  prepare_dir dir run priv_tool = do
    let path = join_path dir run.id
    λ s. made path (machine.create_dir_all path s)
    git_clone path run.clone_url
    pure (record { path = path; cleanup = clean_dir priv_tool; caches = [] })

  -- `ensure_repo_dataset`
  abbrev pub checkout_ref : Run → Str
  checkout_ref run =
      if eqb (length run.commit) 40 && all is_ascii_hexdigit run.commit
      then run.commit
      else lit "origin/" ++ run.branch

  abbrev pub first_use : Str → Str → Run → M (State machine) (Unit {0})
  first_use priv_tool repo_ds run = do
    context (lit "zfs create repo dataset")
        (zfs machine priv_tool (lit "create" ∷ lit "-p" ∷ repo_ds ∷ []))
    mp ← context (lit "resolve repo mountpoint") (mountpoint machine priv_tool repo_ds)
    uid ← uid_gid machine
    context (lit "chown repo mountpoint") (priv_cmd machine priv_tool (lit "chown") (uid ∷ mp ∷ []))
    context (lit "git clone") (git machine (lit "clone" ∷ run.clone_url ∷ mp ∷ []))
    context (lit "git checkout")
        (git machine (lit "-C" ∷ mp ∷ lit "checkout" ∷ lit "-f" ∷ run.commit ∷ []))

  abbrev pub later_use : Str → Str → Run → M (State machine) (Unit {0})
  later_use priv_tool repo_ds run = do
    mp ← context (lit "resolve repo mountpoint") (mountpoint machine priv_tool repo_ds)
    context (lit "git fetch")
        (git machine (lit "-C" ∷ mp ∷ lit "fetch" ∷ lit "--all" ∷ lit "--prune" ∷ []))
    context (lit "git checkout")
        (git machine (lit "-C" ∷ mp ∷ lit "checkout" ∷ lit "-f" ∷ checkout_ref run ∷ []))

  abbrev pub ensure_repo_dataset : Str → Str → Run → M (State machine) (Unit {0})
  ensure_repo_dataset priv_tool repo_ds run = do
    there ← dataset_exists machine priv_tool repo_ds
    if there then later_use priv_tool repo_ds run else first_use priv_tool repo_ds run

  -- The clone of a snapshot, which is destroyed again where the clone cannot be made.
  abbrev pub or_destroy :
      Str
      → Str
      → Result Failure (Unit {0}) × State machine
      → Result Failure (Unit {0}) × State machine
  or_destroy priv_tool snapshot (ok u, s) = (ok u, s)
  or_destroy priv_tool snapshot (err e, s) =
      (err (lit "zfs clone" ∷ e), ignore (zfs machine priv_tool (lit "destroy" ∷ snapshot ∷ [])) s)

  -- `prepare_zfs`
  abbrev pub prepare_zfs : Str → Str → Run → M (State machine) Workspace
  prepare_zfs pool priv_tool run = do
    let slug = sanitize run.repo
    let repo_ds = pool ++ b'/' ∷ slug
    let clone_ds = pool ++ (lit "/run-" ++ run.id)
    let snapshot = repo_ds ++ (lit "@run-" ++ run.id)
    ensure_repo_dataset priv_tool repo_ds run
    context (lit "zfs snapshot") (zfs machine priv_tool (lit "snapshot" ∷ snapshot ∷ []))
    λ s.
        or_destroy priv_tool snapshot
          (zfs machine priv_tool (lit "clone" ∷ snapshot ∷ clone_ds ∷ []) s)
    path ← context (lit "resolve clone mountpoint") (mountpoint machine priv_tool clone_ds)
    uid ← uid_gid machine
    context (lit "chown clone mountpoint")
        (priv_cmd machine priv_tool (lit "chown") (uid ∷ path ∷ []))
    pure (record {
      path = path;
      cleanup = clean_zfs priv_tool clone_ds snapshot (pool ++ (lit "/cache/" ++ slug));
      caches = [];
    })

  -- `prepare`
  abbrev pub prepare : WorkspaceBackend → Run → Str → M (State machine) Workspace
  prepare (dir_backend dir) run priv_tool = prepare_dir dir run priv_tool
  prepare (zfs_backend pool) run priv_tool = prepare_zfs pool priv_tool run

  -- The machine with the clones that were made so far, which are kept where a later step fails.
  abbrev pub Attaching : Type 0
  Attaching = State machine × List CacheClone

  abbrev pub beside :
      {A : Type 0}
      → List CacheClone
      → Result Failure A × State machine
      → Result Failure A × Attaching
  beside clones (r, s) = (r, (s, clones))

  abbrev pub lift : {A : Type 0} → M (State machine) A → M Attaching A
  lift m (s, clones) = beside clones (m s)

  abbrev pub push : CacheClone → M Attaching (Unit {0})
  push c (s, clones) = (ok tt, (s, clones ++ c ∷ []))

  abbrev pub clone_args : Bool → Bool → Str → Str → Str → List Str
  clone_args restored in_workspace mount latest clone =
      (if restored then lit "clone" else lit "create")
      ∷ ((if in_workspace then lit "-o" ∷ (lit "mountpoint=" ++ mount) ∷ [] else [])
          ++ ((if restored then latest ∷ [] else []) ++ clone ∷ []))

  abbrev pub cache_failed : Str → Str → Str
  cache_failed name what = lit "cache '" ++ (name ++ (lit "': " ++ what))

  -- One round of the loop of `attach_caches`.
  abbrev pub attach_one : Str → Str → Str → Str → Str × Str → M Attaching CacheMount
  attach_one priv_tool cache_root workspace run_id (name, declared) = do
    let path = normalize_cache_path declared
    let base = cache_root ++ b'/' ∷ name
    let clone = cache_root ++ (b'/' ∷ (name ++ (lit ".run-" ++ run_id)))
    let latest = base ++ lit "@latest"
    let in_workspace = not (starts_with path (lit "/"))
    restored ← lift (dataset_exists machine priv_tool latest)
    lift (
        context (cache_failed name (lit "zfs " ++ (if restored then lit "clone" else lit "create")))
          (zfs machine priv_tool
            (clone_args restored in_workspace (join_path workspace path) latest clone)))
    push (record { base = base; clone = clone; restored = restored; in_workspace = in_workspace })
    host_path ← lift (
        context (cache_failed name (lit "resolve mountpoint")) (mountpoint machine priv_tool clone))
    when in_workspace (
        lift (do
          uid ← uid_gid machine
          context (cache_failed name (lit "chown mountpoint"))
              (priv_cmd machine priv_tool (lit "chown") (uid ∷ host_path ∷ []))))
    pure (record { name = name; path = path; host_path = host_path; restored = restored })

  abbrev pub attach_all : Str → Str → Str → Str → IndexMap Str → M Attaching (List CacheMount)
  attach_all priv_tool cache_root workspace run_id [] = pure []
  attach_all priv_tool cache_root workspace run_id (cache ∷ caches) = do
    mount ← attach_one priv_tool cache_root workspace run_id cache
    mounts ← attach_all priv_tool cache_root workspace run_id caches
    pure (mount ∷ mounts)

  abbrev pub create_root : Str → Str → IndexMap Str → M Attaching (Unit {0})
  create_root priv_tool cache_root [] = pure tt
  create_root priv_tool cache_root (cache ∷ caches) = lift (
      context (lit "zfs create cache root")
        (zfs machine priv_tool (lit "create" ∷ lit "-p" ∷ cache_root ∷ [])))

  -- `attach_caches`, which extends the caches of the workspace.
  abbrev pub attach_caches :
      Cleanup → Str → Str → IndexMap Str → M Attaching (Option (List CacheMount))
  attach_caches (clean_dir priv_tool) workspace run_id caches = pure none
  attach_caches (clean_zfs priv_tool clone_ds snapshot cache_root) workspace run_id caches = do
    create_root priv_tool cache_root caches
    mounts ← attach_all priv_tool cache_root workspace run_id caches
    pure (some mounts)
