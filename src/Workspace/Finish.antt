-- ===== src/Workspace/Finish.antt =====
-- src/agent/workspace.rs: a workspace and its caches, after the run.
use flowz.Prelude.{Str, lit, Bool, true, false, if◌then◌else◌, List, [], ◌∷◌, ◌++◌}
use flowz.Workspace.Machine.{
  Machine, Removal, removed, gone, failed, M, ◌>>=◌, ◌>>◌, context, ignore, when, State, zfs,
  dataset_exists,
}
use flowz.Workspace.Prepare.{CacheClone, Cleanup, clean_dir, clean_zfs, Workspace}

module _ (machine : Machine) where
  -- `commit_cache`
  unfoldable pub commit_cache : Str → Str → CacheClone → M (State machine) (Unit {0})
  commit_cache priv_tool run_id cache = do
    let base = cache.base
    let clone = cache.clone
    let old = base ++ (lit ".old-" ++ run_id)
    let latest = base ++ lit "@latest"
    when cache.in_workspace (
        context (lit "zfs inherit mountpoint")
          (zfs machine priv_tool (lit "inherit" ∷ lit "mountpoint" ∷ clone ∷ [])))
    when cache.restored
        (context (lit "zfs promote") (zfs machine priv_tool (lit "promote" ∷ clone ∷ [])))
    had_base ← dataset_exists machine priv_tool base
    when had_base (
        context (lit "zfs rename base aside")
          (zfs machine priv_tool (lit "rename" ∷ base ∷ old ∷ [])))
    context (lit "zfs rename clone to base")
        (zfs machine priv_tool (lit "rename" ∷ clone ∷ base ∷ []))
    when had_base (
        context (lit "zfs destroy old base")
          (zfs machine priv_tool (lit "destroy" ∷ lit "-r" ∷ old ∷ [])))
    when cache.restored (
        context (lit "zfs destroy previous @latest")
          (zfs machine priv_tool (lit "destroy" ∷ latest ∷ [])))
    context (lit "zfs snapshot @latest") (zfs machine priv_tool (lit "snapshot" ∷ latest ∷ []))

  -- `cleanup_zfs`
  unfoldable pub cleanup_zfs : Str → Str → Str → State machine → State machine
  cleanup_zfs priv_tool clone_ds snapshot s =
      ignore (zfs machine priv_tool (lit "destroy" ∷ snapshot ∷ []))
        (ignore (zfs machine priv_tool (lit "destroy" ∷ lit "-r" ∷ clone_ds ∷ [])) s)

  -- `cleanup_dir`
  abbrev pub or_privileged : Str → Str → Removal × State machine → State machine
  or_privileged path priv_tool (removed, s) = s
  or_privileged path priv_tool (gone, s) = s
  or_privileged path priv_tool (failed, s) =
      (machine.output priv_tool (lit "rm" ∷ lit "-rf" ∷ path ∷ []) s).1

  unfoldable pub cleanup_dir : Str → Str → State machine → State machine
  cleanup_dir path priv_tool s =
      if machine.exists path s
      then or_privileged path priv_tool (machine.remove_dir_all_force path s)
      else s

  -- The caches of a run: committed after a success, else discarded.
  abbrev pub settle : Str → Str → Bool → CacheClone → M (State machine) (Unit {0})
  settle priv_tool run_id true cache = commit_cache priv_tool run_id cache
  settle priv_tool run_id false cache =
      zfs machine priv_tool (lit "destroy" ∷ lit "-r" ∷ cache.clone ∷ [])

  unfoldable pub settle_all : Str → Str → Bool → List CacheClone → State machine → State machine
  settle_all priv_tool run_id success [] s = s
  settle_all priv_tool run_id success (cache ∷ caches) s =
      settle_all priv_tool run_id success caches (ignore (settle priv_tool run_id success cache) s)

  abbrev pub clean_up : Cleanup → Str → List CacheClone → Str → Bool → State machine → State machine
  clean_up (clean_dir priv_tool) path caches run_id success s = cleanup_dir path priv_tool s
  clean_up (clean_zfs priv_tool clone_ds snapshot cache_root) path caches run_id success s =
      cleanup_zfs priv_tool clone_ds snapshot (settle_all priv_tool run_id success caches s)

  -- `finish`
  unfoldable pub finish : Workspace → Str → Bool → State machine → State machine
  finish w run_id success s = clean_up w.cleanup w.path w.caches run_id success s
