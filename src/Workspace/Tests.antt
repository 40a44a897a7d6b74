-- ===== src/Workspace/Tests.antt =====
-- The theorems on workspaces at a small model of ZFS.
use flowz.Prelude.{
  ℕ, Str, lit, ◌==◌, ==_refl, starts_with, contains_char, Bool, true, false, ◌&&◌, eqb,
  if◌then◌else◌, List, [], ◌∷◌, ◌++◌, Option, none, some, inl, All, ◌≡◌, refl, or-eq-false,
}
use flowz.Server.Urls.{split_once}
use flowz.Workspace.Machine.{Machine, Output, removed, zfs}
use flowz.Workspace.Prepare.{CacheClone, clean_zfs}
use flowz.Workspace.Finish.{commit_cache, finish}
use flowz.Workspace.Datasets.{Ensures, touches, View, Promoted, Renamed, Within, Zfs}
use flowz.Workspace.Caches.{Fails, Commits, cache_of, commit_cache-Commits}
use flowz.Workspace.Discarded.{finish-discards}

record Pool : Type 0 where
  content : Str → Option Str → Option ℕ
  origin : Str → Option (Str × Str)

abbrev is_snapshot : Option Str → Str → Bool
is_snapshot none y = false
is_snapshot (some x) y = x == y

abbrev renamed : List Str → Pool → Pool
renamed (a ∷ b ∷ []) s = record s {
  content = λ e x. if e == b then s.content a x else if e == a then none else s.content e x;
}
renamed _ s = s

abbrev taken_over : Str → Option (Str × Str) → Pool → Pool
taken_over d none s = s
taken_over d (some (b, y)) s = record s {
  content = λ e x.
      if is_snapshot x y && e == d
      then s.content b x
      else if is_snapshot x y && e == b
      then none
      else s.content e x;
}

abbrev promoted : List Str → Pool → Pool
promoted (d ∷ []) s = taken_over d (s.origin d) s
promoted _ s = s

abbrev write_snapshot : Option ℕ → Option (Str × Str) → Pool → Pool
write_snapshot v none s = s
write_snapshot v (some (d, y)) s = record s {
  content = λ e x. if is_snapshot x y && e == d then v else s.content e x;
}

abbrev live_of : Option (Str × Str) → Pool → Option ℕ
live_of none s = none
live_of (some (d, y)) s = s.content d none

abbrev destroyed : List Str → Pool → Pool
destroyed (flag ∷ d ∷ []) s = record s {
  content = λ e x. if touches d e then none else s.content e x;
}
destroyed (t ∷ []) s = write_snapshot none (split_once t b'@') s
destroyed _ s = s

abbrev snapped : List Str → Pool → Pool
snapped (t ∷ []) s = write_snapshot (live_of (split_once t b'@') s) (split_once t b'@') s
snapped _ s = s

abbrev carried_out : Str → List Str → Pool → Pool
carried_out verb rest s =
    if verb == lit "rename"
    then renamed rest s
    else if verb == lit "promote"
    then promoted rest s
    else if verb == lit "destroy"
    then destroyed rest s
    else if verb == lit "snapshot"
    then snapped rest s
    else s

abbrev output : Str → List Str → Pool → Option Output × Pool
output program (zfs ∷ verb ∷ rest) s =
    (some (record { success = true; stdout = []; stderr = [] }), carried_out verb rest s)
output program _ s = (none, s)

abbrev pools : Machine
pools = record {
  State = Pool;
  output = output;
  status_in = λ dir program args s. (none, s);
  create_dir_all = λ path s. (true, s);
  exists = λ path s. false;
  remove_dir_all_force = λ path s. (removed, s);
}

abbrev view : View pools
view = record { Content = ℕ; content = λ (s : Pool). s.content; origin = λ (s : Pool). s.origin }

split_once-at :
    (d x : Str) → contains_char d b'@' ≡ false → split_once (d ++ b'@' ∷ x) b'@' ≡ some (d, x)
unfolding contains_char
split_once-at [] x h = refl
split_once-at (c ∷ d) x h =
    let (other, free) = or-eq-false (eqb c b'@') (contains_char d b'@') h in
    rw (other, split_once-at d x free) refl

not_touched : (d e : Str) → touches d e ≡ false → (e == d) ≡ false
unfolding touches
not_touched d e h = (or-eq-false (e == d) (starts_with e (d ++ lit "/")) h).0

renamed_lem :
    (a b : Str) (s : Pool) → (a == b) ≡ false → Renamed pools view a b s (renamed (a ∷ b ∷ []) s)
renamed_lem a b s other = (
  λ x. rw (==_refl b) refl,
  λ x. rw (other, ==_refl a) refl,
  λ e x ta tb. rw (not_touched a e ta, not_touched b e tb) refl,
)

taken_over_lem :
    (d b y : Str) (s : Pool)
    → (b == d) ≡ false
    → Promoted pools view d b y s (taken_over d (some (b, y)) s)
taken_over_lem d b y s other =
    (refl, rw (==_refl y, ==_refl d) refl, rw (==_refl y, other, ==_refl b) refl)

destroyed_lem : (flag d : Str) (s : Pool) → Within pools view d s (destroyed (flag ∷ d ∷ []) s)
destroyed_lem flag d s e x apart = rw apart refl

and_false : (b : Bool) → (b && false) ≡ false
and_false true = refl
and_false false = refl

laws : Zfs pools view (lit "doas")
unfolding ◌==◌
laws = record {
  list_lem = λ d s e x. refl;
  inherit_lem = λ d s. (λ e x. refl, refl);
  promote_lem = λ d b x s o other. rw o (taken_over_lem d b x s other);
  rename_lem = renamed_lem;
  destroy_below_lem = λ d s. destroyed_lem (lit "-r") d s;
  destroy_lem = λ d x s no_at. rw (split_once-at d x no_at) (
    rw (==_refl x, ==_refl d) refl,
    refl,
    λ e y other. rw (other, and_false (is_snapshot y x)) refl,
  );
  snapshot_lem = λ d x s no_at. rw (split_once-at d x no_at, ==_refl x, ==_refl d) refl;
}

-- A cache with a snapshot, and its clone of run 1 with other content; the run's own clone and snapshot.
abbrev pool : Pool
pool = record {
  content = λ e x.
      if e == lit "p/c" && is_snapshot x (lit "latest")
      then some 1
      else if e == lit "p/c.run-1"
      then some 2
      else none;
  origin = λ d. some (lit "p/c", lit "latest");
}

no_at : contains_char (lit "p/c") b'@' ≡ false
unfolding contains_char
no_at = refl

commit_cache-Commits_example :
    Ensures
      (Commits pools view (lit "doas") laws (lit "p/c") (lit "1") no_at true pool)
      (Fails pools view (lit "doas") laws (lit "p/c") (lit "1") no_at true pool)
      (commit_cache pools
        (lit "doas")
        (lit "1")
        (cache_of pools view (lit "doas") laws (lit "p/c") (lit "1") no_at true pool true)
        pool)
commit_cache-Commits_example =
    commit_cache-Commits pools view (lit "doas") laws (lit "p/c") (lit "1") no_at true pool true
      refl

abbrev clones : List CacheClone
clones =
    record { base = lit "p/c"; clone = lit "p/c.run-1"; restored = true; in_workspace = true } ∷ []

apart : All (λ (c : CacheClone). touches c.clone (lit "p/c") ≡ false) clones
unfolding touches starts_with ◌==◌
apart = (refl, tt)

no_at_repo : contains_char (lit "p/r") b'@' ≡ false
unfolding contains_char
no_at_repo = refl

apart_run : touches (lit "p/run-1") (lit "p/c") ≡ false
unfolding touches starts_with ◌==◌
apart_run = refl

other_repo : (lit "p/c" == lit "p/r") ≡ false
unfolding ◌==◌
other_repo = refl

finish-discards_example :
    (finish pools
        (record {
          path = lit "/w";
          cleanup =
              clean_zfs (lit "doas") (lit "p/run-1") (lit "p/r" ++ b'@' ∷ lit "run-1") (lit "p");
          caches = clones;
        })
        (lit "1")
        false
        pool).content
      (lit "p/c")
      (some (lit "latest"))
    ≡ pool.content (lit "p/c") (some (lit "latest"))
finish-discards_example =
    finish-discards pools view (lit "doas") laws (lit "p/c") (some (lit "latest")) (lit "/w")
      (lit "p/run-1") (lit "p/r") (lit "run-1") (lit "p") (lit "1") clones pool no_at_repo apart
      apart_run (inl other_repo)
