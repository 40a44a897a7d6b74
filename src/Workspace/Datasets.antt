-- ===== src/Workspace/Datasets.antt =====
-- What the agent relies on of ZFS, and how a sequence of commands is followed.
use flowz.Prelude.{
  Str, lit, ◌==◌, starts_with, contains_char, Bool, false, ◌||◌, [], ◌∷◌, ◌++◌, Option, none, some,
  Result, ok, err, ◌≡◌,
}
use flowz.Workspace.Machine.{Machine, Failure, M, and_then, in_context, zfs, dataset_exists}

-- A computation that succeeds ends in a state of the first kind, one that fails in one of the second.
abbrev pub Ensures : {S A : Type 0} → (S → Type 0) → (S → Type 0) → Result Failure A × S → Type 0
Ensures Q E (ok a, s) = Q s
Ensures Q E (err e, s) = E s

pub Ensures-then :
    {S A B : Type 0} (Q R E : S → Type 0) (f : A → M S B) (r : Result Failure A × S)
    → Ensures Q E r
    → ((a : A) (s : S) → Q s → Ensures R E (f a s))
    → Ensures R E (and_then f r)
Ensures-then Q R E f (ok a, s) h k = k a s h
Ensures-then Q R E f (err e, s) h k = h

pub Ensures-weaker :
    {S A : Type 0} (Q Q' E E' : S → Type 0) (r : Result Failure A × S)
    → Ensures Q E r
    → ((s : S) → Q s → Q' s)
    → ((s : S) → E s → E' s)
    → Ensures Q' E' r
Ensures-weaker Q Q' E E' (ok a, s) h q e = q s h
Ensures-weaker Q Q' E E' (err m, s) h q e = e s h

pub Ensures-in_context :
    {S A : Type 0} (Q E : S → Type 0) (text : Str) (r : Result Failure A × S)
    → Ensures Q E r
    → Ensures Q E (in_context text r)
Ensures-in_context Q E text (ok a, s) h = h
Ensures-in_context Q E text (err e, s) h = h

pub Ensures-both :
    {S A : Type 0} (Q E : S → Type 0) (r : Result Failure A × S) → Q r.1 → E r.1 → Ensures Q E r
Ensures-both Q E (ok a, s) h k = h
Ensures-both Q E (err e, s) h k = k

pub Ensures-state :
    {S A : Type 0} (Q : S → Type 0) (r : Result Failure A × S) → Ensures Q Q r → Q r.1
Ensures-state Q (ok a, s) h = h
Ensures-state Q (err e, s) h = h

-- The dataset `d` is the other one or above it.
unfoldable pub touches : Str → Str → Bool
touches d e = (e == d) || starts_with e (d ++ lit "/")

-- The datasets of a machine, as a view of its states: the content of a dataset or of its snapshot of a
-- name, and the snapshot that a clone was made of.
pub record View (machine : Machine) : Type 1 where
  pub Content : Type 0
  pub content : machine.State → Str → Option Str → Option Content
  pub origin : machine.State → Str → Option (Str × Str)

module _ (machine : Machine) (view : View machine) where
  open view use {content, origin}

  abbrev pub Same : machine.State → machine.State → Type 0
  Same s s' = (e : Str) (x : Option Str) → content s' e x ≡ content s e x

  abbrev pub Inherited : Str → machine.State → machine.State → Type 0
  Inherited d s s' = Same s s' × (origin s' d ≡ origin s d)

  -- The clone has taken over the snapshot that it was made of.
  abbrev pub Promoted : Str → Str → Str → machine.State → machine.State → Type 0
  Promoted d b x s s' =
      (content s' d none ≡ content s d none)
      × (content s' d (some x) ≡ content s b (some x))
      × (content s' b (some x) ≡ none)

  -- The dataset has another name, with its snapshots; those that neither name touches stay.
  abbrev pub Renamed : Str → Str → machine.State → machine.State → Type 0
  Renamed a b s s' =
      ((x : Option Str) → content s' b x ≡ content s a x)
      × ((x : Option Str) → content s' a x ≡ none)
      × ((e : Str) (x : Option Str)
          → touches a e ≡ false
          → touches b e ≡ false
          → content s' e x ≡ content s e x)

  -- Only the dataset and those below it change.
  abbrev pub Within : Str → machine.State → machine.State → Type 0
  Within d s s' = (e : Str) (x : Option Str) → touches d e ≡ false → content s' e x ≡ content s e x

  -- The snapshot is gone; the other datasets stay, and this one but for its snapshots.
  abbrev pub Dropped : Str → Str → machine.State → machine.State → Type 0
  Dropped d x s s' =
      (content s' d (some x) ≡ none)
      × (content s' d none ≡ content s d none)
      × ((e : Str) (y : Option Str) → (e == d) ≡ false → content s' e y ≡ content s e y)

  abbrev pub Snapped : Str → Str → machine.State → machine.State → Type 0
  Snapped d x s s' = content s' d (some x) ≡ content s d none

-- What the commands do to the datasets. Those that fail change nothing, but that a recursive destruction
-- may have got so far. The name of a dataset has no `@`.
pub record Zfs (machine : Machine) (view : View machine) (priv_tool : Str) : Type 1 where
  pub list_lem :
      (d : Str) (s : machine.State) → Same machine view s (dataset_exists machine priv_tool d s).1
  pub inherit_lem :
      (d : Str) (s : machine.State)
      → Ensures
          (Inherited machine view d s)
          (Same machine view s)
          (zfs machine priv_tool (lit "inherit" ∷ lit "mountpoint" ∷ d ∷ []) s)
  pub promote_lem :
      (d b x : Str) (s : machine.State)
      → view.origin s d ≡ some (b, x)
      → (b == d) ≡ false
      → Ensures
          (Promoted machine view d b x s)
          (Same machine view s)
          (zfs machine priv_tool (lit "promote" ∷ d ∷ []) s)
  pub rename_lem :
      (a b : Str) (s : machine.State)
      → (a == b) ≡ false
      → Ensures
          (Renamed machine view a b s)
          (Same machine view s)
          (zfs machine priv_tool (lit "rename" ∷ a ∷ b ∷ []) s)
  pub destroy_below_lem :
      (d : Str) (s : machine.State)
      → Ensures
          (Within machine view d s)
          (Within machine view d s)
          (zfs machine priv_tool (lit "destroy" ∷ lit "-r" ∷ d ∷ []) s)
  pub destroy_lem :
      (d x : Str) (s : machine.State)
      → contains_char d b'@' ≡ false
      → Ensures
          (Dropped machine view d x s)
          (Same machine view s)
          (zfs machine priv_tool (lit "destroy" ∷ (d ++ b'@' ∷ x) ∷ []) s)
  pub snapshot_lem :
      (d x : Str) (s : machine.State)
      → contains_char d b'@' ≡ false
      → Ensures
          (Snapped machine view d x s)
          (Same machine view s)
          (zfs machine priv_tool (lit "snapshot" ∷ (d ++ b'@' ∷ x) ∷ []) s)
