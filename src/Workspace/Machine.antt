-- ===== src/Workspace/Machine.antt =====
-- src/agent/workspace.rs: the commands that the agent gives to the machine, and computations that may
-- fail in between. What a command does, and the removal of a directory, are parameters.
use flowz.Prelude.{
  ℕ, Str, lit, ◌==◌, is_empty, join, trim, is_ascii_alphanumeric, Bool, true, false, ◌||◌, eqb,
  if◌then◌else◌, List, [], ◌∷◌, ◌++◌, map, Option, none, some, Result, ok, err,
}

-- `std::process::Output`
pub record Output : Type 0 where
  pub success : Bool
  pub stdout : Str
  pub stderr : Str

-- How the removal of a directory ends.
pub data Removal : Type 0 where
  removed gone failed : Removal

-- A process that runs a program with arguments, in the current directory or another one, has an output,
-- or none where it cannot be started.
pub record Machine : Type 1 where
  pub State : Type 0
  pub output : Str → List Str → State → Option Output × State
  pub status_in : Str → Str → List Str → State → Option Bool × State
  pub create_dir_all : Str → State → Bool × State
  pub exists : Str → State → Bool
  pub remove_dir_all_force : Str → State → Removal × State

-- An error with its contexts, the outermost first.
abbrev pub Failure : Type 0
Failure = List Str

-- A computation that may fail keeps what it has done to the state.
abbrev pub M : Type 0 → Type 0 → Type 0
M S A = S → Result Failure A × S

abbrev pub and_then : {S A B : Type 0} → (A → M S B) → Result Failure A × S → Result Failure B × S
and_then f (ok a, s) = f a s
and_then f (err e, s) = (err e, s)

infixl 5 ◌>>=◌ ◌>>◌
abbrev pub ◌>>=◌ : {S A B : Type 0} → M S A → (A → M S B) → M S B
◌>>=◌ m f s = and_then f (m s)

abbrev pub ◌>>◌ : {S B : Type 0} → M S (Unit {0}) → M S B → M S B
m >> k = m >>= λ _. k

abbrev pub pure : {S A : Type 0} → A → M S A
pure a s = (ok a, s)

abbrev pub fail : {S A : Type 0} → Str → M S A
fail message s = (err (message ∷ []), s)

-- `.context(text)`
abbrev pub in_context : {S A : Type 0} → Str → Result Failure A × S → Result Failure A × S
in_context text (ok a, s) = (ok a, s)
in_context text (err e, s) = (err (text ∷ e), s)

abbrev pub context : {S A : Type 0} → Str → M S A → M S A
context text m s = in_context text (m s)

-- An error that is only logged.
abbrev pub ignore : {S A : Type 0} → M S A → S → S
ignore m s = (m s).1

-- `if test { … }`
abbrev pub when : {S : Type 0} → Bool → M S (Unit {0}) → M S (Unit {0})
when true m = m
when false m = pure tt

module _ (machine : Machine) where
  abbrev pub State : Type 0
  State = machine.State

  abbrev pub checked : Str → Option Output × State → Result Failure (Unit {0}) × State
  checked line (none, s) = (err ((lit "spawn " ++ line) ∷ []), s)
  checked line (some o, s) =
      if o.success then (ok tt, s) else (err ((line ++ (lit " failed: " ++ trim o.stderr)) ∷ []), s)

  -- `run_cmd`, `priv_cmd`, `zfs`, `git`
  abbrev pub run_cmd : Str → List Str → M State (Unit {0})
  run_cmd bin args s = checked (bin ++ b' ' ∷ join args (lit " ")) (machine.output bin args s)

  abbrev pub priv_cmd : Str → Str → List Str → M State (Unit {0})
  priv_cmd priv_tool bin args s =
      checked (priv_tool ++ b' ' ∷ (bin ++ b' ' ∷ join args (lit " ")))
        (machine.output priv_tool (bin ∷ args) s)

  abbrev pub zfs : Str → List Str → M State (Unit {0})
  zfs priv_tool args = priv_cmd priv_tool (lit "zfs") args

  abbrev pub git : List Str → M State (Unit {0})
  git args = run_cmd (lit "git") args

  -- `dataset_exists`
  abbrev pub succeeded : Option Output × State → Result Failure Bool × State
  succeeded (none, s) = (ok false, s)
  succeeded (some o, s) = (ok o.success, s)

  abbrev pub dataset_exists : Str → Str → M State Bool
  dataset_exists priv_tool ds s =
      succeeded (machine.output priv_tool (lit "zfs" ∷ lit "list" ∷ lit "-H" ∷ ds ∷ []) s)

  -- `mountpoint`
  abbrev pub named : Str → Str → Result Failure Str
  named ds mp =
      if is_empty mp || mp == lit "none" || mp == lit "-"
      then err ((lit "dataset " ++ (ds ++ (lit " has no mountpoint (" ++ (mp ++ lit ")")))) ∷ [])
      else ok mp

  abbrev pub mount_of : Str → Option Output × State → Result Failure Str × State
  mount_of ds (none, s) = (err ((lit "spawn zfs get mountpoint " ++ ds) ∷ []), s)
  mount_of ds (some o, s) =
      if o.success
      then (named ds (trim o.stdout), s)
      else (err ((lit "zfs get mountpoint " ++ (ds ++ (lit " failed: " ++ trim o.stderr))) ∷ []), s)

  abbrev pub mountpoint : Str → Str → M State Str
  mountpoint priv_tool ds s = mount_of ds (
      machine.output priv_tool
        (lit "zfs" ∷ lit "get" ∷ lit "-H" ∷ lit "-o" ∷ lit "value" ∷ lit "mountpoint" ∷ ds ∷ []) s)

  -- `uid_gid`
  abbrev pub id_of : Str → Option Output × State → Result Failure Str × State
  id_of flag (none, s) = (err ((lit "spawn id " ++ flag) ∷ []), s)
  id_of flag (some o, s) = (ok (trim o.stdout), s)

  abbrev pub id_cmd : Str → M State Str
  id_cmd flag s = id_of flag (machine.output (lit "id") (flag ∷ []) s)

  abbrev pub uid_gid : M State Str
  uid_gid = do uid ← id_cmd (lit "-u"); gid ← id_cmd (lit "-g"); pure (uid ++ b':' ∷ gid)

-- `sanitize`
abbrev pub clean_char : ℕ → ℕ
clean_char c = if is_ascii_alphanumeric c || eqb c b'_' || eqb c b'.' || eqb c b'-' then c else b'_'

unfoldable pub sanitize : Str → Str
unfolding is_ascii_alphanumeric
sanitize repo = map clean_char repo
