-- ===== src/Store/Table.antt =====
-- What the queries on runs promise, for a table that gives the run of an id, whatever its rows are: the
-- runs of src/store/mod.rs as a map.
pub mod Valid
pub mod Refines
mod Tests
use mathlib.Core.Option
use flowz.Prelude.{
  ℕ, ◌≤◌, Str, ◌==◌, if◌then◌else◌, List, [], ◌∷◌, Option, none, some, Result, ok, err, ◌≡◌, ◌≢◌,
}
use flowz.Model.{Run, RunStatus, queued, running}
use flowz.Store.Runs.Update.{with_status}
use flowz.Store.Sql.{Engine}
use flowz.Store.Tables.{Db, DbError, Query}
use flowz.Store.Runs.{create_run, update_run_status, claim_next_job}

abbrev pub Table : Type 0
Table = Str → Option Run

-- What a client sees of a query: a run that was stored or refused, a status that was written at a time, a
-- run that was claimed at a time, or no run to claim.
pub data Op : Type 0 where
  stored refused : Run → Op
  written : ℕ → Str → RunStatus → Op
  claimed : ℕ → Run → Op
  idle : Op

-- The run of the id has the status, if there is one, and the others stay.
abbrev pub Writes : ℕ → Str → RunStatus → Table → Table → Type 0
Writes now id status t t' =
    (j : Str) → t' j ≡ (if id == j then Option.map (with_status status now) (t j) else t j)

abbrev pub Promises : Op → Table → Table → Type 0
Promises (stored run) t t' =
    (t run.id ≡ none) × ((j : Str) → t' j ≡ (if run.id == j then some run else t j))
Promises (refused run) t t' = (t run.id ≢ none) × ((j : Str) → t' j ≡ t j)
Promises (written now id status) t t' = Writes now id status t t'
Promises (claimed now run) t t' =
    (t run.id ≡ some run)
    × (run.status ≡ queued)
    × ((j : Str) (r : Run) → t j ≡ some r → r.status ≡ queued → run.created_at ≤ r.created_at)
    × Writes now run.id running t t'
Promises idle t t' =
    ((j : Str) (r : Run) → t j ≡ some r → r.status ≢ queued) × ((j : Str) → t' j ≡ t j)

-- A sequence of operations from one table to another.
abbrev pub Runs : List Op → Table → Table → Type 0
Runs [] t t' = (j : Str) → t' j ≡ t j
Runs (op ∷ ops) t t'' = (t' : Table) × Promises op t t' × Runs ops t' t''

module _ (engine : Engine) where
  -- A query on the database.
  pub data Step (db : Db) : Op → Db → Type 0 where
    stores : {run : Run} {db' : Db} → create_run db run ≡ ok db' → Step db (stored run) db'
    refuses : {run : Run} {e : DbError} → create_run db run ≡ err e → Step db (refused run) db
    writes :
        (now : ℕ) (id : Str) (status : RunStatus)
        → Step db (written now id status) (update_run_status now db id status)
    claims :
        {now : ℕ} {run : Run} {db' : Db}
        → claim_next_job engine now db ≡ (some run, db')
        → Step db (claimed now run) db'
    finds_none :
        (now : ℕ) {db' : Db} → claim_next_job engine now db ≡ (none, db') → Step db idle db'

  -- A sequence of queries that ends in the database `last`.
  pub data Steps (last : Db) : Db → List Op → Type 0 where
    here : Steps last last []
    next :
        {op : Op} {ops : List Op} {db db' : Db}
        → Step db op db'
        → Steps last db' ops
        → Steps last db (op ∷ ops)
