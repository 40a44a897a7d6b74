-- ===== src/Store/Runs/Update.antt =====
-- What `get_run` sees of an insertion and of an update.
use mathlib.Core.Option
use flowz.Prelude.{ℕ, Str, ◌==◌, ==_iff, find, if◌then◌else◌, List, [], ◌∷◌, ◌≡◌, arith}
use flowz.Model.{Run, RunStatus}
use flowz.Store.Status.{run_as_str, status_round_trip}
use flowz.Store.Tables.{RunRow, Db, update, to_run}
use flowz.Store.Runs.{get_run, update_run_status}

abbrev pub with_status : RunStatus → ℕ → Run → Run
with_status status now r = record r { status = status; updated_at = now }

find-update :
    (now : ℕ) (id j : Str) (status : RunStatus) (rows : List RunRow)
    → Option.map to_run (
        find
          (λ (r : RunRow). r.id == j)
          (update
            (λ (r : RunRow). r.id == id)
            (λ r. record r { status = run_as_str status; updated_at = now })
            rows))
      ≡ (if id == j
          then Option.map
              (with_status status now)
              (Option.map to_run (find (λ (r : RunRow). r.id == j) rows))
          else Option.map to_run (find (λ (r : RunRow). r.id == j) rows))
unfolding update
find-update now id j status [] = ground arith
find-update now id j status (r ∷ rows) = ground (
  arith,
  ==_iff id j,
  ==_iff r.id id,
  ==_iff r.id j,
  status_round_trip.0 status,
  find-update now id j status rows,
)

-- After `update_run_status` the run of that id, if there is one, has the status and the new time of
-- update and is otherwise as before; every other run is unchanged.
pub get_run-update_run_status :
    (now : ℕ) (db : Db) (id j : Str) (status : RunStatus)
    → get_run (update_run_status now db id status) j
      ≡ (if id == j then Option.map (with_status status now) (get_run db j) else get_run db j)
unfolding get_run update_run_status
get_run-update_run_status now db id j status = find-update now id j status db.runs
