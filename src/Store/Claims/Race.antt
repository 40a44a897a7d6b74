-- ===== src/Store/Claims/Race.antt =====
-- `claim_next_job` is two statements with no transaction, and the server answers polls concurrently:
-- here two polls take their statements in turns that a schedule says.
use mathlib.Core.Option
use flowz.Prelude.{ℕ, Bool, true, false, List, [], ◌∷◌, Option, some, ◌≡◌, refl, ap}
use flowz.Model.{Run}
use flowz.Store.Sql.{Engine}
use flowz.Store.Tables.{RunRow, Db, to_run}
use flowz.Store.Runs.{select_queued, mark_running, claim_next_job}

-- Before the first statement, between the two, and after them.
pub data Poll : Type 0 where
  waiting : Poll
  selected : Option RunRow → Poll
  answered : Option Run → Poll

pub record Server : Type 0 where
  pub db : Db
  pub first : Poll
  pub second : Poll

module _ (engine : Engine) (now : ℕ) where
  -- The next statement of a poll.
  pub advance : Poll → Db → Poll × Db
  advance waiting db = (selected (select_queued engine db), db)
  advance (selected row) db = (answered (Option.map to_run row), mark_running now db row)
  advance (answered run) db = (answered run, db)

  -- `true`: the first poll goes on.
  pub turn : Bool → Server → Server
  unfolding advance
  turn true s = let (p, db) = advance s.first s.db in record s { db = db; first = p }
  turn false s = let (p, db) = advance s.second s.db in record s { db = db; second = p }

  pub run_schedule : List Bool → Server → Server
  unfolding turn
  run_schedule [] s = s
  run_schedule (b ∷ bs) s = run_schedule bs (turn b s)

  abbrev pub start : Db → Server
  start db = record { db = db; first = waiting; second = waiting }

  -- One poll after the other is two claims in a row.
  pub in_sequence :
      (db : Db)
      → run_schedule (true ∷ true ∷ false ∷ false ∷ []) (start db) ≡ (
          let (a, db') = claim_next_job engine now db in
          let (b, db'') = claim_next_job engine now db' in
          record { db = db''; first = answered a; second = answered b })
  unfolding run_schedule claim_next_job
  in_sequence db = refl

  -- Whenever a run is queued, two polls that both select before either updates are given the same run.
  pub claims_race :
      (db : Db) (row : RunRow)
      → select_queued engine db ≡ some row
      → ((run_schedule (true ∷ false ∷ true ∷ false ∷ []) (start db)).first
          ≡ answered (some (to_run row)))
        × ((run_schedule (true ∷ false ∷ true ∷ false ∷ []) (start db)).second
            ≡ answered (some (to_run row)))
  unfolding run_schedule
  claims_race db row h = (ap again h, ap again h)
    where
      again : Option RunRow → Poll
      again o = answered (Option.map to_run o)
