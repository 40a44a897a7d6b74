-- ===== src/Server/Jobs/Waiting.antt =====
-- What a poll for a job promises.
use flowz.Prelude.{
  ℕ, zero, suc, ◌+◌, ◌≤◌, ◌<◌, Str, Bool, true, false, leb, Option, none, some, ◌≡◌, ◌≢◌, refl,
  arith, Option-cases, Bool-cases, ltb, inl, inr, ap,
}
use mathlib.Core.Option
use flowz.Model.{Run}
use flowz.Store.Sql.{Engine}
use flowz.Store.Tables.{Db, RunRow, to_run}
use flowz.Store.Runs.{select_queued, mark_running, claim_next_job}
use flowz.Server.Jobs.{Answer, job, out_of_fuel, answer_claim, poll_from, poll_job}

module _ (engine : Engine) (token : Option Str) (clock : ℕ → ℕ) (others : ℕ → Db → Db) where
  -- The database at check `k + n` of a poll that has found no job from check `k` on.
  abbrev pub waited : ℕ → ℕ → Db → Db
  waited k zero db = db
  waited k (suc n) db = waited (suc k) n (others k db)

  -- The deadline is ahead at each of `n` checks from `k` on.
  abbrev pub Before : ℕ → ℕ → ℕ → Type 0
  Before deadline k zero = Unit
  Before deadline k (suc n) = (clock k < deadline) × Before deadline (suc k) n

  settles :
      (rest : Db → Answer × Db) (late : Bool) (c : Option Run × Db)
      → (late ≡ false → (db : Db) → (rest db).0 ≢ out_of_fuel)
      → (answer_claim token rest late c).0 ≢ out_of_fuel
  settles rest late (some run, db) h e = absurd (cc e)
  settles rest true (none, db) h e = absurd (cc e)
  settles rest false (none, db) h e = h refl db e

  poll_from_returns :
      ((k : ℕ) → clock k < clock (suc k))
      → (fuel deadline k : ℕ) (db : Db) → deadline < clock k + suc fuel
      → (poll_from engine token clock others (suc fuel) deadline k db).0 ≢ out_of_fuel
  unfolding poll_from
  poll_from_returns grows zero deadline k db h =
      settles _ (leb deadline (clock k)) (claim_next_job engine (clock k) db)
        (λ early. absurd (ground arith))
  poll_from_returns grows (suc fuel) deadline k db h =
      settles
        (λ db'. poll_from engine token clock others (suc fuel) deadline (suc k) (others k db'))
        (leb deadline (clock k)) (claim_next_job engine (clock k) db)
        (λ early db'.
          poll_from_returns grows fuel deadline (suc k) (others k db') (omega (arith, grows k)))

  -- The claim of a database without a queued run changes nothing.
  claim_none :
      (now : ℕ) (db : Db)
      → select_queued engine db ≡ none
      → claim_next_job engine now db ≡ (none, db)
  unfolding claim_next_job
  claim_none now db h = ap (λ (row : Option RunRow). the_claim row) h
    where
      the_claim : Option RunRow → Option Run × Db
      the_claim row = (Option.map to_run row, mark_running now db row)

  claim_some :
      (now : ℕ) (db : Db) (row : RunRow)
      → select_queued engine db ≡ some row
      → claim_next_job engine now db ≡ (some (to_run row), mark_running now db (some row))
  unfolding claim_next_job
  claim_some now db row h = ap (λ (r : Option RunRow). the_claim r) h
    where
      the_claim : Option RunRow → Option Run × Db
      the_claim r = (Option.map to_run r, mark_running now db r)

  abbrev pub IsJob : Answer × Db → Type 0
  IsJob answer = (run : Run) × (db : Db) × (answer ≡ (job run token, db))

  given :
      (rest : Db → Answer × Db) (late : Bool) (c : Option Run × Db) {run : Run} {db : Db}
      → c ≡ (some run, db)
      → IsJob (answer_claim token rest late c)
  given rest late c {run} {db} e = (run, db, ap (answer_claim token rest late) e)

  poll_from-IsJob :
      (n fuel deadline k : ℕ) (db : Db) (row : RunRow)
      → n < fuel
      → Before deadline k n
      → select_queued engine (waited k n db) ≡ some row
      → IsJob (poll_from engine token clock others fuel deadline k db)
  unfolding poll_from
  poll_from-IsJob n zero deadline k db row h early q = absurd (omega arith)
  poll_from-IsJob zero (suc fuel) deadline k db row h early q =
      given _ (leb deadline (clock k)) _ (claim_some (clock k) db row q)
  poll_from-IsJob (suc n) (suc fuel) deadline k db row h early q =
      elim (Option-cases (select_queued engine db)) [
        | inr (now, e) ↦ given _ (leb deadline (clock k)) _ (claim_some (clock k) db now e)
        | inl empty ↦
            let late : leb deadline (clock k) ≡ false = ground (arith, early.0) in
            rw (claim_none (clock k) db empty, late)
              (poll_from-IsJob n fuel deadline (suc k) (others k db) row (omega arith) early.1 q)
      ]

  Before-le :
      ((k : ℕ) → clock k < clock (suc k))
      → (deadline n k : ℕ) → Before deadline k (suc n)
      → clock k + n < deadline
  Before-le grows deadline zero k h = omega (arith, h.0)
  Before-le grows deadline (suc n) k h =
      omega (arith, Before-le grows deadline n (suc k) h.1, grows k)

  enough :
      (started timeout n : ℕ)
      → ((k : ℕ) → clock k < clock (suc k))
      → started ≤ clock 0
      → Before (started + timeout) 0 n
      → n < suc timeout
  enough started timeout zero grows h early = omega arith
  enough started timeout (suc n) grows h early =
      omega (arith, Before-le grows (started + timeout) n 0 early)

  -- Where the clock goes on by a second at least from one check to the next, a poll ends within its fuel.
  pub poll_job_returns :
      (latest started timeout : ℕ) (db : Db)
      → started ≤ clock 0
      → ((k : ℕ) → clock k < clock (suc k))
      → (poll_job engine token clock others latest started timeout db).0 ≢ out_of_fuel
  unfolding poll_job
  poll_job_returns latest started timeout db h grows =
      elim (Bool-cases (ltb latest (started + timeout))) [
        | inl beyond ↦ rw beyond (λ e. absurd (cc e))
        | inr before ↦
            rw before (poll_from_returns grows timeout (started + timeout) 0 db (omega arith))
      ]

  -- If a run is queued at some check before which the deadline is always ahead, whatever happened to the
  -- database in between, the poll answers with a job, then or earlier. The clock goes on by a second at
  -- least from one check to the next, and the deadline is a time that it can tell.
  pub poll_job-IsJob :
      (latest started timeout n : ℕ) (db : Db) (row : RunRow)
      → started + timeout ≤ latest
      → started ≤ clock 0
      → ((k : ℕ) → clock k < clock (suc k))
      → Before (started + timeout) 0 n
      → select_queued engine (waited 0 n db) ≡ some row
      → IsJob (poll_job engine token clock others latest started timeout db)
  unfolding poll_job
  poll_job-IsJob latest started timeout n db row fits h grows early q =
      let before : ltb latest (started + timeout) ≡ false = ground arith in
      rw before (
        poll_from-IsJob n (suc timeout) (started + timeout) 0 db row
          (enough started timeout n grows h early) early q)
