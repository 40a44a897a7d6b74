-- ===== src/Server/Stream.antt =====
-- src/server/mod.rs: the stream of a log. The database at the reads of the lines and of the run is given
-- for each round of the loop, since others write to it in between; a read may fail.
pub mod Whole
mod Tests
use flowz.Prelude.{
  ℕ, zero, suc, Str, Bool, true, false, if◌then◌else◌, List, [], ◌∷◌, ◌++◌, map, Option, none, some,
}
use flowz.Model.{Run, RunStatus, queued, running}
use flowz.Store.Tables.{Db}
use flowz.Store.Runs.{get_run}
use flowz.Store.Logs.{get_logs_from}
use flowz.Store.Logs.Stream.{last_after}

-- What is sent: a line with its step before a tab, or the end.
pub data Event : Type 0 where
  log : Str → Event
  done : Event

abbrev pub log_event : ℕ × Str × Str → Event
log_event (id, step, line) = log (step ++ b'\t' ∷ line)

abbrev pub is_done : RunStatus → Bool
is_done RunStatus.queued = false
is_done RunStatus.running = false
is_done RunStatus.success = true
is_done RunStatus.failure = true
is_done RunStatus.cancelled = true

-- A run that is not there is done, and one that cannot be read.
abbrev pub run_done : Option Run → Bool
run_done none = true
run_done (some r) = is_done r.status

abbrev pub read_run : Str → Option Db → Option Run
read_run run_id none = none
read_run run_id (some db) = get_run db run_id

-- No lines where they cannot be read.
abbrev pub read_logs : Str → ℕ → Option Db → List (ℕ × Str × Str)
read_logs run_id last_id none = []
read_logs run_id last_id (some db) = get_logs_from db run_id last_id

-- `reads` and `runs` give nothing for a read that fails.
module _ (reads runs : ℕ → Option Db) (run_id : Str) where
  -- The loop of `stream_logs` from round k on, for at most so many rounds as the fuel is.
  unfoldable pub stream_from : ℕ → ℕ → ℕ → List Event
  stream_from zero k last_id = []
  stream_from (suc fuel) k last_id =
      let rows = read_logs run_id last_id (reads k) in
      let rest = stream_from fuel (suc k) (last_after last_id rows) in
      map log_event rows ++ (if run_done (read_run run_id (runs k)) then done ∷ [] else rest)

  -- `stream_logs`
  unfoldable pub stream_logs : ℕ → List Event
  unfolding stream_from
  stream_logs fuel = stream_from fuel 0 0
