-- ===== src/Server/Stream/Tests.antt =====
-- The theorem on streams at a concrete run.
use flowz.Prelude.{
  ℕ, zero, suc, Str, lit, Bool, true, false, Option, some, ◌==◌, [], ◌∷◌, ◌++◌, map, ◌≡◌, refl,
  arith,
}
use flowz.Store.Status.{run_from_str}
use flowz.Store.Tables.{LogLine, Db, empty}
use flowz.Store.Runs.{get_run}
use flowz.Store.Logs.{get_logs_from}
use flowz.Store.Logs.Stream.{IdsGrow}
use flowz.Server.Stream.{done, log_event, stream_logs}
use flowz.Server.Stream.Whole.{Extends, EndsAfter, reads, stream_logs-whole}

abbrev line_of : ℕ → LogLine
line_of id = record { id = id; run_id = lit "a"; step = lit "s"; line = lit "x"; created_at = id }

-- A line is there at first and another later; the run ends between the rounds.
abbrev dbs : ℕ → Db
dbs zero = record empty { log_lines = line_of 1 ∷ []; last_log_id = 1 }
dbs (suc k) = record empty { log_lines = line_of 1 ∷ line_of 2 ∷ []; last_log_id = 2 }

abbrev with_status : Str → Db
with_status status = record empty {
  runs =
      record {
        id = lit "a";
        repo = lit "o/r";
        branch = lit "main";
        commit = lit "c";
        clone_url = lit "u";
        status = status;
        created_at = 1;
        updated_at = 1;
      }
      ∷ [];
}

abbrev runs : ℕ → Option Db
runs zero = some (with_status (lit "running"))
runs (suc k) = some (with_status (lit "success"))

-- The first read of lines fails.
abbrev answered : ℕ → Bool
answered zero = false
answered (suc k) = true

grows : (k : ℕ) → Extends (dbs k) (dbs (suc k))
grows zero = (line_of 2 ∷ [], refl)
grows (suc k) = ([], refl)

ids : (k : ℕ) → IdsGrow (dbs k)
ids zero = omega arith
ids (suc k) = omega arith

ends : EndsAfter dbs answered runs (lit "a") 0 1
unfolding get_run run_from_str ◌==◌
ends = (refl, (refl, refl))

stream_logs-whole_example :
    stream_logs (reads dbs answered runs (lit "a")) runs (lit "a") 5
    ≡ map log_event (get_logs_from (dbs 1) (lit "a") 0) ++ done ∷ []
stream_logs-whole_example =
    stream_logs-whole dbs answered runs (lit "a") grows ids 1 5 (omega arith) ends
