-- ===== src/Store/Logs.antt =====
-- The queries on `log_lines`. The rows stand in the order of their ids.
pub mod Stream
use flowz.Prelude.{
  ℕ, ◌+◌, Str, ◌==◌, Bool, not, ◌&&◌, ltb, any, keep, if◌then◌else◌, List, [], ◌∷◌, ◌++◌, map,
  Result, ok, err,
}
use flowz.Store.Tables.{LogLine, Db, DbError, foreign_key, Query, has_run}

-- `append_log`
unfoldable pub append_log : ℕ → Db → Str → Str → Str → Query Db
append_log now db run_id step line =
    if not (has_run db run_id)
    then err foreign_key
    else ok (record db {
      last_log_id = db.last_log_id + 1;
      log_lines =
          db.log_lines
          ++ record {
            id = db.last_log_id + 1;
            run_id = run_id;
            step = step;
            line = line;
            created_at = now;
          }
            ∷ [];
    })

-- `get_logs`
unfoldable pub get_logs : Db → Str → List (Str × Str)
get_logs db run_id =
    map (λ (l : LogLine). (l.step, l.line))
      (keep (λ (l : LogLine). l.run_id == run_id) db.log_lines)

-- `get_logs_from`
unfoldable pub get_logs_from : Db → Str → ℕ → List (ℕ × Str × Str)
get_logs_from db run_id after_id =
    map (λ (l : LogLine). (l.id, l.step, l.line))
      (keep (λ (l : LogLine). l.run_id == run_id && ltb after_id l.id) db.log_lines)
