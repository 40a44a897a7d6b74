-- ===== src/Store/Tests.antt =====
-- The theorems on the database at concrete rows.
use mathlib.Core.List.{Memᴰ}
use mathlib.Core.Option
use flowz.Prelude.{ℕ, Str, lit, ◌==◌, ◌≤◌, ◌-◌, ◌≢◌, [], ◌∷◌, some, ok, if◌then◌else◌, ◌≡◌, refl}
use flowz.Model.{RunStatus}
use flowz.Store.Sql.Insertion.{insertion_sort}
use flowz.Store.Tables.{RunRow, Db, update, empty, to_run}
use flowz.Store.Runs.{get_run, claim_next_job}
use flowz.Store.Runs.Update.{with_status}
use flowz.Store.Artifacts.{insert_artifact, retention, evict_old_artifact_runs}
use flowz.Store.Artifacts.Unique.{KeysDistinct, stored, same_key, insert_artifact-stored}
use flowz.Store.Artifacts.Retention.{Retains, evict_old_artifact_runs-Retains}
use flowz.Store.Claims.{IsQueued, claim_next_job-oldest, claim_next_job_twice}

abbrev row : Str → ℕ → Str → RunRow
row id created status = record {
  id = id;
  repo = lit "o/r";
  branch = lit "main";
  commit = lit "c";
  clone_url = lit "u";
  status = status;
  created_at = created;
  updated_at = created;
}

-- Two queued runs, the second one older, and an artifact of the first.
abbrev db0 : Db
db0 = record empty {
  runs = row (lit "a") 2 (lit "queued") ∷ row (lit "b") 1 (lit "queued") ∷ [];
  artifacts =
      record {
        id = lit "i";
        run_id = lit "a";
        step = lit "s";
        path = lit "p";
        size = 7;
        created_at = 3;
      }
      ∷ [];
  log_lines =
      record { id = 1; run_id = lit "a"; step = lit "s"; line = lit "l"; created_at = 3 } ∷ [];
  last_log_id = 1;
}

abbrev db1 : Db
db1 = (claim_next_job insertion_sort 9 db0).1

claim_b :
    claim_next_job insertion_sort 9 db0 ≡ (some (to_run (row (lit "b") 1 (lit "queued"))), db1)
unfolding claim_next_job ◌==◌
claim_b = refl

claim_a :
    claim_next_job insertion_sort 10 db1
    ≡ (some (to_run (row (lit "a") 2 (lit "queued"))), (claim_next_job insertion_sort 10 db1).1)
unfolding claim_next_job ◌==◌
claim_a = refl

claim_next_job_twice_example :
    (to_run (row (lit "b") 1 (lit "queued"))).id ≢ (to_run (row (lit "a") 2 (lit "queued"))).id
claim_next_job_twice_example =
    claim_next_job_twice insertion_sort 9 10 db0 db1 (claim_next_job insertion_sort 10 db1).1
      (to_run (row (lit "b") 1 (lit "queued"))) (to_run (row (lit "a") 2 (lit "queued"))) claim_b
      claim_a

claim_next_job-oldest_example :
    (r : RunRow) × Memᴰ r db0.runs
    × IsQueued r
    × (to_run (row (lit "b") 1 (lit "queued")) ≡ to_run r)
    × ((other : RunRow) → Memᴰ other db0.runs → IsQueued other → r.created_at ≤ other.created_at)
    × ((j : Str)
        → get_run db1 j ≡ (
            if (lit "b") == j
            then Option.map (with_status RunStatus.running 9) (get_run db0 j)
            else get_run db0 j))
claim_next_job-oldest_example =
    claim_next_job-oldest insertion_sort 9 db0 db1 (to_run (row (lit "b") 1 (lit "queued"))) claim_b

evict_old_artifact_runs-Retains_example :
    Retains (100 - retention 1) db0 (evict_old_artifact_runs insertion_sort 1 100 db0)
evict_old_artifact_runs-Retains_example = evict_old_artifact_runs-Retains insertion_sort 1 100 db0

abbrev uploaded : Db
uploaded = record db0 {
  artifacts =
      record {
        id = lit "i";
        run_id = lit "a";
        step = lit "s";
        path = lit "p";
        size = 8;
        created_at = 5;
      }
      ∷ [];
}

stored_again : insert_artifact (lit "j") 5 db0 (lit "a") (lit "s") (lit "p") 8 ≡ ok uploaded
unfolding insert_artifact update ◌==◌
stored_again = refl

insert_artifact-stored_example :
    KeysDistinct uploaded.artifacts
    × ((r' s' p' : Str)
        → stored uploaded r' s' p' ≡ (
            if same_key (lit "a") (lit "s") (lit "p") r' s' p'
            then some (8, 5)
            else stored db0 r' s' p'))
insert_artifact-stored_example =
    insert_artifact-stored (lit "j") 5 db0 uploaded (lit "a") (lit "s") (lit "p") 8 (tt, tt)
      stored_again
