-- ===== src/Server/Tests.antt =====
-- The theorems on the handlers at concrete requests.
use flowz.Prelude.{
  ℕ, arith, ◌≢◌, true, split, starts_with, contains_char, Bool, none, keep, if◌then◌else◌, Str, lit,
  ◌==◌, ◌++◌, map, [], ◌∷◌, some, ok, true, ◌≡◌, refl, ◌⊎◌,
}
use flowz.Store.Tables.{Db, empty, has_run}
use mathlib.Core.Option
use flowz.Store.Logs.{get_logs}
use flowz.Store.Runs.{get_run}
use flowz.Store.Runs.Update.{with_status}
use flowz.Store.Sql.Insertion.{insertion_sort}
use flowz.Server.Statuses.{run_status_of, spared, stale_at, post_status, post_status-get_run}
use flowz.Store.Tables.{RunRow}
use flowz.Store.Runs.{select_queued}
use flowz.Agent.Env.{put}
use flowz.Store.Artifacts.{insert_artifact}
use flowz.Server.Artifacts.{
  Disk, Response, attachment, last_part, safe_rel_path, destination, upload_artifact,
  download_artifact,
}
use flowz.Server.Artifacts.Paths.{Stays, upload_artifact-Stays}
use flowz.Server.Artifacts.Stored.{IsName, download-upload_artifact}
use flowz.Server.Jobs.{out_of_fuel, poll_job}
use flowz.Server.Jobs.Waiting.{waited, IsJob, poll_job_returns, poll_job-IsJob}
use flowz.Server.{Verifier, no_content, ingest_logs}
use flowz.Server.Deliveries.{ingest_logs-get_logs}

-- A JSON value is the text that all its fields have.
abbrev verifier : Verifier
verifier = record {
  Value = Str;
  decode = λ hex_sig. some hex_sig;
  verify_slice = λ secret body code. code == body;
  from_slice = λ body. ok (lit "refs/heads/main");
  as_str = λ value keys. some value;
  webhook_secret = lit "secret";
}

abbrev with_run : Db
with_run = record empty {
  runs =
      record {
        id = lit "a";
        repo = lit "o/r";
        branch = lit "main";
        commit = lit "c";
        clone_url = lit "u";
        status = lit "running";
        created_at = 1;
        updated_at = 1;
      }
      ∷ [];
}

known_run : has_run with_run (lit "a") ≡ true
unfolding ◌==◌
known_run = refl

ingest_logs-get_logs_example :
    ((ingest_logs 5 (lit "a") (lit "s") (lit "x" ∷ lit "y" ∷ []) with_run).0 ≡ no_content)
    × (get_logs (ingest_logs 5 (lit "a") (lit "s") (lit "x" ∷ lit "y" ∷ []) with_run).1 (lit "a")
        ≡ get_logs with_run (lit "a") ++ map (λ line. (lit "s", line)) (lit "x" ∷ lit "y" ∷ []))
ingest_logs-get_logs_example =
    ingest_logs-get_logs 5 (lit "a") (lit "s") (lit "x" ∷ lit "y" ∷ []) with_run known_run

post_status-get_run_example :
    ((j : Str)
      → get_run (post_status insertion_sort 1 9 (lit "a") (lit "success") none none with_run).1 j
        ≡ (if (lit "a") == j
            then Option.map (with_status (run_status_of (lit "success")) 9) (get_run with_run j)
            else get_run with_run j))
    × ((post_status insertion_sort 1 9 (lit "a") (lit "success") none none with_run).0
        ≡ stale_at insertion_sort 1 9 (lit "success") with_run)
    × ((post_status insertion_sort 1 9 (lit "a") (lit "success") none none with_run).1.artifacts
        ≡ keep (spared (stale_at insertion_sort 1 9 (lit "success") with_run)) with_run.artifacts)
post_status-get_run_example =
    post_status-get_run insertion_sort 1 9 (lit "a") (lit "success") none none with_run

abbrev disk : Disk
disk = record { db = with_run; files = [] }

abbrev always : Str → Bool
always path = true

uploaded :
    (upload_artifact
      (lit "d")
      always
      always
      (lit "i")
      7
      (lit "a")
      (lit "s")
      (lit "x/y")
      (lit "body")
      disk).0
    ≡ Response.no_content
unfolding upload_artifact insert_artifact split starts_with ◌==◌
uploaded = refl

under_step : safe_rel_path (lit "s" ++ b'/' ∷ lit "x/y") ≡ true
unfolding safe_rel_path split starts_with ◌==◌
under_step = refl

is_name : IsName (lit "s")
unfolding contains_char
is_name = (refl, refl)

upload_artifact-Stays_example :
    ((upload_artifact
        (lit "d")
        always
        always
        (lit "i")
        7
        (lit "a")
        (lit "s")
        (lit "x/y")
        (lit "body")
        disk).1.files
      ≡ [])
    ⊎ (((upload_artifact
            (lit "d")
            always
            always
            (lit "i")
            7
            (lit "a")
            (lit "s")
            (lit "x/y")
            (lit "body")
            disk).1.files
          ≡ put []
              (destination (lit "d") always always (lit "a") (lit "s") (lit "x/y"))
              (lit "body"))
        × Stays (lit "x/y"))
upload_artifact-Stays_example =
    upload_artifact-Stays (lit "d") always always (lit "i") 7 (lit "a") (lit "s") (lit "x/y")
      (lit "body") disk

download-upload_artifact_example :
    download_artifact
      (lit "d")
      always
      always
      (lit "a")
      (lit "s" ++ b'/' ∷ lit "x/y")
      (upload_artifact
        (lit "d")
        always
        always
        (lit "i")
        7
        (lit "a")
        (lit "s")
        (lit "x/y")
        (lit "body")
        disk).1
    ≡ attachment (last_part (split (lit "s" ++ b'/' ∷ lit "x/y") b'/')) (lit "body")
download-upload_artifact_example =
    download-upload_artifact (lit "d") always always (lit "i") 7 (lit "a") (lit "s") (lit "x/y")
      (lit "body") disk is_name under_step uploaded

-- A run is queued while the poll sleeps.
abbrev late_run : RunRow
late_run = record {
  id = lit "q";
  repo = lit "o/r";
  branch = lit "main";
  commit = lit "c";
  clone_url = lit "u";
  status = lit "queued";
  created_at = 2;
  updated_at = 2;
}

abbrev queues : ℕ → Db → Db
queues k db = record db { runs = db.runs ++ late_run ∷ [] }

abbrev seconds : ℕ → ℕ
seconds k = k

found :
    select_queued insertion_sort (waited insertion_sort none seconds queues 0 1 with_run)
    ≡ some late_run
unfolding select_queued ◌==◌
found = refl

poll_job_returns_example :
    (poll_job insertion_sort none seconds queues 100 0 3 with_run).0 ≢ out_of_fuel
poll_job_returns_example =
    poll_job_returns insertion_sort none seconds queues 100 0 3 with_run (omega arith)
      (λ k. omega arith)

poll_job-IsJob_example :
    IsJob insertion_sort none seconds queues
      (poll_job insertion_sort none seconds queues 100 0 3 with_run)
poll_job-IsJob_example =
    poll_job-IsJob insertion_sort none seconds queues 100 0 3 1 with_run late_run (omega arith)
      (omega arith) (λ k. omega arith) (omega arith) found
