-- ===== src/Server.antt =====
-- src/server/mod.rs: the handlers of deliveries and of log lines. The identifier of a new run and the
-- time are parameters.
mod Tests
pub mod Deliveries
pub mod Statuses
pub mod Artifacts
pub mod Urls
pub mod Jobs
pub mod Pages
pub mod Cookies
pub mod Provider
pub mod Auth
pub mod Router
pub mod Stream
use flowz.Prelude.{
  ℕ, Str, lit, Bool, true, false, List, [], ◌∷◌, Option, none, some, Result, ok, err,
}
use flowz.Model.{Run, queued}
use flowz.Webhook.{WebhookError, Verified, not_push_event, PushEvent, verify_signature, parse_push}
use flowz.Store.Tables.{Db, Query}
use flowz.Store.Runs.{create_run}
use flowz.Store.Logs.{append_log}

-- The status code of a response, with the run that was created.
pub data Response : Type 0 where
  bad_request unauthorized ignored internal_server_error no_content : Response
  created : Str → Response

-- The environment of the handler of deliveries.
pub record Verifier : Type 1 where
  pub Value : Type 0
  pub decode : Str → Option (List ℕ)
  pub verify_slice : Str → List ℕ → List ℕ → Bool
  pub from_slice : List ℕ → Result Str Value
  pub as_str : Value → List Str → Option Str
  pub webhook_secret : Str

abbrev pub queued_run : Str → ℕ → PushEvent → Run
queued_run id now event = record {
  id = id;
  repo = event.repo;
  branch = event.branch;
  commit = event.commit;
  clone_url = event.clone_url;
  status = queued;
  created_at = now;
  updated_at = now;
}

abbrev pub answer_create : Str → Db → Query Db → Response × Db
answer_create id db (ok db') = (created id, db')
answer_create id db (err e) = (internal_server_error, db)

abbrev pub answer_event : Str → ℕ → Db → Result WebhookError PushEvent → Response × Db
answer_event id now db (ok event) = answer_create id db (create_run db (queued_run id now event))
answer_event id now db (err not_push_event) = (ignored, db)
answer_event id now db (err e) = (bad_request, db)

abbrev pub answer_verified : Verifier → Str → ℕ → Db → List ℕ → Verified → Response × Db
answer_verified v id now db body (err e) = (unauthorized, db)
answer_verified v id now db body (ok u) =
    answer_event id now db (parse_push v.from_slice v.as_str body)

abbrev pub github_webhook : Verifier → Str → ℕ → Db → Option Str → List ℕ → Response × Db
github_webhook v id now db none body = (bad_request, db)
github_webhook v id now db (some sig) body =
    answer_verified v id now db body
      (verify_signature v.decode v.verify_slice v.webhook_secret body sig)

abbrev pub answer_log : (Db → Response × Db) → Db → Query Db → Response × Db
answer_log rest db (ok db') = rest db'
answer_log rest db (err e) = (internal_server_error, db)

abbrev pub ingest_logs : ℕ → Str → Str → List Str → Db → Response × Db
ingest_logs now run_id step [] db = (no_content, db)
ingest_logs now run_id step (line ∷ lines) db =
    answer_log (ingest_logs now run_id step lines) db (append_log now db run_id step line)
