-- ===== src/Server/Jobs.antt =====
-- src/server/mod.rs: the queue of jobs. The time, what else happens to the database between two checks
-- of a poll, and new identifiers are parameters.
pub mod Waiting
use flowz.Prelude.{
  ℕ, zero, suc, ◌+◌, Str, lit, Bool, true, false, leb, ltb, if◌then◌else◌, List, [], ◌∷◌, map,
  Option, none, some, Result, ok, err,
}
use flowz.Model.{Run, Repo, StepRecord, queued}
use flowz.Store.Sql.{Engine}
use flowz.Store.Tables.{Db, Query}
use flowz.Store.Runs.{create_run, get_run, claim_next_job, list_runs}
use flowz.Store.Steps.{list_steps}
use flowz.Store.Repos.{create_repo, list_repos, delete_repo}
use flowz.Server.Urls.{repo_from_clone_url}

pub data Answer : Type 0 where
  -- the run, and the token of the forge
  job : Run → Option Str → Answer
  -- `panicked`: the deadline is no time of the clock
  no_content panicked out_of_fuel : Answer

-- One check of `poll_job`: it answers, or sleeps and goes on with the rest of the loop. `late` says
-- whether the deadline has passed.
abbrev pub answer_claim : Option Str → (Db → Answer × Db) → Bool → Option Run × Db → Answer × Db
answer_claim token rest late (some run, db) = (job run token, db)
answer_claim token rest true (none, db) = (no_content, db)
answer_claim token rest false (none, db) = rest db

module _ (engine : Engine) (token : Option Str) (clock : ℕ → ℕ) (others : ℕ → Db → Db) where
  -- The loop of `poll_job` from check `k` on: `clock k` is the time in seconds, and `others k` what
  -- happens to the database while the poll sleeps after it.
  unfoldable pub poll_from : ℕ → ℕ → ℕ → Db → Answer × Db
  poll_from zero deadline k db = (out_of_fuel, db)
  poll_from (suc fuel) deadline k db =
      answer_claim token (λ db'. poll_from fuel deadline (suc k) (others k db'))
        (leb deadline (clock k)) (claim_next_job engine (clock k) db)

  -- `poll_job`, from the time of the request on: a second passes at least with each check, so that as
  -- many checks as the deadline is away are enough. `latest` is the last time that an `Instant` can hold;
  -- the sum panics beyond it.
  unfoldable pub poll_job : ℕ → ℕ → ℕ → Db → Answer × Db
  unfolding poll_from
  poll_job latest started timeout_secs db =
      if ltb latest (started + timeout_secs)
      then (panicked, db)
      else poll_from (suc timeout_secs) (started + timeout_secs) 0 db

pub data Response : Type 0 where
  created : Str → Response
  no_content not_found internal_server_error : Response

abbrev pub unwrap_or : Option Str → Str → Str
unwrap_or none d = d
unwrap_or (some s) d = s

-- The run of `create_run`.
abbrev pub manual_run : Str → ℕ → Str → Str → Option Str → Run
manual_run id now clone_url branch sha = record {
  id = id;
  repo = repo_from_clone_url clone_url;
  branch = branch;
  commit = unwrap_or sha (lit "HEAD");
  clone_url = clone_url;
  status = queued;
  created_at = now;
  updated_at = now;
}

abbrev pub answer_stored : Str → Db → Query Db → Response × Db
answer_stored id db (ok db') = (created id, db')
answer_stored id db (err e) = (internal_server_error, db)

-- The handler `create_run`.
abbrev pub post_run : Str → ℕ → Str → Str → Option Str → Db → Response × Db
post_run id now clone_url branch sha db =
    answer_stored id db (create_run db (manual_run id now clone_url branch sha))

abbrev pub configured_repo : Str → Option Str → Str → Option Str → Repo
configured_repo id name clone_url branch = record {
  id = id;
  name = unwrap_or name (repo_from_clone_url clone_url);
  clone_url = clone_url;
  branch = unwrap_or branch (lit "main");
}

-- `create_repo_api`, `delete_repo_api`, `list_repos_api`
abbrev pub create_repo_api : Str → Option Str → Str → Option Str → Db → Response × Db
create_repo_api id name clone_url branch db =
    answer_stored id db (create_repo db (configured_repo id name clone_url branch))

abbrev pub answer_deleted : Bool × Db → Response × Db
answer_deleted (true, db) = (no_content, db)
answer_deleted (false, db) = (not_found, db)

abbrev pub delete_repo_api : Str → Db → Response × Db
delete_repo_api repo_id db = answer_deleted (delete_repo db repo_id)

abbrev pub list_repos_api : Engine → Db → List Repo
list_repos_api engine db = list_repos engine db

-- The handler `list_runs`, and the handler `get_run`: no detail where there is no run.
abbrev pub recent_runs : Engine → Db → List Run
recent_runs engine db = list_runs engine db 50

pub record RunDetail : Type 0 where
  pub run : Run
  pub steps : List StepRecord

abbrev pub with_steps : Db → Str → Option Run → Option RunDetail
with_steps db run_id none = none
with_steps db run_id (some run) = some (record { run = run; steps = list_steps db run_id })

abbrev pub run_detail : Db → Str → Option RunDetail
run_detail db run_id = with_steps db run_id (get_run db run_id)
