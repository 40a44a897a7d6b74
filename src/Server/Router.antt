-- ===== src/Server/Router.antt =====
-- src/server/mod.rs: the routes, and the gate in front of some of them. The matching of paths is the
-- library's.
pub mod Guarded
use flowz.Prelude.{ℕ, Str, Bool, true, false, ◌||◌, if◌then◌else◌, Option, none, some}
use flowz.Server.Auth.{OidcConfig, Web, Request, Gate, passed, require_auth}

pub data Route : Type 0 where
  favicon github_webhook poll_job ingest_logs upload_artifact update_run_status : Route
  login callback logout : Route
  ui_projects ui_project ui_run list_artifacts_api download_artifact : Route
  list_repos_api create_repo_api delete_repo_api list_runs create_run get_run get_logs stream_logs :
      Route

-- The routes of `open`; the others are those of `protected`.
abbrev pub is_open : Route → Bool
is_open Route.favicon = true
is_open Route.github_webhook = true
is_open Route.poll_job = true
is_open Route.ingest_logs = true
is_open Route.upload_artifact = true
is_open Route.update_run_status = true
is_open Route.login = true
is_open Route.callback = true
is_open Route.logout = true
is_open Route.ui_projects = false
is_open Route.ui_project = false
is_open Route.ui_run = false
is_open Route.list_artifacts_api = false
is_open Route.download_artifact = false
is_open Route.list_repos_api = false
is_open Route.create_repo_api = false
is_open Route.delete_repo_api = false
is_open Route.list_runs = false
is_open Route.create_run = false
is_open Route.get_run = false
is_open Route.get_logs = false
is_open Route.stream_logs = false

module _ (web : Web) {A : Type 0} where
  abbrev pub gated : Option OidcConfig → Str → ℕ → Request → (Request → A) → Gate A
  gated none jwt_secret now req handler = passed (handler req)
  gated (some oidc) jwt_secret now req handler = require_auth web jwt_secret now req handler

  -- `router`, for a request that matches the route.
  unfoldable pub router : Option OidcConfig → Str → ℕ → Route → Request → (Request → A) → Gate A
  router oidc jwt_secret now route req handler =
      if is_open route then passed (handler req) else gated oidc jwt_secret now req handler
