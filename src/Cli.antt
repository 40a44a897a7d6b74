-- ===== src/Cli.antt =====
-- src/cli/mod.rs: the settings that the server and the agent start with. The variables of the
-- environment, the files and what can be made of them are parameters; so is a new random text.
mod Tests
pub mod Secret
use flowz.Prelude.{
  Str, lit, trim, is_empty, Bool, true, false, if◌then◌else◌, List, [], ◌∷◌, ◌++◌, Option, none,
  some, Result, ok, err, ◌>>=◌,
}
use flowz.Executor.{ExecutorKind, dail}
use flowz.Server.Jobs.{unwrap_or}
use flowz.Server.Auth.{OidcConfig, not_empty, or_else, from_env}
use flowz.Workspace.Prepare.{WorkspaceBackend, dir_backend, zfs_backend}

pub record ServerConfig : Type 0 where
  pub listen : Str
  pub db : Str
  pub artifacts_dir : Str
  pub webhook_secret : Str
  pub github_token : Option Str
  pub oidc : Option OidcConfig
  pub jwt_secret : Option Str

-- `AppState` of src/server/mod.rs without the store.
pub record AppState : Type 0 where
  pub webhook_secret : Str
  pub github_token : Option Str
  pub artifacts_dir : Str
  pub oidc : Option OidcConfig
  pub jwt_secret : Str

pub record AgentFileConfig : Type 0 where
  pub server_url : Str
  pub agent_name : Str
  pub workspace_dir : Str
  pub zfs_pool : Option Str
  pub executor : ExecutorKind
  pub dail_bin : Option Str
  pub priv_tool : Option Str
  pub home_dir : Option Str
  pub cfgy_bin : Option Str
  pub cfgy_server_url : Option Str
  pub cfgy_token : Option Str

-- The variables; the content of a file that exists, or the error of reading it; and which directories
-- and databases can be made.
pub record Host : Type 0 where
  pub var : Str → Option Str
  pub file : Str → Option (Result Str Str)
  pub can_make : Str → Bool
  pub can_open : Str → Bool

module _ (host : Host) where
  abbrev pub required : Str → Option Str → Result Str Str
  required name none = err (name ++ lit " not set and no config file found")
  required name (some v) = ok v

  -- A file of settings where it exists, and what is made of the variables where it does not.
  abbrev pub from_file :
      {A : Type 0} → (Str → Result Str A) → Result Str A → Option (Result Str Str) → Result Str A
  from_file parse otherwise none = otherwise
  from_file parse otherwise (some raw) = raw >>= parse

  abbrev pub server_config : (Str → Result Str ServerConfig) → Result Str ServerConfig
  server_config from_str =
      from_file from_str
        (required (lit "FLOWZ_WEBHOOK_SECRET") (host.var (lit "FLOWZ_WEBHOOK_SECRET")) >>= λ secret.
          ok (record {
            listen = lit "0.0.0.0:7878";
            db = lit "flowz.db";
            artifacts_dir = lit "/var/db/flowz/artifacts";
            webhook_secret = secret;
            github_token = host.var (lit "FLOWZ_GITHUB_TOKEN");
            oidc = from_env host.var;
            jwt_secret = host.var (lit "FLOWZ_JWT_SECRET");
          }))
        (host.file (unwrap_or (host.var (lit "FLOWZ_CONFIG")) (lit "flowz-server.yaml")))

  abbrev pub or_config : Option OidcConfig → Option OidcConfig → Option OidcConfig
  or_config none other = other
  or_config (some c) other = some c

  -- The secret of the sessions: that of the settings, or else of the variable, unless it is empty; then
  -- the random text.
  abbrev pub session_secret : Option Str → Str → Str
  session_secret configured random =
      unwrap_or (not_empty (or_else configured (host.var (lit "FLOWZ_JWT_SECRET")))) random

  abbrev pub app_state : Str → ServerConfig → Result Str AppState
  app_state random config =
      if host.can_open (lit "sqlite:" ++ config.db)
      then (if host.can_make config.artifacts_dir
          then ok (record {
            webhook_secret = config.webhook_secret;
            github_token = config.github_token;
            artifacts_dir = config.artifacts_dir;
            oidc = or_config config.oidc (from_env host.var);
            jwt_secret = session_secret config.jwt_secret random;
          })
          else err (lit "create artifacts dir " ++ config.artifacts_dir))
      else err (lit "init store")

  -- `run_server`, up to the state that the server runs with.
  unfoldable pub run_server : (Str → Result Str ServerConfig) → Str → Result Str AppState
  run_server from_str random = server_config from_str >>= app_state random

  abbrev pub hostname : Option (Result Str Str) → Option Str
  hostname (some (ok raw)) = not_empty (some (trim raw))
  hostname (some (err e)) = none
  hostname none = none

  abbrev pub default_agent_name : Str
  default_agent_name =
      unwrap_or (or_else (hostname (host.file (lit "/etc/hostname"))) (host.var (lit "HOSTNAME")))
        (lit "agent")

  abbrev pub agent_config : (Str → Result Str AgentFileConfig) → Result Str AgentFileConfig
  agent_config from_str =
      from_file from_str
        (required (lit "FLOWZ_SERVER_URL") (host.var (lit "FLOWZ_SERVER_URL")) >>= λ server_url.
          ok (record {
            server_url = server_url;
            agent_name = default_agent_name;
            workspace_dir = lit "/tmp/flowz-workspace";
            zfs_pool = none;
            executor = dail;
            dail_bin = none;
            priv_tool = none;
            home_dir = none;
            cfgy_bin = none;
            cfgy_server_url = none;
            cfgy_token = none;
          }))
        (host.file (unwrap_or (host.var (lit "FLOWZ_AGENT_CONFIG")) (lit "flowz-agent.yaml")))

  abbrev pub backend_of : Str → Option Str → Result Str WorkspaceBackend
  backend_of dir (some pool) = ok (zfs_backend pool)
  backend_of dir none =
      if host.can_make dir then ok (dir_backend dir) else err (lit "create workspace dir " ++ dir)

  -- `run_agent`, up to the settings that the agent runs with.
  unfoldable pub run_agent :
      (Str → Result Str AgentFileConfig) → Result Str (AgentFileConfig × WorkspaceBackend)
  run_agent from_str = agent_config from_str >>= λ config.
      backend_of config.workspace_dir config.zfs_pool >>= λ workspace. ok (config, workspace)
