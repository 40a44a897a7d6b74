-- ===== src/Cli/Tests.antt =====
-- The theorem on the settings of the server without a file.
use flowz.Prelude.{Str, lit, ◌==◌, true, if◌then◌else◌, none, some, Result, ok, err, ◌≡◌, refl}
use flowz.Cli.{ServerConfig, AppState, Host, run_server}
use flowz.Cli.Secret.{Starts, run_server-session_secret}

-- The secret of the deliveries is set, and that of the sessions is the empty text.
abbrev host : Host
host = record {
  var = λ name.
      if name == lit "FLOWZ_WEBHOOK_SECRET"
      then some (lit "w")
      else if name == lit "FLOWZ_JWT_SECRET"
      then some (lit "")
      else none;
  file = λ path. none;
  can_make = λ path. true;
  can_open = λ path. true;
}

abbrev from_str : Str → Result Str ServerConfig
from_str raw = err (lit "parse config")

abbrev state : AppState
state = record {
  webhook_secret = lit "w";
  github_token = none;
  artifacts_dir = lit "/var/db/flowz/artifacts";
  oidc = none;
  jwt_secret = lit "r";
}

started : run_server host from_str (lit "r") ≡ ok state
unfolding run_server ◌==◌
started = refl

run_server-session_secret_example : Starts host from_str state
run_server-session_secret_example =
    run_server-session_secret host from_str (lit "r") state refl started
