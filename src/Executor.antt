-- ===== src/Executor.antt =====
-- src/executor/mod.rs: the names, the environment file and the command line of a step. The processes
-- that run are parameters.
mod Tests
pub mod Commands
use mathlib.Core.List.{reverse}
use flowz.Prelude.{
  ℕ, zero, suc, Str, lit, ◌==◌, contains_char, starts_with, is_ascii_alphanumeric,
  to_ascii_lowercase, Bool, true, false, not, ◌||◌, eqb, if◌then◌else◌, List, [], ◌∷◌, ◌++◌, map,
  flat_map, any, take, Option, none, some, Result, ok, err, ◌>>=◌,
}

-- A path of the host is its text.
pub record StepContext : Type 0 where
  pub run_id : Str
  pub step_name : Str
  pub run_file : Str
  pub workspace : Str
  pub env : List (Str × Str)
  pub home_dir : Option Str
  pub mounts : List (Str × Str)

pub data ExecutorKind : Type 0 where
  stub dail : ExecutorKind

-- `sanitize_jail_name`
unfoldable pub sanitize_jail_name : Str → Str
unfolding is_ascii_alphanumeric to_ascii_lowercase
sanitize_jail_name s =
    map (λ c. if is_ascii_alphanumeric c || eqb c b'-' then to_ascii_lowercase c else b'-') s

-- `&run_id[..run_id.len().min(8)]`, for an id of ASCII characters.
abbrev pub run_prefix : Str → Str
run_prefix run_id = take 8 run_id

-- The name of the jail of a step.
unfoldable pub jail_name : StepContext → Str
unfolding sanitize_jail_name
jail_name ctx =
    sanitize_jail_name (lit "flowz-" ++ (run_prefix ctx.run_id ++ (lit "-" ++ ctx.step_name)))

-- The path of `EnvFile::write` below the directory for temporary files.
unfoldable pub env_file_name : Str → Str → Str
unfolding sanitize_jail_name
env_file_name run_id step_name =
    lit "flowz-env-" ++ (run_prefix run_id ++ (lit "-" ++ sanitize_jail_name step_name))

-- The directory for temporary files: its path, whether a file can be opened in it, and for each line
-- whether writing it fails, with what is written of it all the same and the error.
pub record TempDir : Type 0 where
  pub path : Str
  pub open_error : Option Str
  pub write_error : Str → Option (Str × Str)

abbrev pub newline_error : Str → Str
newline_error k =
    lit "env value for '" ++ (k ++ lit "' contains a newline, which dail cannot carry")

abbrev pub env_line : Str → Str → Str
env_line k v = k ++ b'=' ∷ (v ++ 10 ∷ [])

abbrev pub written : Str → Option (Str × Str) → Str × Option Str → Str × Option Str
written line none (text, stopped) = (line ++ text, stopped)
written line (some (part, e)) later = (part, some e)

-- The loop of `EnvFile::write`: the text that was written, and the error, if one stopped it.
unfoldable pub env_lines : TempDir → List (Str × Str) → Str × Option Str
unfolding contains_char
env_lines temp [] = ([], none)
env_lines temp ((k, v) ∷ env) =
    let later = env_lines temp env in
    if contains_char v 10
    then ([], some (newline_error k))
    else written (env_line k v) (temp.write_error (env_line k v)) later

pub record DailExecutor : Type 0 where
  pub dail_bin : Str
  pub workspace_mount : Str
  pub priv_tool : Str

-- `detect_priv_tool`, over the search of `PATH`.
abbrev pub detect_priv_tool : (Str → Bool) → Str
detect_priv_tool in_path =
    if in_path (lit "doas")
    then lit "doas"
    else if in_path (lit "sudo")
    then lit "sudo"
    else lit "doas"

-- `DailExecutor::default`
abbrev pub default_dail : (Str → Bool) → DailExecutor
default_dail in_path = record {
  dail_bin = lit "/usr/local/bin/dail";
  workspace_mount = lit "/workspace";
  priv_tool = detect_priv_tool in_path;
}

abbrev pub unwrap_or : Option Str → Str → Str
unwrap_or none d = d
unwrap_or (some s) d = s

-- The implementations of `Executor`.
pub data Executor : Type 0 where
  stub_executor host_executor : Executor
  dail_executor : DailExecutor → Executor

-- `ExecutorKind::build`
unfoldable pub build : (Str → Bool) → ExecutorKind → Option Str → Option Str → Executor
build in_path ExecutorKind.stub dail_bin priv_tool = stub_executor
build in_path ExecutorKind.dail dail_bin priv_tool =
    let exec = default_dail in_path in
    dail_executor (record exec {
      dail_bin = unwrap_or dail_bin exec.dail_bin;
      priv_tool = unwrap_or priv_tool exec.priv_tool;
    })

-- A process to start: its program, arguments, directory, and variables set one after the other.
pub record Command : Type 0 where
  pub program : Str
  pub args : List Str
  pub current_dir : Str
  pub envs : List (Str × Str)

abbrev pub home_env : Option Str → List (Str × Str)
home_env none = []
home_env (some home) = (lit "HOME", home) ∷ []

-- The command of `StubExecutor::run_step`.
unfoldable pub stub_command : StepContext → Command
stub_command ctx = record {
  program = lit "sh";
  args = ctx.run_file ∷ [];
  current_dir = ctx.workspace;
  envs = ctx.env;
}

-- The command of `HostExecutor::run_step`.
unfoldable pub host_command : StepContext → Command
host_command ctx = record {
  program = lit "sh";
  args = ctx.run_file ∷ [];
  current_dir = ctx.workspace;
  envs = home_env ctx.home_dir ++ ctx.env;
}

abbrev pub mount_target : Str → Str → Str
mount_target workspace_mount path =
    if starts_with path (lit "/") then path else workspace_mount ++ b'/' ∷ path

abbrev pub mount_args : Str → List (Str × Str) → List Str
mount_args workspace_mount [] = []
mount_args workspace_mount ((host, path) ∷ mounts) =
    lit "--mount"
    ∷ (host ++ b':' ∷ mount_target workspace_mount path)
    ∷ mount_args workspace_mount mounts

abbrev pub env_args : Str → List (Str × Str) → List Str
env_args env_file [] = []
env_args env_file (e ∷ env) = lit "--env-file" ∷ env_file ∷ []

-- `build_dail_command`
unfoldable pub build_dail_command : Str → Str → Str → Str → Str → StepContext → Command
build_dail_command priv_tool dail_bin jail_name workspace_mount env_file ctx = record {
  program = priv_tool;
  args =
      dail_bin
      ∷ lit "run"
      ∷ ctx.run_file
      ∷ lit "--name"
      ∷ jail_name
      ∷ lit "--mount"
      ∷ (ctx.workspace ++ b':' ∷ workspace_mount)
      ∷ lit "-w"
      ∷ workspace_mount
      ∷ lit "--network"
      ∷ lit "inherit"
      ∷ lit "--rm"
      ∷ lit "--wait"
      ∷ (mount_args workspace_mount ctx.mounts ++ env_args env_file ctx.env);
  current_dir = ctx.workspace;
  envs = [];
}

-- What happens to the host during a step.
pub data HostEvent : Type 0 where
  write_file : Str → Str → HostEvent
  remove_file : Str → HostEvent
  spawn : Command → HostEvent

-- What a process gives: it cannot be started, or a line of its output cannot be read after some
-- others, or the lines of its two outputs and its exit code, which a signal leaves out.
pub data Output : Type 0 where
  not_started : Str → Output
  broken : List Str → Str → Output
  ended : List Str → List Str → Option ℕ → Output

-- What `run_step` returns: an error, or an outcome with an exit code, `none` for -1.
pub data Returned : Type 0 where
  failed : Str → Returned
  outcome : Option ℕ → Returned

abbrev pub is_success : Option ℕ → Bool
is_success none = false
is_success (some code) = eqb code 0

-- The part of `run_step` behind `cmd.spawn()`, the same for all executors: the lines that were handed
-- on, those of the error output after all others, and what is returned.
abbrev pub collect : Output → List Str × Returned
collect (not_started e) = ([], failed e)
collect (broken lines e) = (lines, failed e)
collect (ended out errs code) = (out ++ errs, outcome code)

-- The command of `JailGuard::drop`.
abbrev pub remove_jail : DailExecutor → StepContext → Command
remove_jail exec ctx = record {
  program = exec.priv_tool;
  args = exec.dail_bin ∷ lit "rm" ∷ jail_name ctx ∷ lit "--force" ∷ [];
  current_dir = [];
  envs = [];
}

abbrev pub env_file_path : Str → StepContext → Str
env_file_path temp_dir ctx = temp_dir ++ b'/' ∷ env_file_name ctx.run_id ctx.step_name

-- What `DailExecutor::run_step` does once the loop of `EnvFile::write` has written what it writes: it
-- stops at an error, before the guard of the file exists, or runs the step.
abbrev pub after_write :
    (Command → Output)
    → Str
    → DailExecutor
    → StepContext
    → Command
    → Option Str
    → List HostEvent × List Str × Returned
after_write spawned env_file exec ctx cmd (some e) =
    (spawn (remove_jail exec ctx) ∷ [], [], failed e)
after_write spawned env_file exec ctx cmd none =
    let (lines, returned) = collect (spawned cmd) in
    (spawn cmd ∷ remove_file env_file ∷ spawn (remove_jail exec ctx) ∷ [], lines, returned)

-- What it does from the opening of the file on.
abbrev pub after_open :
    (Command → Output)
    → TempDir
    → DailExecutor
    → StepContext
    → Option Str
    → List HostEvent × List Str × Returned
after_open spawned temp exec ctx (some e) = (spawn (remove_jail exec ctx) ∷ [], [], failed e)
after_open spawned temp exec ctx none =
    let env_file = env_file_path temp.path ctx in
    let cmd =
      build_dail_command exec.priv_tool exec.dail_bin (jail_name ctx) exec.workspace_mount env_file
        ctx in
    let (text, stopped) = env_lines temp ctx.env in
    let (events, lines, returned) = after_write spawned env_file exec ctx cmd stopped in
    (write_file env_file text ∷ events, lines, returned)

-- `DailExecutor::run_step`: the events in order, the lines, and what is returned. `spawned` is what a
-- command gives. The guard of the jail is there from the start.
unfoldable pub run_dail :
    (Command → Output) → TempDir → DailExecutor → StepContext → List HostEvent × List Str × Returned
run_dail spawned temp exec ctx = after_open spawned temp exec ctx temp.open_error

-- `run_step` of each executor.
unfoldable pub run_step :
    (Command → Output) → TempDir → Executor → StepContext → List HostEvent × List Str × Returned
unfolding run_dail stub_command host_command
run_step spawned temp_dir stub_executor ctx =
    let (lines, returned) = collect (spawned (stub_command ctx)) in
    (spawn (stub_command ctx) ∷ [], lines, returned)
run_step spawned temp_dir host_executor ctx =
    let (lines, returned) = collect (spawned (host_command ctx)) in
    (spawn (host_command ctx) ∷ [], lines, returned)
run_step spawned temp_dir (dail_executor exec) ctx = run_dail spawned temp_dir exec ctx
