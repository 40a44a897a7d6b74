-- ===== src/Agent/Steps.antt =====
-- src/agent/mod.rs: one step, and the loop over the steps. The processes, the file system and the
-- answers of the server and the provider are a `World`; the lines of a step reach the server in
-- bursts that the world cuts.
pub mod Progress
pub mod Masking
use flowz.Prelude.{
  ℕ, Str, lit, Bool, true, false, if◌then◌else◌, List, [], ◌∷◌, ◌++◌, map, flat_map, Option, none,
  some, Result, ok, err,
}
use flowz.Model.{IndexMap, Step, PipelineFile, Run, StepStatus, running, success, failure, skipped}
use flowz.Pipeline.{PipelineError}
use flowz.Secrets.{Pairs, Masker, no_values, mask}
use flowz.Executor.{
  StepContext, ExecutorKind, Executor, host_executor, build, Command, HostEvent, Output, Returned,
  TempDir, failed, outcome, is_success, run_step,
}
use flowz.Agent.Events.{Event, post_logs, post_step_status, host, upload, decimal}
use flowz.Agent.Resolver.{
  SecretsResolver, Loaded, load_wanted, skipped_by_branch, configuration_for,
}
use flowz.Agent.Env.{merged}

pub record AgentConfig : Type 0 where
  pub executor : ExecutorKind
  pub dail_bin : Option Str
  pub priv_tool : Option Str
  pub home_dir : Option Str

pub record CacheMount : Type 0 where
  pub name : Str
  pub path : Str
  pub host_path : Str
  pub restored : Bool

-- A file to upload: its path in the workspace, its size if it can be read, and whether the server
-- takes it.
pub record File : Type 0 where
  pub rel : Option Str
  pub size : Option ℕ
  pub accepted : Bool

-- Why a run stopped without an outcome. A step without exactly one action panics.
pub data Failure : Type 0 where
  bad_workspace bad_read bad_caches bad_secrets : Str → Failure
  bad_pipeline : PipelineError → Failure
  panicked : Failure

pub record World : Type 0 where
  -- `workspace::prepare` and `attach_caches`
  pub prepared : Run → Result Str Str
  pub attached : IndexMap Str → Result Str (Option (List CacheMount))
  -- `.flowz.yaml`, the YAML parser, and the order of a hash map's keys
  pub yaml : Result Str Str
  pub from_str : Str → Result Str PipelineFile
  pub order : List Str → List Str
  pub provider : Str → Str → Result Str Pairs
  pub in_path : Str → Bool
  pub temp_dir : TempDir
  -- what a command gives in a step, and how the lines of a step are cut
  pub spawned : Str → Command → Output
  pub batches : Str → List Str → List (List Str)
  -- the files of an artifact, if it exists
  pub files : Str → Str → Option (List File)
  -- `{e:#}`
  pub describe : Failure → Str

abbrev pub upload_entry : Str → Option Str → Option ℕ → Bool → List Event
upload_entry step none size accepted = []
upload_entry step (some rel) none accepted = []
upload_entry step (some rel) (some size) false = upload step rel ∷ []
upload_entry step (some rel) (some size) true =
    upload step rel
    ∷ post_logs step
        ((lit "↑ artifact " ++ (rel ++ (lit " (" ++ (decimal size ++ lit " bytes)")))) ∷ [])
    ∷ []

abbrev pub upload_file : Str → File → List Event
upload_file step file = upload_entry step file.rel file.size file.accepted

abbrev pub upload_found : Str → Str → Option (List File) → List Event
upload_found step spec none = post_logs step ((lit "⚠ artifact not found: " ++ spec) ∷ []) ∷ []
upload_found step spec (some files) = flat_map (upload_file step) files

unfoldable pub upload_artifacts : World → Str → List Str → List Event
upload_artifacts w step paths = flat_map (λ spec. upload_found step spec (w.files step spec)) paths

abbrev pub exit_text : Option ℕ → Str
exit_text none = lit "-1"
exit_text (some code) = decimal code

abbrev pub marker : Bool → Str
marker succeeded = if succeeded then lit "✓" else lit "✗"

-- What is posted when a step has ended, its status last, and whether it succeeded.
abbrev pub report_outcome : World → Str → Step → Returned → List Event × Bool
report_outcome w name step (failed e) = (
  post_logs name ((lit "✗ executor error: " ++ e) ∷ []) ∷ post_step_status name failure ∷ [],
  false,
)
report_outcome w name step (outcome code) = (
  post_logs name ((marker (is_success code) ++ (lit " exit " ++ exit_text code)) ∷ [])
      ∷ (if is_success code
          then upload_artifacts w name step.artifacts ++ post_step_status name success ∷ []
          else post_step_status name failure ∷ []),
  is_success code,
)

-- The script, and whether it runs on the host.
abbrev pub action : Option Str → Option Str → Option (Str × Bool)
action (some run) none = some (run, false)
action none (some exec) = some (exec, true)
action none none = none
action (some run) (some exec) = none

pub data Ending : Type 0 where
  passed step_failed unreachable : Ending
  gave_up : Str → Ending

abbrev pub masker_of : Option SecretsResolver → Masker
masker_of none = no_values
masker_of (some r) = r.masker

abbrev pub step_context :
    AgentConfig → Run → Str → List (Str × Str) → Str → Pairs → Str → Bool → StepContext
step_context cfg run path cache_mounts name env script is_host_exec = record {
  run_id = run.id;
  step_name = name;
  run_file = script;
  workspace = path;
  env = env;
  home_dir = cfg.home_dir;
  mounts = if is_host_exec then [] else cache_mounts;
}

-- The consumer of the lines: a post for each burst, its lines masked.
abbrev pub consume : World → Masker → Str → List Str → List Event
consume w masker name lines =
    map (λ batch. post_logs name (map (mask masker) batch)) (w.batches name lines)

-- The events of a step that has run.
abbrev pub step_done :
    World → Str → Step → Masker → List HostEvent × List Str × Returned → List Event × Ending
step_done w name step masker (done, lines, returned) =
    let (report, succeeded) = report_outcome w name step returned in
    (
      map (host name) done ++ (consume w masker name lines ++ report),
      if succeeded then passed else step_failed,
    )

abbrev pub executor_for : AgentConfig → World → Bool → Executor
executor_for cfg w is_host_exec =
    if is_host_exec then host_executor else build w.in_path cfg.executor cfg.dail_bin cfg.priv_tool

abbrev pub run_action :
    AgentConfig
    → World
    → Run
    → Str
    → List (Str × Str)
    → Str
    → Step
    → Masker
    → List (Str × Str)
    → Option (Str × Bool)
    → List Event × Ending
run_action cfg w run path cache_mounts name step masker env none = ([], unreachable)
run_action cfg w run path cache_mounts name step masker env (some (script, is_host_exec)) =
    step_done w name step masker (
      run_step (w.spawned name) w.temp_dir (executor_for cfg w is_host_exec)
        (step_context cfg run path cache_mounts name env script is_host_exec))

abbrev pub StepRun : Type 0
StepRun = List Event × Option SecretsResolver × Ending

abbrev pub load_step :
    World
    → PipelineFile
    → Str
    → Step
    → Option SecretsResolver
    → List Event × Option SecretsResolver × Result Str Pairs
load_step w pf branch step none = ([], none, ok [])
load_step w pf branch step (some r) =
    let (events, r', result) =
      load_wanted w.provider r (configuration_for pf step.secrets branch) in
    (events, some r', result)

abbrev pub with_secrets :
    AgentConfig
    → World
    → PipelineFile
    → Run
    → Str
    → List (Str × Str)
    → Str
    → Step
    → List Event × Option SecretsResolver × Result Str Pairs
    → StepRun
with_secrets cfg w pf run path cache_mounts name step (events, r, err e) = (events, r, gave_up e)
with_secrets cfg w pf run path cache_mounts name step (events, r, ok pairs) =
    let (later, ending) =
      run_action cfg w run path cache_mounts name step (masker_of r) (merged pf pairs step)
        (action step.run step.exec) in
    (events ++ later, r, ending)

-- The body of the loop over the steps.
unfoldable pub execute_step :
    AgentConfig
    → World
    → PipelineFile
    → Run
    → Str
    → List (Str × Str)
    → Str
    → Step
    → Option SecretsResolver
    → StepRun
execute_step cfg w pf run path cache_mounts name step r =
    if skipped_by_branch step run.branch
    then (post_step_status name skipped ∷ [], r, passed)
    else let (events, r', ending) =
        with_secrets cfg w pf run path cache_mounts name step (load_step w pf run.branch step r) in
      (post_step_status name running ∷ events, r', ending)

abbrev pub Outcome : Type 0
Outcome = List Event × Result Failure Bool

abbrev pub go_on : (Option SecretsResolver → Outcome) → StepRun → Outcome
go_on rest (events, r, passed) = let (later, result) = rest r in (events ++ later, result)
go_on rest (events, r, step_failed) = (events, ok false)
go_on rest (events, r, gave_up e) = (events, err (bad_secrets e))
go_on rest (events, r, unreachable) = (events, err panicked)

-- The loop over the steps: whether all have succeeded.
unfoldable pub run_steps :
    AgentConfig
    → World
    → PipelineFile
    → Run
    → Str
    → List (Str × Str)
    → IndexMap Step
    → Option SecretsResolver
    → Outcome
unfolding execute_step
run_steps cfg w pf run path cache_mounts [] r = ([], ok true)
run_steps cfg w pf run path cache_mounts ((name, step) ∷ steps) r =
    go_on (run_steps cfg w pf run path cache_mounts steps)
      (execute_step cfg w pf run path cache_mounts name step r)
