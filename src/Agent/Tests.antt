-- ===== src/Agent/Tests.antt =====
-- The theorems on a run at a concrete pipeline.
use flowz.Prelude.{
  contains, starts_with, trim, ◌==◌, first_bytes, utf8_len, Str, lit, Bool, true, [], ◌∷◌, Option,
  none, some, ok, ◌≡◌, refl,
}
use flowz.Model.{SecretsConfig, PipelineFile, Step, Run, queued}
use flowz.Executor.{ended, ExecutorKind}
use flowz.Agent.Resolver.{get, preflight, new_resolver}
use flowz.Agent.Resolver.Once.{fetches, Distinct}
use flowz.Agent.Resolver.Masks.{Masks, preflight-Masks}
use flowz.Agent.Env.{merged}
use flowz.Agent.Env.Priority.{or_else, latest, get-merged}
use flowz.Agent.Steps.{AgentConfig, World, run_steps}
use flowz.Agent.Steps.Progress.{progress, Progress, returned, run_steps-Progress}
use flowz.Agent.Run.{execute_run, authed_run}
use flowz.Agent.Run.Told.{Tells, execute_run-told}
use flowz.Agent.Run.Closed.{Unmapped, execute_run-closed}
use flowz.Pipeline.{
  parse, validate, validate_cache_from, validate_cache, check_secrets, check_action, escapes,
  check_run, check_step,
}
use flowz.Pipeline.Graph.{detect_cycle, visit_all, dfs}
use flowz.Agent.Run.Once.{Foreseen, execute_run-fetches_once}

abbrev config : AgentConfig
config = record { executor = ExecutorKind.dail; dail_bin = none; priv_tool = none; home_dir = none }

abbrev a_step : Step
a_step = record {
  run = some (lit "a.sh");
  exec = none;
  needs = [];
  only = none;
  env = (lit "LEVEL", lit "step") ∷ [];
  secrets = none;
  timeout = none;
  artifacts = lit "out" ∷ [];
}

abbrev section : SecretsConfig
section = record {
  provider = lit "cfgy";
  project = lit "p";
  configurations = (lit "main", lit "prod") ∷ [];
}

abbrev a_file : PipelineFile
a_file = record {
  version = 1;
  triggers = [];
  env = (lit "LEVEL", lit "file") ∷ [];
  secrets = some section;
  cache = [];
  steps = (lit "build", a_step) ∷ (lit "test", a_step) ∷ [];
}

-- Each process succeeds, and its lines come one by one.
abbrev world : World
world = record {
  prepared = λ run. ok (lit "/ws");
  attached = λ cache. ok none;
  yaml = ok (lit "version: 1");
  from_str = λ yaml. ok a_file;
  order = λ ks. ks;
  provider = λ project configuration. ok ((lit "TOKEN", lit "s3cret") ∷ []);
  in_path = λ name. true;
  temp_dir = record { path = lit "/tmp"; open_error = none; write_error = λ line. none };
  spawned = λ step command. ended (lit "s3cret" ∷ []) [] (some 0);
  batches = λ step lines. lines ∷ [];
  files = λ step spec. none;
  describe = λ e. lit "failed";
}

abbrev a_run : Run
a_run = record {
  id = lit "0123";
  repo = lit "o/r";
  branch = lit "main";
  commit = lit "c";
  clone_url = lit "https://forge/o/r";
  status = queued;
  created_at = 1;
  updated_at = 1;
}

abbrev token : Option Str
token = some (lit "t0ken")

execute_run-told_example :
    Tells token (world.prepared (authed_run a_run token)) (execute_run config world a_run token)
execute_run-told_example = execute_run-told config world a_run token

short_commit : first_bytes 12 a_run.commit ≡ some (lit "c")
unfolding utf8_len
short_commit = refl

execute_run-fetches_once_example :
    Foreseen (execute_run config world a_run token).1
    × Distinct (fetches (execute_run config world a_run token).0)
execute_run-fetches_once_example =
    execute_run-fetches_once config world a_run token (λ ks k m. m) short_commit

run_steps-Progress_example :
    (result : Bool) × ((run_steps config world a_file a_run (lit "/ws") [] a_file.steps none).1
      ≡ ok result)
    × Progress a_run.branch
        (returned config world a_file a_run (lit "/ws") [] none)
        a_file.steps
        (progress (run_steps config world a_file a_run (lit "/ws") [] a_file.steps none).0)
        result
run_steps-Progress_example =
    run_steps-Progress config world a_file a_run (lit "/ws") [] a_file.steps none (tt, (tt, tt))
      (tt, (tt, tt))

get-merged_example :
    get (merged a_file ((lit "LEVEL", lit "secret") ∷ []) a_step) (lit "LEVEL")
    ≡ or_else (latest a_step.env (lit "LEVEL")) (
        or_else
          (latest ((lit "LEVEL", lit "secret") ∷ []) (lit "LEVEL"))
          (get a_file.env (lit "LEVEL")))
get-merged_example = get-merged a_file ((lit "LEVEL", lit "secret") ∷ []) a_step (lit "LEVEL")

abbrev on_feature : Run
on_feature = record a_run { branch = lit "feature" }

unmapped_branch : get section.configurations (lit "feature") ≡ none
unfolding get ◌==◌
unmapped_branch = refl

feature_closed : Unmapped a_file on_feature.branch
feature_closed = record {
  section = section;
  has = refl;
  unmapped = unmapped_branch;
  plain = (refl, (refl, tt));
}

parsed : parse world.from_str world.order (lit "version: 1") ≡ ok a_file
unfolding parse validate validate_cache_from validate_cache check_secrets check_action escapes
    check_run check_step detect_cycle visit_all dfs ◌==◌ contains starts_with trim
parsed = refl

execute_run-closed_example : fetches (execute_run config world on_feature token).0 ≡ []
execute_run-closed_example =
    execute_run-closed config world on_feature token (lit "version: 1") a_file (λ ks k m. m) refl
      parsed feature_closed

preflight-Masks_example :
    Masks (preflight world.provider a_file (lit "main") a_file.steps (new_resolver section)).1
preflight-Masks_example = preflight-Masks world.provider a_file (lit "main") a_file.steps section
