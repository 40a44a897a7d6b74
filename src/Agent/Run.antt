-- ===== src/Agent/Run.antt =====
-- src/agent/mod.rs: a run from the workspace to its last status.
pub mod Verdicts
pub mod Told
pub mod Once
pub mod Closed
use flowz.Prelude.{
  Str, lit, strip_prefix, Bool, true, false, if◌then◌else◌, List, [], ◌∷◌, ◌++◌, map, first_bytes,
  Option, none, some, Result, ok, err,
}
use flowz.Model.{IndexMap, SecretsConfig, PipelineFile, Run, StepStatus, RunStatus}
use flowz.Pipeline.{PipelineError, parse}
use flowz.Agent.Events.{
  Event, prepare, attach_caches, finish, post_logs, post_step_status, post_run_status,
  post_commit_status,
}
use flowz.Agent.Resolver.{SecretsResolver, new_resolver, Preflight, preflight}
use flowz.Agent.Steps.{
  AgentConfig, World, CacheMount, Failure, bad_workspace, bad_read, bad_caches, bad_pipeline,
  panicked, Outcome, run_steps,
}

abbrev pub with_token : Str → Run → Option Str → Run
with_token token run none = run
with_token token run (some rest) = record run {
  clone_url = lit "https://" ++ (token ++ b'@' ∷ rest);
}

-- `authed_run`
unfoldable pub authed_run : Run → Option Str → Run
authed_run run none = run
authed_run run (some token) = with_token token run (strip_prefix run.clone_url (lit "https://"))

abbrev pub cache_line : CacheMount → Str
cache_line c =
    lit "cache: "
    ++ (c.name
        ++ (lit " ("
            ++ (c.path ++ (lit ") " ++ (if c.restored then lit "restored" else lit "empty")))))

abbrev pub mounted :
    Result Str (Option (List CacheMount)) → List Event × Result Failure (List (Str × Str))
mounted (err e) = ([], err (bad_caches e))
mounted (ok none) = (
  post_logs (lit "agent") (lit "cache: not supported by the dir workspace backend, ignored" ∷ [])
      ∷ [],
  ok [],
)
mounted (ok (some caches)) = (
  post_logs (lit "agent") (map cache_line caches) ∷ [],
  ok (map (λ c. (c.host_path, c.path)) caches),
)

-- `cache_mounts`
abbrev pub cache_mounts : World → IndexMap Str → List Event × Result Failure (List (Str × Str))
cache_mounts w [] = ([], ok [])
cache_mounts w (c ∷ cache) =
    let (events, mounts) = mounted (w.attached (c ∷ cache)) in (attach_caches ∷ events, mounts)

abbrev pub commit_status : Option Str → Bool → List Event
commit_status none success = []
commit_status (some token) success = post_commit_status token success ∷ []

abbrev pub run_status : Bool → RunStatus
run_status success = if success then RunStatus.success else RunStatus.failure

-- The end of `do_execute`, behind the loop over the steps.
abbrev pub report_run : Option Str → Outcome → Outcome
report_run token (events, ok success) =
    (events ++ post_run_status (run_status success) ∷ commit_status token success, ok success)
report_run token (events, err e) = (events, err e)

-- What the preflight loop returns from `do_execute`, or what follows it.
abbrev pub after_preflight : Option Str → (Option SecretsResolver → Outcome) → Preflight → Outcome
after_preflight token rest (events, r, none) =
    let (later, result) = report_run token (rest (some r)) in (events ++ later, result)
after_preflight token rest (events, r, some (name, e)) = (
  events
      ++ post_step_status name StepStatus.running
        ∷ post_logs name ((lit "✗ " ++ e) ∷ [])
        ∷ post_step_status name StepStatus.failure
        ∷ post_run_status RunStatus.failure
        ∷ commit_status token false,
  ok false,
)

abbrev pub resolve :
    World
    → PipelineFile
    → Run
    → Option Str
    → (Option SecretsResolver → Outcome)
    → Option SecretsConfig
    → Outcome
resolve w pf run token rest none = report_run token (rest none)
resolve w pf run token rest (some sc) =
    after_preflight token rest (preflight w.provider pf run.branch pf.steps (new_resolver sc))

-- `do_execute` behind `attach_caches`.
abbrev pub with_mounts :
    AgentConfig
    → World
    → PipelineFile
    → Run
    → Str
    → Option Str
    → List Event × Result Failure (List (Str × Str))
    → Outcome
with_mounts cfg w pf run path token (events, err e) = (events, err e)
with_mounts cfg w pf run path token (events, ok mounts) =
    let (later, result) =
      resolve w pf run token (run_steps cfg w pf run path mounts pf.steps) pf.secrets in
    (events ++ later, result)

abbrev pub with_pipeline :
    AgentConfig → World → Run → Str → Option Str → Result PipelineError PipelineFile → Outcome
with_pipeline cfg w run path token (err e) = ([], err (bad_pipeline e))
with_pipeline cfg w run path token (ok pf) =
    with_mounts cfg w pf run path token (cache_mounts w pf.cache)

abbrev pub with_yaml : AgentConfig → World → Run → Str → Option Str → Result Str Str → Outcome
with_yaml cfg w run path token (err e) = ([], err (bad_read e))
with_yaml cfg w run path token (ok yaml) =
    with_pipeline cfg w run path token (parse w.from_str w.order yaml)

unfoldable pub do_execute : AgentConfig → World → Run → Str → Option Str → Outcome
unfolding run_steps preflight
do_execute cfg w run path token = with_yaml cfg w run path token w.yaml

abbrev pub report_error : World → Failure → List Event
report_error w e =
    post_logs (lit "agent") ((lit "error: " ++ w.describe e) ∷ [])
    ∷ post_run_status RunStatus.failure
    ∷ []

-- The end of `execute_run`. A panic ends the agent.
abbrev pub conclude : World → Outcome → Outcome
conclude w (events, ok success) = (events ++ finish success ∷ [], ok success)
conclude w (events, err panicked) = (events, err panicked)
conclude w (events, err e) = (events ++ (report_error w e ++ finish false ∷ []), err e)

-- The first log of a run, with the short commit, and what follows it. Cutting the commit panics inside of
-- a character.
abbrev pub greeting : Run → Str → Option Str → Outcome → Outcome
greeting run path none rest = ([], err panicked)
greeting run path (some commit) (events, result) = (
  post_logs (lit "agent")
        ((lit "cloned " ++ (run.repo ++ (lit " @ " ++ commit))) ∷ (lit "workspace: " ++ path) ∷ [])
      ∷ events,
  result,
)

-- `execute_run` from what `workspace::prepare` gives.
abbrev pub with_workspace : AgentConfig → World → Run → Option Str → Result Str Str → Outcome
with_workspace cfg w run token (err e) =
    (prepare ∷ report_error w (bad_workspace e), err (bad_workspace e))
with_workspace cfg w run token (ok path) =
    let (events, result) =
      greeting run path (first_bytes 12 run.commit)
        (conclude w (do_execute cfg w run path token)) in
    (prepare ∷ events, result)

unfoldable pub execute_run : AgentConfig → World → Run → Option Str → Outcome
unfolding authed_run do_execute
execute_run cfg w run token =
    let run' = authed_run run token in with_workspace cfg w run' token (w.prepared run')
