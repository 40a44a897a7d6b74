-- ===== src/Agent/Run/Told.antt =====
-- What the server, the forge and the workspace are told at the end of a run.
use flowz.Prelude.{
  Str, lit, Bool, false, List, [], ◌∷◌, ◌++◌, Option, none, some, Result, ok, err, ◌≡◌, refl, ap,
  ◌∙◌, true, subst, first_bytes,
}
use flowz.Model.{IndexMap, SecretsConfig, PipelineFile, Run, RunStatus, StepStatus}
use flowz.Pipeline.{PipelineError, parse}
use flowz.Agent.Events.{
  Event, prepare, finish, post_run_status, post_step_status, post_commit_status, post_logs,
}
use flowz.Agent.Resolver.{SecretsResolver, new_resolver, Preflight, preflight}
use flowz.Agent.Steps.{
  AgentConfig, World, CacheMount, Failure, bad_workspace, bad_read, bad_caches, bad_secrets,
  bad_pipeline, panicked, Outcome, run_steps,
}
use flowz.Agent.Run.{
  cache_mounts, mounted, commit_status, run_status, report_run, after_preflight, resolve,
  with_mounts, with_pipeline, with_yaml, do_execute, conclude, with_workspace, execute_run,
  authed_run, greeting,
}
use flowz.Agent.Run.Verdicts.{is_verdict, verdicts, quiet-run_steps, quiet-preflight}
use flowz.Agent.Events.Status.{
  later, later-none, last_status, last_status-behind, last_status-before,
}
use flowz.Agent.Events.Kept.{keep-append, keep-after}

-- The verdicts of `do_execute`: none where it fails.
abbrev pub reported : Option Str → Result Failure Bool → List Event
reported token (ok success) = post_run_status (run_status success) ∷ commit_status token success
reported token (err e) = []

-- Those of a run, by whether its workspace was made and by what it returns.
abbrev pub told : Option Str → Result Str Str → Result Failure Bool → List Event
told token (err e) result = post_run_status RunStatus.failure ∷ []
told none (ok path) (ok true) = post_run_status RunStatus.success ∷ finish true ∷ []
told none (ok path) (ok false) = post_run_status RunStatus.failure ∷ finish false ∷ []
told (some t) (ok path) (ok true) =
    post_run_status RunStatus.success ∷ post_commit_status t true ∷ finish true ∷ []
told (some t) (ok path) (ok false) =
    post_run_status RunStatus.failure ∷ post_commit_status t false ∷ finish false ∷ []
told token (ok path) (err panicked) = []
told token (ok path) (err e) = post_run_status RunStatus.failure ∷ finish false ∷ []

-- Such a status is the failure that a run ends with, or its success; a panic leaves it open.
abbrev pub Settles : Result Str Str → Result Failure Bool → Option RunStatus → Type 0
Settles (err e) result status = status ≡ some RunStatus.failure
Settles (ok path) (ok true) status = status ≡ some RunStatus.success
Settles (ok path) (ok false) status = status ≡ some RunStatus.failure
Settles (ok path) (err panicked) status = Unit
Settles (ok path) (err e) status = status ≡ some RunStatus.failure

abbrev Shows : Outcome → Type 0
Shows (events, ok success) = last_status events ≡ some (run_status success)
Shows (events, err e) = Unit

-- The verdicts, and the status that the posts leave.
abbrev Reports : Option Str → Outcome → Type 0
Reports token o = (verdicts o.0 ≡ reported token o.1) × Shows o

commit_status-last :
    (token : Option Str) (success : Bool) → last_status (commit_status token success) ≡ none
commit_status-last none success = refl
commit_status-last (some token) success = refl

run_status-last :
    (token : Option Str) (success : Bool)
    → last_status (post_run_status (run_status success) ∷ commit_status token success)
      ≡ some (run_status success)
run_status-last token success =
    ap (λ o. later o (some (run_status success))) (commit_status-last token success)

commit_status-verdicts :
    (token : Option Str) (success : Bool)
    → verdicts (commit_status token success) ≡ commit_status token success
commit_status-verdicts none success = refl
commit_status-verdicts (some token) success = refl

told_all :
    (token : Option Str) (path : Str) (success : Bool)
    → post_run_status (run_status success) ∷ (commit_status token success ++ finish success ∷ [])
      ≡ told token (ok path) (ok success)
told_all none path true = refl
told_all none path false = refl
told_all (some t) path true = refl
told_all (some t) path false = refl

told_after :
    (token : Option Str) (path : Str) (success : Bool) (es : List Event)
    → verdicts es ≡ post_run_status (run_status success) ∷ commit_status token success
    → verdicts (es ++ finish success ∷ []) ≡ told token (ok path) (ok success)
told_after token path success es h =
    rw (keep-append is_verdict es (finish success ∷ []), h) (told_all token path success)

settled :
    (path : Str) (success : Bool) (o : Option RunStatus)
    → o ≡ some (run_status success)
    → Settles (ok path) (ok success) o
settled path true o h = h
settled path false o h = h

report_run-Reports :
    (token : Option Str) (o : Outcome) → verdicts o.0 ≡ [] → Reports token (report_run token o)
report_run-Reports token (events, ok success) h = (
  keep-after is_verdict events _ h
      ∙ ap (λ es. post_run_status (run_status success) ∷ es) (commit_status-verdicts token success),
  last_status-behind events _ (run_status-last token success),
)
report_run-Reports token (events, err e) h = (h, tt)

-- Events without a verdict may stand before.
Reports-after :
    (token : Option Str) (es : List Event) (o : Outcome)
    → verdicts es ≡ []
    → Reports token o
    → Reports token (es ++ o.0, o.1)
Reports-after token es (events, ok success) h (k, shows) =
    (keep-after is_verdict es events h ∙ k, last_status-behind es events shows)
Reports-after token es (events, err e) h (k, shows) = (keep-after is_verdict es events h ∙ k, tt)

after_preflight-Reports :
    (token : Option Str) (rest : Option SecretsResolver → Outcome)
    → ((r : Option SecretsResolver) → verdicts (rest r).0 ≡ [])
    → (p : Preflight) → verdicts p.0 ≡ []
    → Reports token (after_preflight token rest p)
after_preflight-Reports token rest k (events, r, none) h =
    Reports-after token events (report_run token (rest (some r))) h
      (report_run-Reports token (rest (some r)) (k (some r)))
after_preflight-Reports token rest k (events, r, some (name, e)) h = (
  keep-after is_verdict events _ h
      ∙ ap (λ es. post_run_status RunStatus.failure ∷ es) (commit_status-verdicts token false),
  last_status-behind events _ (
      last_status-behind
        (post_step_status name StepStatus.running
          ∷ post_logs name ((lit "✗ " ++ e) ∷ [])
          ∷ post_step_status name StepStatus.failure
          ∷ [])
        (post_run_status (run_status false) ∷ commit_status token false)
        (run_status-last token false)),
)

module _ (cfg : AgentConfig) (w : World) (run : Run) (path : Str) (token : Option Str) where
  resolve-Reports :
      (pf : PipelineFile) (mounts : List (Str × Str)) (secrets : Option SecretsConfig)
      → Reports token (resolve w pf run token (run_steps cfg w pf run path mounts pf.steps) secrets)
  resolve-Reports pf mounts none =
      report_run-Reports token (run_steps cfg w pf run path mounts pf.steps none)
        (quiet-run_steps cfg w pf run path mounts pf.steps none)
  resolve-Reports pf mounts (some sc) =
      after_preflight-Reports token (run_steps cfg w pf run path mounts pf.steps)
        (quiet-run_steps cfg w pf run path mounts pf.steps)
        (preflight w.provider pf run.branch pf.steps (new_resolver sc))
        (quiet-preflight w.provider pf run.branch pf.steps (new_resolver sc))

  with_mounts-Reports :
      (pf : PipelineFile) (m : List Event × Result Failure (List (Str × Str)))
      → verdicts m.0 ≡ []
      → Reports token (with_mounts cfg w pf run path token m)
  with_mounts-Reports pf (events, err e) h = (h, tt)
  with_mounts-Reports pf (events, ok mounts) h =
      Reports-after token events
        (resolve w pf run token (run_steps cfg w pf run path mounts pf.steps) pf.secrets) h
        (resolve-Reports pf mounts pf.secrets)

quiet-mounted : (m : Result Str (Option (List CacheMount))) → verdicts (mounted m).0 ≡ []
quiet-mounted (err e) = refl
quiet-mounted (ok none) = refl
quiet-mounted (ok (some caches)) = refl

quiet-cache_mounts : (w : World) (cache : IndexMap Str) → verdicts (cache_mounts w cache).0 ≡ []
quiet-cache_mounts w [] = refl
quiet-cache_mounts w (c ∷ cache) = quiet-mounted (w.attached (c ∷ cache))

with_pipeline-Reports :
    (cfg : AgentConfig) (w : World) (run : Run) (path : Str) (token : Option Str)
    (parsed : Result PipelineError PipelineFile)
    → Reports token (with_pipeline cfg w run path token parsed)
with_pipeline-Reports cfg w run path token (err e) = (refl, tt)
with_pipeline-Reports cfg w run path token (ok pf) =
    with_mounts-Reports cfg w run path token pf (cache_mounts w pf.cache)
      (quiet-cache_mounts w pf.cache)

with_yaml-Reports :
    (cfg : AgentConfig) (w : World) (run : Run) (path : Str) (token : Option Str)
    (yaml : Result Str Str)
    → Reports token (with_yaml cfg w run path token yaml)
with_yaml-Reports cfg w run path token (err e) = (refl, tt)
with_yaml-Reports cfg w run path token (ok yaml) =
    with_pipeline-Reports cfg w run path token (parse w.from_str w.order yaml)

-- The verdicts among the events, and the status that the posts of a run leave.
abbrev pub Tells : Option Str → Result Str Str → Outcome → Type 0
Tells token prepared o =
    (verdicts o.0 ≡ told token prepared o.1) × Settles prepared o.1 (last_status o.0)

conclude-told :
    (w : World) (token : Option Str) (path : Str) (o : Outcome)
    → Reports token o
    → Tells token (ok path) (conclude w o)
conclude-told w token path (events, ok success) (h, shows) = (
  told_after token path success events h,
  settled path success _ (last_status-before events (finish success ∷ []) refl ∙ shows),
)
conclude-told w token path (events, err panicked) h = h
conclude-told w token path (events, err (bad_workspace e)) (h, shows) =
    (keep-after is_verdict events _ h, last_status-behind events _ refl)
conclude-told w token path (events, err (bad_read e)) (h, shows) =
    (keep-after is_verdict events _ h, last_status-behind events _ refl)
conclude-told w token path (events, err (bad_caches e)) (h, shows) =
    (keep-after is_verdict events _ h, last_status-behind events _ refl)
conclude-told w token path (events, err (bad_secrets e)) (h, shows) =
    (keep-after is_verdict events _ h, last_status-behind events _ refl)
conclude-told w token path (events, err (bad_pipeline e)) (h, shows) =
    (keep-after is_verdict events _ h, last_status-behind events _ refl)

with_workspace-told :
    (cfg : AgentConfig) (w : World) (run : Run) (token : Option Str) (prepared : Result Str Str)
    → Tells token prepared (with_workspace cfg w run token prepared)
unfolding do_execute
with_workspace-told cfg w run token (err e) = (refl, refl)
with_workspace-told cfg w run token (ok path) =
    greeted (first_bytes 12 run.commit) (conclude w (do_execute cfg w run path token)) (
      conclude-told w token path (do_execute cfg w run path token)
        (with_yaml-Reports cfg w run path token w.yaml))
  where
    greeted :
        (commit : Option Str) (o : Outcome)
        → Tells token (ok path) o
        → Tells token
            (ok path)
            (let (events, result) = greeting run path commit o in (prepare ∷ events, result))
    greeted none o h = (refl, tt)
    greeted (some commit) (events, result) (h, settles) = (
      h,
      subst (Settles (ok path) result)
          (later-none (last_status events) ∙ later-none (later (last_status events) none)) settles,
    )

-- The verdicts among the events of a run, in order. If the workspace cannot be made: that the run has
-- failed. If the run ends with an outcome: its status, the status of the commit where there is a
-- token, and the end of the workspace, all with this outcome. If it ends with an error: that it has
-- failed, and the end of the workspace as of a failure. A panic, which ends the agent, tells nothing.
-- And unless it panics, the last of all its posts of a status, those about a step counted, gives the run
-- the status that it ended with: success for an outcome of success, failure otherwise.
pub execute_run-told :
    (cfg : AgentConfig) (w : World) (run : Run) (token : Option Str)
    → Tells token (w.prepared (authed_run run token)) (execute_run cfg w run token)
unfolding execute_run
execute_run-told cfg w run token =
    with_workspace-told cfg w (authed_run run token) token (w.prepared (authed_run run token))
