-- ===== src/Agent/Run/Once.antt =====
-- A run ends with an outcome or an error that the code foresees, and fetches each configuration once.
use flowz.Prelude.{
  append_nil, first_bytes, strip_prefix, Str, lit, Bool, false, List, [], ◌∷◌, ◌++◌, map, All,
  Option, none, some, Result, ok, err, ◌≡◌, refl, ap, ◌∙◌, sym,
}
use flowz.Model.{IndexMap, SecretsConfig, PipelineFile, Step, Run, RunStatus, StepStatus}
use flowz.Pipeline.{PipelineError, parse}
use flowz.Pipeline.Valid.{OneAction, ValidStep, IsValid}
use flowz.Pipeline.Graph.Correct.{Yields}
use flowz.Pipeline.Valid.File.{parse-IsValid}
use flowz.Agent.Events.{
  Event, post_body, prepare, attach_caches, finish, fetch, post_logs, post_step_status,
  post_run_status, post_commit_status, host, upload,
}
use flowz.Agent.Resolver.{SecretsResolver, new_resolver, Preflight, preflight}
use flowz.Agent.Resolver.Once.{fetches, Distinct, Ready, preflight-Ready}
use flowz.Agent.Steps.{
  AgentConfig, World, CacheMount, Failure, bad_workspace, bad_read, bad_caches, bad_secrets,
  bad_pipeline, panicked, Outcome, run_steps,
}
use flowz.Agent.Steps.Progress.{
  progress, Progress, all_done, skip, pass, stop, Known, run_steps-Progress, returned,
}
use flowz.Executor.{Returned}
use flowz.Agent.Run.{
  cache_mounts, mounted, commit_status, report_run, after_preflight, resolve, with_mounts,
  with_pipeline, with_yaml, do_execute, conclude, with_workspace, execute_run, authed_run,
  with_token, run_status, report_error,
}

-- An outcome, or an error of the workspace, the file or the caches: never one of the secrets behind
-- the preflight loop, and no panic.
abbrev pub Foreseen : Result Failure Bool → Type 0
Foreseen (ok success) = Unit
Foreseen (err panicked) = ⊥
Foreseen (err (bad_secrets e)) = ⊥
Foreseen (err _) = Unit

abbrev pub Clean : Outcome → Type 0
Clean o = Foreseen o.1 × Distinct (fetches o.0)

pub fetches-append : (es ds : List Event) → fetches (es ++ ds) ≡ fetches es ++ fetches ds
fetches-append [] ds = refl
fetches-append (fetch c ∷ es) ds = ap (λ cs. c ∷ cs) (fetches-append es ds)
fetches-append (prepare ∷ es) ds = fetches-append es ds
fetches-append (attach_caches ∷ es) ds = fetches-append es ds
fetches-append (finish b ∷ es) ds = fetches-append es ds
fetches-append (post_logs n ls ∷ es) ds = fetches-append es ds
fetches-append (post_body st x ∷ es) ds = fetches-append es ds
fetches-append (post_commit_status t b ∷ es) ds = fetches-append es ds
fetches-append (host n e ∷ es) ds = fetches-append es ds
fetches-append (upload n f ∷ es) ds = fetches-append es ds

fetches-progress : (es : List Event) → fetches (progress es) ≡ fetches es
fetches-progress [] = refl
fetches-progress (fetch c ∷ es) = ap (λ cs. c ∷ cs) (fetches-progress es)
fetches-progress (prepare ∷ es) = fetches-progress es
fetches-progress (attach_caches ∷ es) = fetches-progress es
fetches-progress (finish b ∷ es) = fetches-progress es
fetches-progress (post_logs n ls ∷ es) = fetches-progress es
fetches-progress (post_body st (some x) ∷ es) = fetches-progress es
fetches-progress (post_body st none ∷ es) = fetches-progress es
fetches-progress (post_commit_status t b ∷ es) = fetches-progress es
fetches-progress (host n e ∷ es) = fetches-progress es
fetches-progress (upload n f ∷ es) = fetches-progress es

Progress-fetches :
    (branch : Str) (ran : Str → Step → Returned) {steps : IndexMap Step} {es : List Event}
    {result : Bool}
    → Progress branch ran steps es result
    → fetches es ≡ []
Progress-fetches branch ran all_done = refl
Progress-fetches branch ran (skip on p) = Progress-fetches branch ran p
Progress-fetches branch ran (pass off d p) = Progress-fetches branch ran p
Progress-fetches branch ran (stop off d) = refl

-- Events that fetch nothing may stand before and behind.
Clean-after : (es : List Event) (o : Outcome) → fetches es ≡ [] → Clean o → Clean (es ++ o.0, o.1)
Clean-after es o h (foreseen, distinct) = (foreseen, rw (fetches-append es o.0, h) distinct)

pub fetches-before : (es ds : List Event) → fetches ds ≡ [] → fetches (es ++ ds) ≡ fetches es
fetches-before es ds h = rw (fetches-append es ds, h) (append_nil (fetches es))

commit_status-fetches :
    (token : Option Str) (success : Bool) → fetches (commit_status token success) ≡ []
commit_status-fetches none success = refl
commit_status-fetches (some token) success = refl

-- The loop over the steps, as `run_steps-Progress` describes it.
abbrev pub Silent : Outcome → Type 0
Silent o = (result : Bool) × (o.1 ≡ ok result) × (fetches o.0 ≡ [])

pub report_run-Silent : (token : Option Str) (o : Outcome) → Silent o → Silent (report_run token o)
report_run-Silent token (events, ok success) (result, e, h) = (
  success,
  refl,
  fetches-before events (post_run_status (run_status success) ∷ commit_status token success)
        (commit_status-fetches token success)
      ∙ h,
)
report_run-Silent token (events, err x) (result, e, h) = absurd (cc e)

Silent-Clean :
    (es : List Event) (o : Outcome) → Distinct (fetches es) → Silent o → Clean (es ++ o.0, o.1)
Silent-Clean es (events, ok success) d (result, e, h) = (tt, rw (fetches-before es events h) d)
Silent-Clean es (events, err x) d (result, e, h) = absurd (cc e)

module _ (cfg : AgentConfig) (w : World) (run : Run) (path : Str) (token : Option Str)
    (pf : PipelineFile) (valid : IsValid pf) (mounts : List (Str × Str)) where
  ones :
      (steps : IndexMap Step) (names : List Str) (given : Bool)
      → All (λ e. ValidStep names given e.1) steps
      → All (λ e. OneAction e.1.run e.1.exec) steps
  ones [] names given h = tt
  ones (e ∷ steps) names given h = (h.0.one_action, ones steps names given h.1)

  nothing_to_know : (steps : IndexMap Step) → All (λ e. Known pf run.branch none e.1) steps
  nothing_to_know [] = tt
  nothing_to_know (e ∷ steps) = (tt, nothing_to_know steps)

  pub run_steps-Silent :
      (r : Option SecretsResolver)
      → All (λ e. Known pf run.branch r e.1) pf.steps
      → Silent (run_steps cfg w pf run path mounts pf.steps r)
  run_steps-Silent r known =
      let (result, e, p) =
        run_steps-Progress cfg w pf run path mounts pf.steps r (ones pf.steps _ _ valid.valid_steps)
          known in
      (
        result,
        e,
        sym (fetches-progress (run_steps cfg w pf run path mounts pf.steps r).0)
            ∙ Progress-fetches run.branch (returned cfg w pf run path mounts r) p,
      )

  after_preflight-Clean :
      (r : SecretsResolver) (p : Preflight)
      → Ready pf run.branch pf.steps r p
      → Clean (after_preflight token (run_steps cfg w pf run path mounts pf.steps) p)
  after_preflight-Clean r (events, r', none) ready =
      Silent-Clean events (report_run token (run_steps cfg w pf run path mounts pf.steps (some r')))
        ready.fresh.1 (report_run-Silent token _ (run_steps-Silent (some r') (ready.ready refl)))
  after_preflight-Clean r (events, r', some (name, e)) ready = (
    tt,
    rw
        (fetches-before events
          (post_step_status name StepStatus.running
            ∷ post_logs name ((lit "✗ " ++ e) ∷ [])
            ∷ post_step_status name StepStatus.failure
            ∷ post_run_status RunStatus.failure
            ∷ commit_status token false)
          (commit_status-fetches token false))
        ready.fresh.1,
  )

  resolve-Clean :
      (secrets : Option SecretsConfig)
      → Clean (resolve w pf run token (run_steps cfg w pf run path mounts pf.steps) secrets)
  resolve-Clean none =
      Silent-Clean [] (report_run token (run_steps cfg w pf run path mounts pf.steps none)) tt
        (report_run-Silent token _ (run_steps-Silent none (nothing_to_know pf.steps)))
  resolve-Clean (some sc) =
      after_preflight-Clean (new_resolver sc)
        (preflight w.provider pf run.branch pf.steps (new_resolver sc))
        (preflight-Ready w.provider pf run.branch pf.steps (new_resolver sc))

pub mounted-fetches : (m : Result Str (Option (List CacheMount))) → fetches (mounted m).0 ≡ []
mounted-fetches (err e) = refl
mounted-fetches (ok none) = refl
mounted-fetches (ok (some caches)) = refl

module _ (cfg : AgentConfig) (w : World) (run : Run) (path : Str) (token : Option Str) where
  mounted-Clean :
      (pf : PipelineFile) (es : List Event)
      → fetches es ≡ []
      → IsValid pf
      → (m : Result Str (Option (List CacheMount)))
      → Clean (with_mounts cfg w pf run path token (es ++ (mounted m).0, (mounted m).1))
  mounted-Clean pf es h valid (err e) = (tt, rw (fetches-before es [] refl, h) tt)
  mounted-Clean pf es h valid (ok none) =
      Clean-after (es ++ (mounted (ok none)).0)
        (resolve w pf run token (run_steps cfg w pf run path [] pf.steps) pf.secrets)
        (fetches-before es (mounted (ok none)).0 refl ∙ h)
        (resolve-Clean cfg w run path token pf valid [] pf.secrets)
  mounted-Clean pf es h valid (ok (some caches)) =
      let mounts = map (λ c. (c.host_path, c.path)) caches in
      Clean-after (es ++ (mounted (ok (some caches))).0)
        (resolve w pf run token (run_steps cfg w pf run path mounts pf.steps) pf.secrets)
        (fetches-before es (mounted (ok (some caches))).0 refl ∙ h)
        (resolve-Clean cfg w run path token pf valid mounts pf.secrets)

  cache_mounts-Clean :
      (pf : PipelineFile)
      → IsValid pf
      → (cache : IndexMap Str) → Clean (with_mounts cfg w pf run path token (cache_mounts w cache))
  cache_mounts-Clean pf valid [] = resolve-Clean cfg w run path token pf valid [] pf.secrets
  cache_mounts-Clean pf valid (c ∷ cache) =
      mounted-Clean pf (attach_caches ∷ []) refl valid (w.attached (c ∷ cache))

  with_pipeline-Clean :
      (parsed : Result PipelineError PipelineFile)
      → ((pf : PipelineFile) → parsed ≡ ok pf → IsValid pf)
      → Clean (with_pipeline cfg w run path token parsed)
  with_pipeline-Clean (err e) valid = (tt, tt)
  with_pipeline-Clean (ok pf) valid = cache_mounts-Clean pf (valid pf refl) pf.cache

  with_yaml-Clean :
      Yields w.order → (yaml : Result Str Str) → Clean (with_yaml cfg w run path token yaml)
  with_yaml-Clean yields (err e) = (tt, tt)
  with_yaml-Clean yields (ok yaml) =
      with_pipeline-Clean (parse w.from_str w.order yaml)
        (λ pf e. ((parse-IsValid w.from_str w.order yields yaml pf).0 e).1)

conclude-Clean : (w : World) (o : Outcome) → Clean o → Clean (conclude w o)
conclude-Clean w (events, ok success) (h, d) =
    (tt, rw (fetches-before events (finish success ∷ []) refl) d)
conclude-Clean w (events, err panicked) (h, d) = absurd h
conclude-Clean w (events, err (bad_secrets e)) (h, d) = absurd h
conclude-Clean w (events, err (bad_workspace e)) (h, d) =
    (tt, rw (fetches-before events (report_error w (bad_workspace e) ++ finish false ∷ []) refl) d)
conclude-Clean w (events, err (bad_read e)) (h, d) =
    (tt, rw (fetches-before events (report_error w (bad_read e) ++ finish false ∷ []) refl) d)
conclude-Clean w (events, err (bad_caches e)) (h, d) =
    (tt, rw (fetches-before events (report_error w (bad_caches e) ++ finish false ∷ []) refl) d)
conclude-Clean w (events, err (bad_pipeline e)) (h, d) =
    (tt, rw (fetches-before events (report_error w (bad_pipeline e) ++ finish false ∷ []) refl) d)

with_workspace-Clean :
    (cfg : AgentConfig) (w : World) (run : Run) (token : Option Str)
    → Yields w.order
    → {short : Str} → first_bytes 12 run.commit ≡ some short
    → (prepared : Result Str Str) → Clean (with_workspace cfg w run token prepared)
unfolding do_execute
with_workspace-Clean cfg w run token yields cut (err e) = (tt, tt)
with_workspace-Clean cfg w run token yields cut (ok path) = rw cut (
    conclude-Clean w (do_execute cfg w run path token)
      (with_yaml-Clean cfg w run path token yields w.yaml))

authed_run-commit : (run : Run) (token : Option Str) → (authed_run run token).commit ≡ run.commit
unfolding authed_run
authed_run-commit run none = refl
authed_run-commit run (some token) = kept (strip_prefix run.clone_url (lit "https://"))
  where
    kept : (rest : Option Str) → (with_token token run rest).commit ≡ run.commit
    kept none = refl
    kept (some rest) = refl

pub authed_run-branch :
    (run : Run) (token : Option Str) → (authed_run run token).branch ≡ run.branch
unfolding authed_run
authed_run-branch run none = refl
authed_run-branch run (some token) = kept (strip_prefix run.clone_url (lit "https://"))
  where
    kept : (rest : Option Str) → (with_token token run rest).branch ≡ run.branch
    kept none = refl
    kept (some rest) = refl

-- If the hash map of the search for cycles yields each of its keys, and no
-- character of the commit goes across the end of its first twelve bytes, a run never panics over its commit or a step's action
-- and never fails over secrets once the steps have started: it returns an outcome, or an error of the
-- workspace, the file or the caches. And it asks the provider for no configuration twice.
pub execute_run-fetches_once :
    (cfg : AgentConfig) (w : World) (run : Run) (token : Option Str)
    → Yields w.order
    → {short : Str} → first_bytes 12 run.commit ≡ some short
    → Foreseen (execute_run cfg w run token).1 × Distinct (fetches (execute_run cfg w run token).0)
unfolding execute_run
execute_run-fetches_once cfg w run token yields cut =
    with_workspace-Clean cfg w (authed_run run token) token yields
      (ap (first_bytes 12) (authed_run-commit run token) ∙ cut) (w.prepared (authed_run run token))
