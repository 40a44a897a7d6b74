-- ===== src/Agent/Run/Closed.antt =====
-- A run on a branch without a mapping reaches no secrets.
use flowz.Prelude.{
  Str, List, [], ◌∷◌, All, Option, none, some, Result, ok, err, ◌≡◌, refl, ap, ◌∙◌, sym, subst,
  first_bytes,
}
use flowz.Model.{IndexMap, SecretsConfig, PipelineFile, Step, Run}
use flowz.Pipeline.{parse}
use flowz.Pipeline.Valid.{IsValid}
use flowz.Pipeline.Graph.Correct.{Yields}
use flowz.Pipeline.Valid.File.{parse-IsValid}
use flowz.Agent.Events.{Event, finish}
use flowz.Agent.Resolver.{new_resolver, get}
use flowz.Agent.Resolver.Closed.{unwanted, preflight-closed}
use flowz.Agent.Resolver.Once.{fetches, Has}
use flowz.Agent.Steps.{
  AgentConfig, World, Failure, bad_workspace, bad_read, bad_caches, bad_secrets, bad_pipeline,
  panicked, Outcome, run_steps,
}
use flowz.Agent.Steps.Progress.{Known}
use flowz.Agent.Run.{
  cache_mounts, after_preflight, resolve, with_mounts, with_pipeline, with_yaml, do_execute,
  conclude, greeting, with_workspace, execute_run, authed_run,
}
use flowz.Agent.Run.Once.{
  fetches-before, run_steps-Silent, report_run-Silent, mounted-fetches, authed_run-branch,
}

-- The file has a secrets section, which does not map the branch, and no step names a configuration.
pub record Unmapped (pf : PipelineFile) (branch : Str) : Type 0 where
  pub section : SecretsConfig
  pub has : pf.secrets ≡ some section
  pub unmapped : get section.configurations branch ≡ none
  pub plain : All (λ e. e.1.secrets ≡ none) pf.steps

module _ (cfg : AgentConfig) (w : World) (run : Run) (path : Str) (token : Option Str)
    (pf : PipelineFile) (valid : IsValid pf) (closed : Unmapped pf run.branch) where
  nothing_wanted :
      (steps : IndexMap Step)
      → All (λ e. e.1.secrets ≡ none) steps
      → All (λ e. Known pf run.branch (some (new_resolver closed.section)) e.1) steps
  nothing_wanted [] h = tt
  nothing_wanted ((name, step) ∷ steps) h = (
    subst (Has (new_resolver closed.section).cache)
        (sym (unwanted pf closed.section run.branch closed.has closed.unmapped step h.0)) tt,
    nothing_wanted steps h.1,
  )

  resolve-fetches :
      (mounts : List (Str × Str))
      → fetches
          (resolve w pf run token
            (run_steps cfg w pf run path mounts pf.steps)
            (some closed.section)).0
        ≡ []
  resolve-fetches mounts =
      let r = new_resolver closed.section in
      let rest = run_steps cfg w pf run path mounts pf.steps in
      let (result, e, quiet) = report_run-Silent token (rest (some r)) (
        run_steps-Silent cfg w run path token pf valid mounts (some r)
          (nothing_wanted pf.steps closed.plain)) in
      ap (λ p. fetches (after_preflight token rest p).0)
        (preflight-closed pf closed.section run.branch closed.has closed.unmapped w.provider
          pf.steps closed.plain).1
      ∙ quiet

  with_mounts-fetches :
      (m : List Event × Result Failure (List (Str × Str)))
      → fetches m.0 ≡ []
      → fetches (with_mounts cfg w pf run path token m).0 ≡ []
  with_mounts-fetches (events, err e) h = h
  with_mounts-fetches (events, ok mounts) h =
      let rest = run_steps cfg w pf run path mounts pf.steps in
      let quiet : fetches (resolve w pf run token rest pf.secrets).0 ≡ [] =
        subst (λ s. fetches (resolve w pf run token rest s).0 ≡ []) (sym closed.has)
          (resolve-fetches mounts) in
      fetches-before events (resolve w pf run token rest pf.secrets).0 quiet ∙ h

  with_pipeline-fetches : fetches (with_pipeline cfg w run path token (ok pf)).0 ≡ []
  with_pipeline-fetches = with_mounts-fetches (cache_mounts w pf.cache) (of_caches pf.cache)
    where
      of_caches : (cache : IndexMap Str) → fetches (cache_mounts w cache).0 ≡ []
      of_caches [] = refl
      of_caches (c ∷ cache) = mounted-fetches (w.attached (c ∷ cache))

conclude-fetches : (w : World) (o : Outcome) → fetches o.0 ≡ [] → fetches (conclude w o).0 ≡ []
conclude-fetches w (events, ok success) h = fetches-before events (finish success ∷ []) refl ∙ h
conclude-fetches w (events, err panicked) h = h
conclude-fetches w (events, err (bad_workspace e)) h = fetches-before events _ refl ∙ h
conclude-fetches w (events, err (bad_read e)) h = fetches-before events _ refl ∙ h
conclude-fetches w (events, err (bad_caches e)) h = fetches-before events _ refl ∙ h
conclude-fetches w (events, err (bad_secrets e)) h = fetches-before events _ refl ∙ h
conclude-fetches w (events, err (bad_pipeline e)) h = fetches-before events _ refl ∙ h

greeting-fetches :
    (run : Run) (path : Str) (commit : Option Str) (o : Outcome)
    → fetches o.0 ≡ []
    → fetches (greeting run path commit o).0 ≡ []
greeting-fetches run path none o h = refl
greeting-fetches run path (some commit) o h = h

with_workspace-fetches :
    (cfg : AgentConfig) (w : World) (run : Run) (token : Option Str) (pf : PipelineFile)
    → IsValid pf
    → Unmapped pf run.branch
    → ((path : Str) → do_execute cfg w run path token ≡ with_pipeline cfg w run path token (ok pf))
    → (prepared : Result Str Str) → fetches (with_workspace cfg w run token prepared).0 ≡ []
with_workspace-fetches cfg w run token pf valid closed e (err x) = refl
with_workspace-fetches cfg w run token pf valid closed e (ok path) =
    greeting-fetches run path (first_bytes 12 run.commit)
      (conclude w (do_execute cfg w run path token))
      (conclude-fetches w (do_execute cfg w run path token) (
        ap (λ (o : Outcome). fetches o.0) (e path)
        ∙ with_pipeline-fetches cfg w run path token pf valid closed))

-- A run on a branch that the secrets section of its file does not map asks the provider for nothing, from
-- its start to its end, where no step names a configuration itself. The file is one that `parse` takes,
-- and the hash map of the search for cycles yields each of its keys.
pub execute_run-closed :
    (cfg : AgentConfig) (w : World) (run : Run) (token : Option Str) (yaml : Str)
    (pf : PipelineFile)
    → Yields w.order
    → w.yaml ≡ ok yaml
    → parse w.from_str w.order yaml ≡ ok pf
    → Unmapped pf run.branch
    → fetches (execute_run cfg w run token).0 ≡ []
unfolding execute_run do_execute
execute_run-closed cfg w run token yaml pf yields read parsed closed =
    let run' = authed_run run token in
    with_workspace-fetches cfg w run' token pf
      (((parse-IsValid w.from_str w.order yields yaml pf).0 parsed).1)
      (subst (Unmapped pf) (sym (authed_run-branch run token)) closed)
      (λ path.
        ap (with_yaml cfg w run' path token) read ∙ ap (with_pipeline cfg w run' path token) parsed)
      (w.prepared run')
