-- ===== src/Agent/Resolver/Closed.antt =====
-- A branch without a mapping reaches no secrets.
use flowz.Prelude.{Str, [], ◌∷◌, All, Option, none, some, Result, ◌≡◌, refl, Bool-cases, inl, inr}
use flowz.Model.{IndexMap, Step, PipelineFile, SecretsConfig}
use flowz.Secrets.{Pairs}
use flowz.Agent.Resolver.{
  new_resolver, configuration_for, wanted, skipped_by_branch, preflight, get,
}

module _ (pf : PipelineFile) (sc : SecretsConfig) (branch : Str) (has : pf.secrets ≡ some sc)
    (unmapped : get sc.configurations branch ≡ none) where
  unasked : (asked : Option Str) → asked ≡ none → configuration_for pf asked branch ≡ none
  unasked asked h = rw (has, h) unmapped

  pub unwanted : (step : Step) → step.secrets ≡ none → wanted pf branch step ≡ none
  unwanted step h = elim (Bool-cases (skipped_by_branch step branch)) [
    | inl on ↦ rw on refl
    | inr off ↦ rw off (unasked step.secrets h)
  ]

  -- On a branch that the secrets section does not map, steps that name no configuration get none, and
  -- the preflight loop over them asks the provider for nothing and stops at no step.
  pub preflight-closed :
      (provider : Str → Str → Result Str Pairs) (steps : IndexMap Step)
      → All (λ e. e.1.secrets ≡ none) steps
      → All (λ e. configuration_for pf e.1.secrets branch ≡ none) steps
        × (preflight provider pf branch steps (new_resolver sc) ≡ ([], new_resolver sc, none))
  unfolding preflight
  preflight-closed provider [] h = (tt, refl)
  preflight-closed provider ((name, step) ∷ steps) h =
      let (later, quiet) = preflight-closed provider steps h.1 in
      ((unasked step.secrets h.0, later), rw (unwanted step h.0) quiet)
