-- ===== src/Pipeline/Errors/Steps.antt =====
-- A step is refused for a fault that it has.
use mathlib.Core.List.{Memᴰ}
use flowz.Prelude.{
  Str, Bool, true, false, not, ◌&&◌, List, Option, none, some, ◌≡◌, refl, subst, err, guard,
  for_each, inl, inr, arith,
}
use flowz.Model.{Step}
use flowz.Pipeline.Graph.{member}
use flowz.Pipeline.Graph.Sets.{member_iff}
use flowz.Pipeline.{
  PipelineError, unknown_dependency, invalid_run_path, invalid_artifact_path, missing_action,
  ambiguous_action, secrets_without_provider, escapes, is_some, check_action, check_run, check_step,
}
use flowz.Pipeline.Errors.{
  StepFault, no_action, two_actions, run_escapes, artifact_escapes, no_provider, not_a_step,
  seq-err, guard-err, for_each-err,
}

not-false : (b : Bool) → not b ≡ false → b ≡ true
not-false b h = ground arith

pub not-member_of_false : (a : Str) (s : List Str) → member a s ≡ false → ¬ Memᴰ a s
not-member_of_false a s h m = cc ((member_iff a s).1 m, h)

module _ (names : List Str) (has_secrets : Bool) (name : Str) (step : Step) where
  action_fault :
      (run exec : Option Str) (e : PipelineError)
      → step.run ≡ run
      → step.exec ≡ exec
      → check_action name run exec ≡ err e
      → StepFault names has_secrets name step e
  unfolding check_action
  action_fault none none e p q h =
      subst (StepFault names has_secrets name step) (guard-err false (missing_action name) e h).1
        (no_action p q)
  action_fault (some r) (some x) e p q h =
      subst (StepFault names has_secrets name step) (guard-err false (ambiguous_action name) e h).1
        (two_actions r x p q)
  action_fault (some r) none e p q h = absurd (cc)
  action_fault none (some x) e p q h = absurd (cc)

  run_fault :
      (run : Option Str) (e : PipelineError)
      → step.run ≡ run
      → check_run name run ≡ err e
      → StepFault names has_secrets name step e
  unfolding check_run
  run_fault none e p h = absurd (cc)
  run_fault (some r) e p h =
      let (out, same) = guard-err (not (escapes r)) (invalid_run_path name r) e h in
      subst (StepFault names has_secrets name step) same (run_escapes r p (not-false _ out))

  artifact_fault :
      (e : PipelineError)
      → for_each
          (λ path. guard (not (escapes path)) (invalid_artifact_path name path))
          step.artifacts
        ≡ err e
      → StepFault names has_secrets name step e
  artifact_fault e h =
      let (p, m, found) = for_each-err _ step.artifacts e h in
      let (out, same) = guard-err (not (escapes p)) (invalid_artifact_path name p) e found in
      subst (StepFault names has_secrets name step) same (artifact_escapes p m (not-false _ out))

  provider_fault :
      (e : PipelineError)
      → guard (not (is_some step.secrets && not has_secrets)) (secrets_without_provider name)
        ≡ err e
      → StepFault names has_secrets name step e
  provider_fault e h =
      let (out, same) = guard-err _ (secrets_without_provider name) e h in
      subst (StepFault names has_secrets name step) same (no_provider (ground arith) (ground arith))

  needs_fault :
      (e : PipelineError)
      → for_each (λ dep. guard (member dep names) (unknown_dependency name dep)) step.needs ≡ err e
      → StepFault names has_secrets name step e
  needs_fault e h =
      let (d, m, found) = for_each-err _ step.needs e h in
      let (out, same) = guard-err (member d names) (unknown_dependency name d) e found in
      subst (StepFault names has_secrets name step) same
        (not_a_step d m (not-member_of_false d names out))

  pub check_step-StepFault :
      (e : PipelineError)
      → check_step names has_secrets (name, step) ≡ err e
      → StepFault names has_secrets name step e
  unfolding check_step
  check_step-StepFault e h = elim (seq-err _ _ e h) [
    | inl h1 ↦ action_fault step.run step.exec e refl refl h1
    | inr (_, r1) ↦ elim (seq-err _ _ e r1) [
      | inl h2 ↦ run_fault step.run e refl h2
      | inr (_, r2) ↦ elim (seq-err _ _ e r2) [
        | inl h3 ↦ artifact_fault e h3
        | inr (_, r3) ↦ elim (seq-err _ _ e r3) [
          | inl h4 ↦ provider_fault e h4
          | inr (_, h5) ↦ needs_fault e h5
        ]
      ]
    ]
  ]
