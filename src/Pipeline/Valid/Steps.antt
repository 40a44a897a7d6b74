-- ===== src/Pipeline/Valid/Steps.antt =====
-- When the checks of the secrets section and of a step pass.
use mathlib.Core.List.{Memᴰ}
use flowz.Prelude.{
  Str, lit, ==_iff, ◌&&◌, Bool, true, false, not, List, All, Option, none, some, ok, guard,
  for_each, ◌≡◌, ◌↔◌, refl, arith,
}
use flowz.Model.{SecretsConfig, Step}
use flowz.Pipeline.Graph.{member}
use flowz.Pipeline.Graph.Sets.{member_iff}
use flowz.Pipeline.{
  invalid_run_path, invalid_artifact_path, unknown_dependency, check_secrets, check_action, escapes,
  check_run, check_step,
}
use flowz.Pipeline.Valid.{ValidSecrets, OneAction, StaysInside, ValidStep}
use flowz.Pipeline.Valid.Rules.{seq-ok, for_each-ok, guard-ok, not-true}

pub check_secrets-ok : (s : Option SecretsConfig) → (check_secrets s ≡ ok tt) ↔ ValidSecrets s
unfolding check_secrets
check_secrets-ok none = (λ _. tt, λ _. refl)
check_secrets-ok (some s) = ground (arith, ==_iff s.provider (lit "cfgy"))

check_action-ok :
    (name : Str) (run exec : Option Str) → (check_action name run exec ≡ ok tt) ↔ OneAction run exec
unfolding check_action
check_action-ok name none none = (λ h. absurd (cc), λ h. absurd h)
check_action-ok name none (some e) = (λ _. tt, λ _. refl)
check_action-ok name (some r) none = (λ _. tt, λ _. refl)
check_action-ok name (some r) (some e) = (λ h. absurd (cc), λ h. absurd h)

check_run-ok : (name : Str) (run : Option Str) → (check_run name run ≡ ok tt) ↔ StaysInside run
unfolding check_run
check_run-ok name none = (λ _. tt, λ _. refl)
check_run-ok name (some run) =
    ground (arith, guard-ok (not (escapes run)) (invalid_run_path name run), not-true (escapes run))

provided_iff : (set has : Bool) → (not (set && not has) ≡ true) ↔ (set ≡ true → has ≡ true)
provided_iff true true = (λ _ _. refl, λ _. refl)
provided_iff true false = (λ h. absurd (cc), λ h. absurd (cc (h refl)))
provided_iff false has = (λ _ h. absurd (cc), λ _. refl)

pub check_step-ok :
    (step_names : List Str) (has_secrets : Bool) (e : Str × Step)
    → (check_step step_names has_secrets e ≡ ok tt) ↔ ValidStep step_names has_secrets e.1
unfolding check_step
check_step-ok step_names has_secrets (name, step) = (
  λ h.
      let (h1, r1) = (seq-ok _ _).0 h in
      let (h2, r2) = (seq-ok _ _).0 r1 in
      let (h3, r3) = (seq-ok _ _).0 r2 in
      let (h4, h5) = (seq-ok _ _).0 r3 in
      record {
        one_action = (check_action-ok name step.run step.exec).0 h1;
        run_inside = (check_run-ok name step.run).0 h2;
        artifacts_inside = (artifacts step.artifacts).0 h3;
        provided = (provided_iff _ _).0 ((guard-ok _ _).0 h4);
        known = (needs step.needs).0 h5;
      },
  λ v. (seq-ok _ _).1 (
    (check_action-ok name step.run step.exec).1 v.one_action,
    (seq-ok _ _).1 (
      (check_run-ok name step.run).1 v.run_inside,
      (seq-ok _ _).1 (
        (artifacts step.artifacts).1 v.artifacts_inside,
        (seq-ok _ _).1
            ((guard-ok _ _).1 ((provided_iff _ _).1 v.provided), (needs step.needs).1 v.known),
      ),
    ),
  ),
)
  where
    artifacts :
        (ps : List Str)
        → (for_each (λ path. guard (not (escapes path)) (invalid_artifact_path name path)) ps
            ≡ ok tt)
          ↔ All (λ path. escapes path ≡ false) ps
    artifacts =
        for_each-ok (λ path. escapes path ≡ false) _
          (λ path. (
            λ h. (not-true (escapes path)).0 ((guard-ok _ _).0 h),
            λ h. (guard-ok _ _).1 ((not-true (escapes path)).1 h),
          ))

    needs :
        (ds : List Str)
        → (for_each (λ dep. guard (member dep step_names) (unknown_dependency name dep)) ds ≡ ok tt)
          ↔ All (λ dep. Memᴰ dep step_names) ds
    needs =
        for_each-ok (λ dep. Memᴰ dep step_names) _
          (λ dep. (
            λ h. (member_iff dep step_names).0 ((guard-ok _ _).0 h),
            λ h. (guard-ok _ _).1 ((member_iff dep step_names).1 h),
          ))
