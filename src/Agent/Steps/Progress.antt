-- ===== src/Agent/Steps/Progress.antt =====
-- The order of the steps of a run: they run one after the other, up to the first that fails.
use flowz.Prelude.{
  Str, Bool, true, false, if◌then◌else◌, List, [], ◌∷◌, map, keep, All, Option, none, some, Result,
  ok, ◌≡◌, ◌≢◌, refl, ap, sym, subst, ◌∙◌, inl, inr, Bool-cases, ℕ, eqb, arith, err,
}
use flowz.Model.{IndexMap, Step, PipelineFile, Run, StepStatus, skipped}
use flowz.Pipeline.Valid.{OneAction}
use flowz.Secrets.{Pairs, Masker, mask}
use flowz.Executor.{HostEvent, Returned, failed, outcome, is_success, run_step}
use flowz.Agent.Events.{Event, post_body, fetch, post_logs, post_step_status, host}
use flowz.Agent.Events.Kept.{keep-append, keep-after, keep_none-map, keep_none-flat_map}
use flowz.Agent.Resolver.{
  SecretsResolver, load, load_cached, wanted, skipped_by_branch, configuration_for, load_wanted,
}
use flowz.Agent.Resolver.Once.{Has}
use flowz.Agent.Steps.{
  AgentConfig, World, File, upload_entry, upload_found, upload_artifacts, report_outcome, consume,
  action, step_done, executor_for, step_context, run_action, masker_of, load_step, with_secrets,
  execute_step, Outcome, go_on, run_steps, passed, step_failed, unreachable, gave_up, Ending,
  StepRun,
}
use flowz.Agent.Env.{merged}

-- The events about the steps: their statuses, and what is fetched for them.
abbrev pub is_progress : Event → Bool
is_progress (fetch c) = true
is_progress (post_body s (some (name, status))) = true
is_progress _ = false

abbrev pub progress : List Event → List Event
progress es = keep is_progress es

-- The statuses of the steps of a run on a branch, in order, and whether the run succeeds, from what the
-- executor returns for each step: a step that the branch skips is marked so; a step that exits with 0
-- succeeds; and at the first that does not the run fails, and nothing is behind it.
pub data Progress (branch : Str) (ran : Str → Step → Returned)
    : IndexMap Step → List Event → Bool → Type 0 where
  all_done : Progress branch ran [] [] true
  skip :
      {name : Str} {step : Step} {steps : IndexMap Step} {es : List Event} {result : Bool}
      → skipped_by_branch step branch ≡ true
      → Progress branch ran steps es result
      → Progress branch ran ((name, step) ∷ steps) (post_step_status name skipped ∷ es) result
  pass :
      {name : Str} {step : Step} {steps : IndexMap Step} {es : List Event} {result : Bool}
      → skipped_by_branch step branch ≡ false
      → ran name step ≡ outcome (some 0)
      → Progress branch ran steps es result
      → Progress branch ran
          ((name, step) ∷ steps)
          (post_step_status name StepStatus.running ∷ post_step_status name StepStatus.success ∷ es)
          result
  stop :
      {name : Str} {step : Step} {steps : IndexMap Step}
      → skipped_by_branch step branch ≡ false
      → ran name step ≢ outcome (some 0)
      → Progress branch ran
          ((name, step) ∷ steps)
          (post_step_status name StepStatus.running ∷ post_step_status name StepStatus.failure ∷ [])
          false

-- Whether a step has succeeded: its process exited with 0.
abbrev Decides : Bool → Returned → Type 0
Decides true returned = returned ≡ outcome (some 0)
Decides false returned = returned ≢ outcome (some 0)

abbrev final : Bool → StepStatus
final true = StepStatus.success
final false = StepStatus.failure

abbrev ending : Bool → Ending
ending succeeded = if succeeded then passed else step_failed

upload_entry-quiet :
    (step : Str) (rel : Option Str) (size : Option ℕ) (accepted : Bool)
    → progress (upload_entry step rel size accepted) ≡ []
upload_entry-quiet step none size accepted = refl
upload_entry-quiet step (some rel) none accepted = refl
upload_entry-quiet step (some rel) (some n) true = refl
upload_entry-quiet step (some rel) (some n) false = refl

upload_found-quiet :
    (step spec : Str) (found : Option (List File)) → progress (upload_found step spec found) ≡ []
upload_found-quiet step spec none = refl
upload_found-quiet step spec (some files) =
    keep_none-flat_map is_progress _
      (λ file. upload_entry-quiet step file.rel file.size file.accepted) files

report_outcome-final :
    (w : World) (name : Str) (step : Step) (r : Returned)
    → progress (report_outcome w name step r).0
      ≡ post_step_status name (final (report_outcome w name step r).1) ∷ []
unfolding upload_artifacts
report_outcome-final w name step (failed e) = refl
report_outcome-final w name step (outcome code) = elim (Bool-cases (is_success code)) [
  | inl on ↦ rw on (
      keep-after is_progress (upload_artifacts w name step.artifacts) _ (
        keep_none-flat_map is_progress _ (λ spec. upload_found-quiet name spec (w.files name spec))
          step.artifacts))
  | inr off ↦ rw off refl
]

report_outcome-Decides :
    (w : World) (name : Str) (step : Step) (r : Returned)
    → Decides (report_outcome w name step r).1 r
report_outcome-Decides w name step (failed e) = λ h. absurd (cc h)
report_outcome-Decides w name step (outcome none) = λ h. absurd (cc h)
report_outcome-Decides w name step (outcome (some code)) = elim (Bool-cases (eqb code 0)) [
  | inl on ↦ let zero_exit : code ≡ 0 = ground arith in rw on (ap (λ c. outcome (some c)) zero_exit)
  | inr off ↦ rw off (λ h. let same : some code ≡ some 0 = ap exit_of h in absurd (cc (same, off)))
]
  where
    exit_of : Returned → Option ℕ
    exit_of (failed e) = none
    exit_of (outcome o) = o

step_done-final :
    (w : World) (name : Str) (step : Step) (masker : Masker)
    (d : List HostEvent × List Str × Returned)
    → (succeeded : Bool) × (progress (step_done w name step masker d).0
        ≡ post_step_status name (final succeeded) ∷ [])
      × ((step_done w name step masker d).1 ≡ ending succeeded)
      × Decides succeeded d.2
step_done-final w name step masker (done, lines, returned) = (
  (report_outcome w name step returned).1,
  keep-after is_progress (map (host name) done) _
        (keep_none-map is_progress (host name) (λ e. refl) done)
      ∙ keep-after is_progress (consume w masker name lines) _ (
          keep_none-map is_progress (λ batch. post_logs name (map (mask masker) batch))
            (λ batch. refl) (w.batches name lines))
      ∙ report_outcome-final w name step returned,
  refl,
  report_outcome-Decides w name step returned,
)

abbrev pub Known : PipelineFile → Str → Option SecretsResolver → Step → Type 0
Known pf branch none step = Unit
Known pf branch (some r) step = Has r.cache (wanted pf branch step)

load_known :
    (provider : Str → Str → Result Str Pairs) (r : SecretsResolver) (c : Option Str)
    → Has r.cache c
    → (pairs : Pairs) × (load_wanted provider r c ≡ ([], r, ok pairs))
unfolding load
load_known provider r none h = ([], refl)
load_known provider r (some c) (pairs, h) = (pairs, ap (load_cached provider r c) h)

load_step-Known :
    (w : World) (pf : PipelineFile) (branch : Str) (step : Step) (r : Option SecretsResolver)
    → skipped_by_branch step branch ≡ false
    → Known pf branch r step
    → (pairs : Pairs) × (load_step w pf branch step r ≡ ([], r, ok pairs))
load_step-Known w pf branch step none runs h = ([], refl)
load_step-Known w pf branch step (some r) runs h =
    let (pairs, e) =
      load_known w.provider r (configuration_for pf step.secrets branch) (rw runs at h) in
    (pairs, ap (λ l. (l.0, some l.1, l.2)) e)

module _ (cfg : AgentConfig) (w : World) (pf : PipelineFile) (run : Run) (path : Str)
    (mounts : List (Str × Str)) where
  -- What the executor returns for the action of a step with some secrets.
  abbrev pub returned_with : Str → Step → Pairs → Option (Str × Bool) → Returned
  returned_with name step pairs none = failed []
  returned_with name step pairs (some (script, is_host_exec)) =
      (run_step (w.spawned name) w.temp_dir (executor_for cfg w is_host_exec)
        (step_context cfg run path mounts name (merged pf pairs step) script is_host_exec)).2

  abbrev given : Result Str Pairs → Pairs
  given (ok pairs) = pairs
  given (err e) = []

  -- What it returns for a step, with the secrets that the resolver has for it.
  abbrev pub returned : Option SecretsResolver → Str → Step → Returned
  returned r name step =
      returned_with name step (given (load_step w pf run.branch step r).2)
        (action step.run step.exec)

  run_action-final :
      (name : Str) (step : Step) (masker : Masker) (pairs : Pairs)
      → OneAction step.run step.exec
      → (succeeded : Bool) × (progress
            (run_action cfg w run path mounts name step masker
              (merged pf pairs step)
              (action step.run step.exec)).0
          ≡ post_step_status name (final succeeded) ∷ [])
        × ((run_action cfg w run path mounts name step masker
              (merged pf pairs step)
              (action step.run step.exec)).1
            ≡ ending succeeded)
        × Decides succeeded (returned_with name step pairs (action step.run step.exec))
  run_action-final name step masker pairs one = of_action step.run step.exec one
    where
      of_action :
          (r e : Option Str)
          → OneAction r e
          → (succeeded : Bool) × (progress
                (run_action cfg w run path mounts name step masker
                  (merged pf pairs step)
                  (action r e)).0
              ≡ post_step_status name (final succeeded) ∷ [])
            × ((run_action cfg w run path mounts name step masker
                  (merged pf pairs step)
                  (action r e)).1
                ≡ ending succeeded)
            × Decides succeeded (returned_with name step pairs (action r e))
      of_action (some script) none h = step_done-final w name step masker (
          run_step (w.spawned name) w.temp_dir (executor_for cfg w false)
            (step_context cfg run path mounts name (merged pf pairs step) script false))
      of_action none (some script) h = step_done-final w name step masker (
          run_step (w.spawned name) w.temp_dir (executor_for cfg w true)
            (step_context cfg run path mounts name (merged pf pairs step) script true))
      of_action none none h = absurd h
      of_action (some r) (some e) h = absurd h

  with_secrets-final :
      (name : Str) (step : Step) (r : Option SecretsResolver) (pairs : Pairs)
      → OneAction step.run step.exec
      → (succeeded : Bool) × (progress
            (with_secrets cfg w pf run path mounts name step ([], r, ok pairs)).0
          ≡ post_step_status name (final succeeded) ∷ [])
        × ((with_secrets cfg w pf run path mounts name step ([], r, ok pairs)).1 ≡ r)
        × ((with_secrets cfg w pf run path mounts name step ([], r, ok pairs)).2 ≡ ending succeeded)
        × Decides succeeded (returned_with name step pairs (action step.run step.exec))
  with_secrets-final name step r pairs one =
      let (succeeded, shown, ended, decided) = run_action-final name step (masker_of r) pairs one in
      (succeeded, shown, refl, ended, decided)

  -- A loop that goes on with what is left when a step has passed.
  go_on-Progress :
      (rest : Option SecretsResolver → Outcome) (name : Str) (step : Step) (steps : IndexMap Step)
      (s : StepRun) (r : Option SecretsResolver) (ran : Str → Step → Returned) (succeeded : Bool)
      → skipped_by_branch step run.branch ≡ false
      → progress s.0
        ≡ post_step_status name StepStatus.running ∷ post_step_status name (final succeeded) ∷ []
      → s.1 ≡ r
      → s.2 ≡ ending succeeded
      → Decides succeeded (ran name step)
      → (result : Bool) × ((rest r).1 ≡ ok result)
        × Progress run.branch ran steps (progress (rest r).0) result
      → (result : Bool) × ((go_on rest s).1 ≡ ok result)
        × Progress run.branch ran ((name, step) ∷ steps) (progress (go_on rest s).0) result
  go_on-Progress rest name step steps (events, r', passed) r ran true runs shown same ended d
        (result, e, later) =
      (
        result,
        ap (λ x. (rest x).1) same ∙ e,
        rw (keep-append is_progress events (rest r').0, shown, same) (pass runs d later),
      )
  go_on-Progress rest name step steps (events, r', step_failed) r ran false runs shown same ended d
        k =
      (false, refl, rw shown (stop runs d))
  go_on-Progress rest name step steps (events, r', passed) r ran false runs shown same ended d k =
      absurd (cc ended)
  go_on-Progress rest name step steps (events, r', step_failed) r ran true runs shown same ended d
        k =
      absurd (cc ended)
  go_on-Progress rest name step steps (events, r', unreachable) r ran true runs shown same ended d
        k =
      absurd (cc ended)
  go_on-Progress rest name step steps (events, r', unreachable) r ran false runs shown same ended d
        k =
      absurd (cc ended)
  go_on-Progress rest name step steps (events, r', gave_up e) r ran true runs shown same ended d k =
      absurd (cc ended)
  go_on-Progress rest name step steps (events, r', gave_up e) r ran false runs shown same ended d
        k =
      absurd (cc ended)

  -- Where every step has one action and the resolver knows what the steps want, the loop ends with an
  -- outcome, fetches nothing, and gives the steps statuses as `Progress` says: in the order of the file,
  -- success exactly to those whose process exits with 0, and nothing behind the first that does not.
  pub run_steps-Progress :
      (steps : IndexMap Step) (r : Option SecretsResolver)
      → All (λ e. OneAction e.1.run e.1.exec) steps
      → All (λ e. Known pf run.branch r e.1) steps
      → (result : Bool) × ((run_steps cfg w pf run path mounts steps r).1 ≡ ok result)
        × Progress run.branch
            (returned r)
            steps
            (progress (run_steps cfg w pf run path mounts steps r).0)
            result
  unfolding run_steps execute_step
  run_steps-Progress [] r ones known = (true, refl, all_done)
  run_steps-Progress ((name, step) ∷ steps) r ones known =
      let ih = run_steps-Progress steps r ones.1 known.1 in
      elim (Bool-cases (skipped_by_branch step run.branch)) [
        | inl on ↦ rw (on, run_steps, execute_step) (ih.0, ih.1, skip on ih.2)
        | inr off ↦
            let (pairs, loaded) = load_step-Known w pf run.branch step r off known.0 in
            let (succeeded, shown, same, ended, decided) =
              with_secrets-final name step r pairs ones.0 in
            rw (off, run_steps, execute_step, loaded)
              (go_on-Progress (run_steps cfg w pf run path mounts steps) name step steps
                (let l = with_secrets cfg w pf run path mounts name step ([], r, ok pairs) in
                  (post_step_status name StepStatus.running ∷ l.0, l.1, l.2))
                r (returned r) succeeded off
                (ap (λ es. post_step_status name StepStatus.running ∷ es) shown) same ended
                (subst
                  (λ p. Decides succeeded (returned_with name step p (action step.run step.exec)))
                  (sym (
                    ap (λ (l : List Event × Option SecretsResolver × Result Str Pairs). given l.2)
                      loaded))
                  decided)
                ih)
      ]
