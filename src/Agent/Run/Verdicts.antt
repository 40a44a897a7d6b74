-- ===== src/Agent/Run/Verdicts.antt =====
-- What the server and the workspace are told about the outcome of a run.
use flowz.Prelude.{
  ℕ, Str, Bool, true, false, List, [], ◌∷◌, map, keep, Option, none, some, Result, ok, err, ◌≡◌,
  refl, Bool-cases, Result-cases, inl, inr,
}
use flowz.Model.{IndexMap, Step, PipelineFile, Run}
use flowz.Executor.{HostEvent, Returned, failed, outcome, is_success, run_step}
use flowz.Secrets.{Pairs, Masker, mask}
use flowz.Agent.Events.{Event, finish, post_logs, post_body, post_commit_status, host}
use flowz.Agent.Events.Kept.{keep_none-append, keep_none-map, keep_none-flat_map}
use flowz.Agent.Resolver.{
  SecretsResolver, Loaded, load, load_cached, load_wanted, Preflight, preflight, next_step,
  skipped_by_branch, wanted, get,
}
use flowz.Agent.Steps.{
  AgentConfig, World, File, upload_entry, upload_found, upload_artifacts, report_outcome, consume,
  step_done, executor_for, step_context, run_action, load_step, with_secrets, execute_step, StepRun,
  Outcome, go_on, run_steps, passed, step_failed, unreachable, gave_up,
}

-- The events that say how a run has ended.
abbrev pub is_verdict : Event → Bool
is_verdict (finish b) = true
is_verdict (post_body s none) = true
is_verdict (post_commit_status t b) = true
is_verdict _ = false

abbrev pub verdicts : List Event → List Event
verdicts es = keep is_verdict es

quiet-upload_entry :
    (step : Str) (rel : Option Str) (size : Option ℕ) (accepted : Bool)
    → verdicts (upload_entry step rel size accepted) ≡ []
quiet-upload_entry step none size accepted = refl
quiet-upload_entry step (some rel) none accepted = refl
quiet-upload_entry step (some rel) (some n) true = refl
quiet-upload_entry step (some rel) (some n) false = refl

quiet-upload_found :
    (step spec : Str) (found : Option (List File)) → verdicts (upload_found step spec found) ≡ []
quiet-upload_found step spec none = refl
quiet-upload_found step spec (some files) =
    keep_none-flat_map is_verdict _
      (λ file. quiet-upload_entry step file.rel file.size file.accepted) files

quiet-report_outcome :
    (w : World) (name : Str) (step : Step) (r : Returned)
    → verdicts (report_outcome w name step r).0 ≡ []
unfolding upload_artifacts
quiet-report_outcome w name step (failed e) = refl
quiet-report_outcome w name step (outcome code) = elim (Bool-cases (is_success code)) [
  | inl on ↦ rw on (
      keep_none-append is_verdict (upload_artifacts w name step.artifacts) _
        (keep_none-flat_map is_verdict _ (λ spec. quiet-upload_found name spec (w.files name spec))
          step.artifacts)
        refl)
  | inr off ↦ rw off refl
]

quiet-load_cached :
    (provider : Str → Str → Result Str Pairs) (r : SecretsResolver) (c : Str) (found : Option Pairs)
    → verdicts (load_cached provider r c found).0 ≡ []
quiet-load_cached provider r c (some pairs) = refl
quiet-load_cached provider r c none = elim (Result-cases (provider r.project c)) [
  | inl (pairs, e) ↦ rw e refl
  | inr (x, e) ↦ rw e refl
]

quiet-load_wanted :
    (provider : Str → Str → Result Str Pairs) (r : SecretsResolver) (c : Option Str)
    → verdicts (load_wanted provider r c).0 ≡ []
unfolding load
quiet-load_wanted provider r none = refl
quiet-load_wanted provider r (some c) = quiet-load_cached provider r c (get r.cache c)

quiet-step_done :
    (w : World) (name : Str) (step : Step) (masker : Masker)
    (d : List HostEvent × List Str × Returned)
    → verdicts (step_done w name step masker d).0 ≡ []
quiet-step_done w name step masker (done, lines, returned) =
    keep_none-append is_verdict (map (host name) done) _
      (keep_none-map is_verdict (host name) (λ e. refl) done)
      (keep_none-append is_verdict (consume w masker name lines) _
        (keep_none-map is_verdict (λ batch. post_logs name (map (mask masker) batch))
          (λ batch. refl) (w.batches name lines))
        (quiet-report_outcome w name step returned))

quiet-run_action :
    (cfg : AgentConfig) (w : World) (run : Run) (path : Str) (mounts : List (Str × Str))
    (name : Str) (step : Step) (masker : Masker) (env : Pairs) (script : Option (Str × Bool))
    → verdicts (run_action cfg w run path mounts name step masker env script).0 ≡ []
quiet-run_action cfg w run path mounts name step masker env none = refl
quiet-run_action cfg w run path mounts name step masker env (some (script, is_host_exec)) =
    quiet-step_done w name step masker (
      run_step (w.spawned name) w.temp_dir (executor_for cfg w is_host_exec)
        (step_context cfg run path mounts name env script is_host_exec))

quiet-load_step :
    (w : World) (pf : PipelineFile) (branch : Str) (step : Step) (r : Option SecretsResolver)
    → verdicts (load_step w pf branch step r).0 ≡ []
quiet-load_step w pf branch step none = refl
quiet-load_step w pf branch step (some r) = quiet-load_wanted w.provider r _

module _ (cfg : AgentConfig) (w : World) (pf : PipelineFile) (run : Run) (path : Str)
    (mounts : List (Str × Str)) where
  quiet-with_secrets :
      (name : Str) (step : Step) (l : List Event × Option SecretsResolver × Result Str Pairs)
      → verdicts l.0 ≡ []
      → verdicts (with_secrets cfg w pf run path mounts name step l).0 ≡ []
  quiet-with_secrets name step (events, r, err e) h = h
  quiet-with_secrets name step (events, r, ok pairs) h =
      keep_none-append is_verdict events _ h
        (quiet-run_action cfg w run path mounts name step _ _ _)

  quiet-execute_step :
      (name : Str) (step : Step) (r : Option SecretsResolver)
      → verdicts (execute_step cfg w pf run path mounts name step r).0 ≡ []
  unfolding execute_step
  quiet-execute_step name step r = elim (Bool-cases (skipped_by_branch step run.branch)) [
    | inl on ↦ rw (on, execute_step) refl
    | inr off ↦
        rw (off, execute_step)
          (quiet-with_secrets name step (load_step w pf run.branch step r)
            (quiet-load_step w pf run.branch step r))
  ]

  quiet-go_on :
      (rest : Option SecretsResolver → Outcome) (s : StepRun)
      → ((r : Option SecretsResolver) → verdicts (rest r).0 ≡ [])
      → verdicts s.0 ≡ []
      → verdicts (go_on rest s).0 ≡ []
  quiet-go_on rest (events, r, passed) k h = keep_none-append is_verdict events _ h (k r)
  quiet-go_on rest (events, r, step_failed) k h = h
  quiet-go_on rest (events, r, gave_up e) k h = h
  quiet-go_on rest (events, r, unreachable) k h = h

  pub quiet-run_steps :
      (steps : IndexMap Step) (r : Option SecretsResolver)
      → verdicts (run_steps cfg w pf run path mounts steps r).0 ≡ []
  unfolding run_steps
  quiet-run_steps [] r = refl
  quiet-run_steps ((name, step) ∷ steps) r =
      quiet-go_on (run_steps cfg w pf run path mounts steps)
        (execute_step cfg w pf run path mounts name step r) (quiet-run_steps steps)
        (quiet-execute_step name step r)

pub quiet-preflight :
    (provider : Str → Str → Result Str Pairs) (pf : PipelineFile) (branch : Str)
    (steps : IndexMap Step) (r : SecretsResolver)
    → verdicts (preflight provider pf branch steps r).0 ≡ []
unfolding preflight
quiet-preflight provider pf branch [] r = refl
quiet-preflight provider pf branch ((name, step) ∷ steps) r =
    next (preflight provider pf branch steps) (λ r'. quiet-preflight provider pf branch steps r')
      (load_wanted provider r (wanted pf branch step))
      (quiet-load_wanted provider r (wanted pf branch step))
  where
    next :
        (rest : SecretsResolver → Preflight)
        → ((r' : SecretsResolver) → verdicts (rest r').0 ≡ [])
        → (l : Loaded) → verdicts l.0 ≡ []
        → verdicts (next_step name rest l).0 ≡ []
    next rest k (events, r', ok pairs) h = keep_none-append is_verdict events _ h (k r')
    next rest k (events, r', err e) h = h
