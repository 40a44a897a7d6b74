-- ===== src/Pipeline/Errors.antt =====
-- What the errors of `validate` say of the file.
pub mod Steps
pub mod File
use mathlib.Core.List.{Memᴰ}
use flowz.Prelude.{
  Str, lit, trim, Bool, true, false, List, [], ◌∷◌, ◌++◌, Option, none, some, ◌≡◌, ◌≢◌, refl,
  Result, ok, err, ◌>>◌, ◌>>=◌, guard, for_each, ◌⊎◌, inl, inr,
}
use flowz.Model.{IndexMap, PipelineFile, SecretsConfig, Step}
use flowz.Pipeline.Graph.{keys}
use flowz.Pipeline.Graph.Walks.{Walk}
use flowz.Pipeline.{
  PipelineError, Checked, unsupported_version, unknown_dependency, cycle_detected, invalid_run_path,
  invalid_artifact_path, missing_action, ambiguous_action, unsupported_secrets_provider,
  empty_secrets_project, secrets_without_provider, invalid_cache_name, invalid_cache_path,
  duplicate_cache_path, normalize_cache_path, valid_cache_name, bad_cache_path, escapes, is_some,
  graph,
}

-- What is wrong with a step.
pub data StepFault (names : List Str) (has_secrets : Bool) (name : Str) (step : Step)
    : PipelineError → Type 0 where
  no_action :
      step.run ≡ none
      → step.exec ≡ none
      → StepFault names has_secrets name step (missing_action name)
  two_actions :
      (r e : Str)
      → step.run ≡ some r
      → step.exec ≡ some e
      → StepFault names has_secrets name step (ambiguous_action name)
  run_escapes :
      (r : Str)
      → step.run ≡ some r
      → escapes r ≡ true
      → StepFault names has_secrets name step (invalid_run_path name r)
  artifact_escapes :
      (p : Str)
      → Memᴰ p step.artifacts
      → escapes p ≡ true
      → StepFault names has_secrets name step (invalid_artifact_path name p)
  no_provider :
      is_some step.secrets ≡ true
      → has_secrets ≡ false
      → StepFault names has_secrets name step (secrets_without_provider name)
  not_a_step :
      (d : Str)
      → Memᴰ d step.needs
      → ¬ Memᴰ d names
      → StepFault names has_secrets name step (unknown_dependency name d)

-- What is wrong with a cache section.
pub data CacheFault (cache : IndexMap Str) : PipelineError → Type 0 where
  bad_name :
      (name path : Str)
      → Memᴰ (name, path) cache
      → valid_cache_name name ≡ false
      → CacheFault cache (invalid_cache_name name)
  bad_path :
      (name path : Str)
      → Memᴰ (name, path) cache
      → bad_cache_path (normalize_cache_path path) ≡ true
      → CacheFault cache (invalid_cache_path name path)
  same_path :
      (name path : Str) (before after : IndexMap Str) (e : Str × Str)
      → cache ≡ before ++ (name, path) ∷ after
      → Memᴰ e before
      → normalize_cache_path e.1 ≡ normalize_cache_path path
      → CacheFault cache (duplicate_cache_path name)

-- What is wrong with a file.
pub data Fault (pf : PipelineFile) : PipelineError → Type 0 where
  version_not_one : pf.version ≢ 1 → Fault pf (unsupported_version pf.version)
  not_cfgy :
      (s : SecretsConfig)
      → pf.secrets ≡ some s
      → s.provider ≢ lit "cfgy"
      → Fault pf (unsupported_secrets_provider s.provider)
  no_project :
      (s : SecretsConfig)
      → pf.secrets ≡ some s
      → trim s.project ≡ []
      → Fault pf empty_secrets_project
  in_cache : {e : PipelineError} → CacheFault pf.cache e → Fault pf e
  in_step :
      {e : PipelineError} (name : Str) (step : Step)
      → Memᴰ (name, step) pf.steps
      → StepFault (keys pf.steps) (is_some pf.secrets) name step e
      → Fault pf e
  on_cycle : (n : Str) → Walk (graph pf) n n → Fault pf (cycle_detected n)

pub seq-err :
    (m k : Checked) (e : PipelineError) → (m >> k) ≡ err e → (m ≡ err e) ⊎ (m ≡ ok tt) × (k ≡ err e)
seq-err (ok tt) k e h = inr (refl, h)
seq-err (err f) k e h = inl h

err_injective : {e f : PipelineError} → ◌≡◌ {A = Checked} (err e) (err f) → e ≡ f
err_injective h = cc

pub guard-err : (b : Bool) (e f : PipelineError) → guard b e ≡ err f → (b ≡ false) × (e ≡ f)
guard-err true e f h = absurd (cc)
guard-err false e f h = (refl, err_injective h)

pub for_each-err :
    {A : Type 0} (check : A → Checked) (xs : List A) (e : PipelineError)
    → for_each check xs ≡ err e
    → (x : A) × Memᴰ x xs × (check x ≡ err e)
for_each-err check [] e h = absurd (cc)
for_each-err check (x ∷ xs) e h = elim (seq-err (check x) (for_each check xs) e h) [
  | inl here ↦ (x, Memᴰ.head refl, here)
  | inr (_, later) ↦ let (y, m, found) = for_each-err check xs e later in (y, Memᴰ.tail m, found)
]
