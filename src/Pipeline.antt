-- ===== src/Pipeline.antt =====
-- src/pipeline/mod.rs: the checks that a pipeline file passes before a run. The YAML parser is a
-- parameter of `parse`, and so is the order in which the hash map of `detect_cycle` yields its keys.
mod Tests
pub mod Graph
pub mod Valid
pub mod Errors
use flowz.Prelude.{
  ℕ, Str, lit, ◌==◌, is_empty, starts_with, strip_prefix, contains, contains_char, trim,
  trim_end_by, split, is_ascii_alphanumeric, Bool, true, false, not, ◌&&◌, ◌||◌, ◌≢◌, refl, eqb,
  if◌then◌else◌, List, [], ◌∷◌, map, any, all, Option, none, some, Result, ok, err, ◌>>◌, ◌>>=◌,
  guard, for_each,
}
use flowz.Model.{IndexMap, PipelineFile, SecretsConfig, Step}
use flowz.Pipeline.Graph.{
  NeedsGraph, keys, member, insert, Outcome, done, cycle, out_of_fuel, detect_cycle,
}
use flowz.Pipeline.Graph.Correct.{detect_cycle_returns}

pub data PipelineError : Type 0 where
  unsupported_version : ℕ → PipelineError
  unknown_dependency : Str → Str → PipelineError
  cycle_detected : Str → PipelineError
  invalid_run_path : Str → Str → PipelineError
  invalid_artifact_path : Str → Str → PipelineError
  missing_action : Str → PipelineError
  ambiguous_action : Str → PipelineError
  unsupported_secrets_provider : Str → PipelineError
  empty_secrets_project : PipelineError
  secrets_without_provider : Str → PipelineError
  invalid_cache_name : Str → PipelineError
  invalid_cache_path : Str → Str → PipelineError
  duplicate_cache_path : Str → PipelineError
  parse_error : Str → PipelineError

abbrev pub Checked : Type 0
Checked = Result PipelineError Unit

abbrev or_self : Option Str → Str → Str
or_self none s = s
or_self (some t) s = t

pub normalize_cache_path : Str → Str
normalize_cache_path p =
    let path = or_self (strip_prefix (trim p) (lit "./")) (trim p) in
    let trimmed = trim_end_by (eqb b'/') path in
    if is_empty trimmed && starts_with path (lit "/") then lit "/" else trimmed

-- `Path::new(p).components()` has a `ParentDir` for each part `..` of the path.
pub has_parent : Str → Bool
has_parent p = any (λ part. part == lit "..") (split p b'/')

pub valid_cache_name : Str → Bool
valid_cache_name name =
    not (is_empty name) && all (λ c. is_ascii_alphanumeric c || eqb c b'_' || eqb c b'-') name

pub bad_cache_path : Str → Bool
bad_cache_path norm =
    is_empty norm
    || norm == lit "."
    || norm == lit "/"
    || norm == lit "/workspace"
    || starts_with norm (lit "/workspace/")
    || contains_char norm b':'
    || has_parent norm

-- The loop of `validate_cache`, with the paths seen so far.
unfoldable pub validate_cache_from : List Str → IndexMap Str → Checked
validate_cache_from seen [] = ok tt
validate_cache_from seen ((name, path) ∷ cache) =
    let norm = normalize_cache_path path in
    do
      guard (valid_cache_name name) (invalid_cache_name name)
      guard (not (bad_cache_path norm)) (invalid_cache_path name path)
      guard (not (member norm seen)) (duplicate_cache_path name)
      validate_cache_from (insert norm seen) cache

unfoldable pub validate_cache : PipelineFile → Checked
validate_cache pf = validate_cache_from [] pf.cache

unfoldable pub check_secrets : Option SecretsConfig → Checked
check_secrets none = ok tt
check_secrets (some s) = do
  guard (s.provider == lit "cfgy") (unsupported_secrets_provider s.provider)
  guard (not (is_empty (trim s.project))) empty_secrets_project

unfoldable pub check_action : Str → Option Str → Option Str → Checked
check_action name none none = err (missing_action name)
check_action name (some r) (some e) = err (ambiguous_action name)
check_action name (some r) none = ok tt
check_action name none (some e) = ok tt

-- `path.starts_with('/') || path.contains("../")`
unfoldable pub escapes : Str → Bool
escapes path = starts_with path (lit "/") || contains path (lit "../")

unfoldable pub check_run : Str → Option Str → Checked
check_run name none = ok tt
check_run name (some run) = guard (not (escapes run)) (invalid_run_path name run)

abbrev pub is_some : {V : Type 0} → Option V → Bool
is_some none = false
is_some (some v) = true

-- The body of the loop over the steps.
unfoldable pub check_step : List Str → Bool → Str × Step → Checked
check_step step_names has_secrets (name, step) = do
  check_action name step.run step.exec
  check_run name step.run
  for_each (λ path. guard (not (escapes path)) (invalid_artifact_path name path)) step.artifacts
  guard (not (is_some step.secrets && not has_secrets)) (secrets_without_provider name)
  for_each (λ dep. guard (member dep step_names) (unknown_dependency name dep)) step.needs

-- step -> its needs
abbrev pub graph : PipelineFile → NeedsGraph
graph pf = map (λ e. (e.0, e.1.needs)) pf.steps

-- The search never runs out of fuel.
abbrev pub report : (o : Outcome) → o ≢ out_of_fuel → Checked
report (done s) h = ok tt
report (cycle n) h = err (cycle_detected n)
report out_of_fuel h = absurd (h refl)

unfoldable pub validate : (List Str → List Str) → PipelineFile → Checked
validate order pf = do
  guard (eqb pf.version 1) (unsupported_version pf.version)
  check_secrets pf.secrets
  validate_cache pf
  for_each (check_step (keys pf.steps) (is_some pf.secrets)) pf.steps
  report (detect_cycle order (graph pf)) (detect_cycle_returns order (graph pf))

-- `parse`, over the YAML parser `from_str`.
unfoldable pub parse :
    (Str → Result Str PipelineFile)
    → (List Str → List Str)
    → Str
    → Result PipelineError PipelineFile
parse from_str order yaml = elim (from_str yaml) [
  | ok pf ↦ do validate order pf; ok pf
  | err e ↦ err (parse_error e)
]
