-- ===== src/Pipeline/Tests.antt =====
-- The theorems on pipelines at concrete files.
use flowz.Prelude.{Str, lit, ◌==◌, ◌≢◌, ◌↔◌, List, [], ◌∷◌, none, some, ok, err, ◌≡◌, refl}
use flowz.Model.{PipelineFile, Step}
use flowz.Pipeline.{unsupported_version, validate}
use flowz.Pipeline.Graph.{NeedsGraph, Search, out_of_fuel, done, cycle, detect_cycle}
use flowz.Pipeline.Graph.Walks.{Walk, IsAcyclic}
use flowz.Pipeline.Graph.Correct.{detect_cycle_returns, detect_cycle_sound, detect_cycle-IsAcyclic}
use flowz.Pipeline.Valid.{IsValid}
use flowz.Pipeline.Valid.File.{validate-IsValid}
use flowz.Pipeline.Errors.{Fault}
use flowz.Pipeline.Errors.File.{validate-Fault}

abbrev in_order : List Str → List Str
in_order ks = ks

abbrev a_step : List Str → Step
a_step needs = record {
  run = some (lit "a.sh");
  exec = none;
  needs = needs;
  only = none;
  env = [];
  secrets = none;
  timeout = none;
  artifacts = lit "out" ∷ [];
}

abbrev a_file : PipelineFile
a_file = record {
  version = 1;
  triggers = [];
  env = [];
  secrets = none;
  cache = (lit "deps", lit "./target") ∷ [];
  steps = (lit "build", a_step []) ∷ (lit "test", a_step (lit "build" ∷ [])) ∷ [];
}

-- Each of two steps needs the other.
abbrev ring : NeedsGraph
ring = (lit "a", lit "b" ∷ []) ∷ (lit "b", lit "a" ∷ []) ∷ []

abbrev version_two : PipelineFile
version_two = record a_file { version = 2 }

validate-IsValid_example : (validate in_order a_file ≡ ok tt) ↔ IsValid a_file
validate-IsValid_example = validate-IsValid in_order (λ ks k m. m) a_file

wrong_version : validate in_order version_two ≡ err (unsupported_version 2)
unfolding validate
wrong_version = refl

validate-Fault_example : Fault version_two (unsupported_version 2)
validate-Fault_example = validate-Fault in_order version_two (unsupported_version 2) wrong_version

detect_cycle-IsAcyclic_example :
    ((t : Search) × (detect_cycle in_order ring ≡ done t)) ↔ IsAcyclic ring
detect_cycle-IsAcyclic_example = detect_cycle-IsAcyclic in_order ring (λ ks k m. m)

detect_cycle_returns_example : detect_cycle in_order ring ≢ out_of_fuel
detect_cycle_returns_example = detect_cycle_returns in_order ring

cycle_found : detect_cycle in_order ring ≡ cycle (lit "a")
unfolding detect_cycle ◌==◌
cycle_found = refl

detect_cycle_sound_example : Walk ring (lit "a") (lit "a")
detect_cycle_sound_example = detect_cycle_sound in_order ring (lit "a") cycle_found
