-- ===== src/Pipeline/Valid.antt =====
-- A pipeline file that keeps every rule, independently of the order in which they are checked.
mod Rules
pub mod Steps
pub mod Cache
pub mod File
use mathlib.Core.List.{Memᴰ}
use flowz.Prelude.{
  ℕ, Str, lit, ◌==◌, ==_iff, is_empty, trim, Bool, true, false, not, eqb, if◌then◌else◌, List, [],
  ◌∷◌, map, All, all, any, Option, none, some, Result, ok, err, ◌>>◌, ◌>>=◌, guard, for_each, ◌≡◌,
  ◌≢◌, ◌↔◌, ◌⊎◌, inl, inr, refl, arith, Result-cases, Bool-cases,
}
use flowz.Model.{IndexMap, PipelineFile, SecretsConfig, Step}
use flowz.Pipeline.Graph.{keys, member, insert, Outcome, done, cycle, out_of_fuel, detect_cycle}
use flowz.Pipeline.Graph.Walks.{IsAcyclic}
use flowz.Pipeline.Graph.Sets.{member_iff, mem-insert}
use flowz.Pipeline.Graph.Correct.{Yields, detect_cycle-IsAcyclic, detect_cycle_returns}
use flowz.Pipeline.{
  PipelineError, Checked, normalize_cache_path, has_parent, valid_cache_name, bad_cache_path,
  validate_cache_from, validate_cache, check_secrets, check_action, escapes, check_run, is_some,
  check_step, graph, report, validate,
}

-- Each name is good, each path is inside what a cache may cover, and no two paths are the same.
abbrev pub ValidCache : IndexMap Str → Type 0
ValidCache [] = Unit
ValidCache ((name, path) ∷ cache) =
    (valid_cache_name name ≡ true)
    × (bad_cache_path (normalize_cache_path path) ≡ false)
    × All (λ e. normalize_cache_path e.1 ≢ normalize_cache_path path) cache
    × ValidCache cache

abbrev pub ValidSecrets : Option SecretsConfig → Type 0
ValidSecrets none = Unit
ValidSecrets (some s) = (s.provider ≡ lit "cfgy") × (trim s.project ≢ [])

-- Exactly one of `run` and `exec`.
abbrev pub OneAction : Option Str → Option Str → Type 0
OneAction (some r) none = Unit
OneAction none (some e) = Unit
OneAction _ _ = ⊥

abbrev pub StaysInside : Option Str → Type 0
StaysInside none = Unit
StaysInside (some run) = escapes run ≡ false

pub record ValidStep (step_names : List Str) (has_secrets : Bool) (step : Step) : Type 0 where
  pub one_action : OneAction step.run step.exec
  pub run_inside : StaysInside step.run
  pub artifacts_inside : All (λ path. escapes path ≡ false) step.artifacts
  pub provided : is_some step.secrets ≡ true → has_secrets ≡ true
  pub known : All (λ dep. Memᴰ dep step_names) step.needs

pub record IsValid (pf : PipelineFile) : Type 0 where
  pub version_one : pf.version ≡ 1
  pub valid_secrets : ValidSecrets pf.secrets
  pub valid_cache : ValidCache pf.cache
  pub valid_steps : All (λ e. ValidStep (keys pf.steps) (is_some pf.secrets) e.1) pf.steps
  pub acyclic : IsAcyclic (graph pf)
