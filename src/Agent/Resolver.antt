-- ===== src/Agent/Resolver.antt =====
-- src/agent/mod.rs: which configuration a step gets, and fetching each once. What the provider
-- answers is a parameter, its errors as text.
pub mod Once
pub mod Closed
pub mod Masks
use flowz.Prelude.{
  Str, lit, ◌==◌, Bool, true, false, not, if◌then◌else◌, List, [], ◌∷◌, ◌++◌, Option, none, some,
  Result, ok, err,
}
use flowz.Model.{IndexMap, SecretsConfig, Only, Step, PipelineFile}
use flowz.Secrets.{Pairs, Masker, no_values, add_all}
use flowz.Agent.Events.{Event, fetch}

-- `get` of a map.
unfoldable pub get : {V : Type 0} → IndexMap V → Str → Option V
get [] key = none
get ((k, v) ∷ m) key = if k == key then some v else get m key

abbrev pub only_branch : Option Only → Option Str
only_branch none = none
only_branch (some only) = only.branch

abbrev pub differs : Option Str → Str → Bool
differs none branch = false
differs (some filter) branch = not (filter == branch)

abbrev pub skipped_by_branch : Step → Str → Bool
skipped_by_branch step branch = differs (only_branch step.only) branch

abbrev pub configuration_of : Option SecretsConfig → Option Str → Str → Option Str
configuration_of none step_secrets branch = none
configuration_of (some secrets) (some explicit) branch = some explicit
configuration_of (some secrets) none branch = get secrets.configurations branch

abbrev pub configuration_for : PipelineFile → Option Str → Str → Option Str
configuration_for pf step_secrets branch = configuration_of pf.secrets step_secrets branch

pub record SecretsResolver : Type 0 where
  pub project : Str
  pub cache : IndexMap Pairs
  pub masker : Masker

abbrev pub new_resolver : SecretsConfig → SecretsResolver
new_resolver sc = record { project = sc.project; cache = []; masker = no_values }

abbrev pub Loaded : Type 0
Loaded = List Event × SecretsResolver × Result Str Pairs

-- What `load` does with the answer of the provider.
abbrev pub remember : SecretsResolver → Str → Result Str Pairs → Loaded
remember r configuration (ok pairs) = (
  fetch configuration ∷ [],
  record r { cache = (configuration, pairs) ∷ r.cache; masker = add_all r.masker pairs },
  ok pairs,
)
remember r configuration (err e) = (fetch configuration ∷ [], r, err (lit "secrets: " ++ e))

abbrev pub load_cached :
    (Str → Str → Result Str Pairs) → SecretsResolver → Str → Option Pairs → Loaded
load_cached provider r configuration (some pairs) = ([], r, ok pairs)
load_cached provider r configuration none =
    remember r configuration (provider r.project configuration)

-- `SecretsResolver::load`
unfoldable pub load : (Str → Str → Result Str Pairs) → SecretsResolver → Str → Loaded
unfolding get
load provider r configuration = load_cached provider r configuration (get r.cache configuration)

-- The configuration that a step asks for, if it runs.
abbrev pub wanted : PipelineFile → Str → Step → Option Str
wanted pf branch step =
    if skipped_by_branch step branch then none else configuration_for pf step.secrets branch

-- `load`, where there is a configuration to load.
abbrev pub load_wanted : (Str → Str → Result Str Pairs) → SecretsResolver → Option Str → Loaded
load_wanted provider r none = ([], r, ok [])
load_wanted provider r (some configuration) = load provider r configuration

-- The step and the error that stopped the preflight loop, if one did.
abbrev pub Preflight : Type 0
Preflight = List Event × SecretsResolver × Option (Str × Str)

abbrev pub next_step : Str → (SecretsResolver → Preflight) → Loaded → Preflight
next_step name rest (events, r, ok pairs) =
    let (later, last, stopped) = rest r in (events ++ later, last, stopped)
next_step name rest (events, r, err e) = (events, r, some (name, e))

-- The preflight loop.
unfoldable pub preflight :
    (Str → Str → Result Str Pairs)
    → PipelineFile
    → Str
    → IndexMap Step
    → SecretsResolver
    → Preflight
unfolding load
preflight provider pf branch [] r = ([], r, none)
preflight provider pf branch ((name, step) ∷ steps) r =
    next_step name (preflight provider pf branch steps)
      (load_wanted provider r (wanted pf branch step))
