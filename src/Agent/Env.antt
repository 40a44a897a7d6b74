-- ===== src/Agent/Env.antt =====
-- src/agent/mod.rs: the environment of a step.
pub mod Priority
use flowz.Prelude.{Str, ◌==◌, Bool, true, false, if◌then◌else◌, List, [], ◌∷◌}
use flowz.Model.{IndexMap, PipelineFile, Step}
use flowz.Secrets.{Pairs}

-- `IndexMap::insert`: a key that is there keeps its place.
unfoldable pub put : {V : Type 0} → IndexMap V → Str → V → IndexMap V
put [] key v = (key, v) ∷ []
put ((k, w) ∷ m) key v = let later = put m key v in if k == key then (k, v) ∷ m else (k, w) ∷ later

-- `IndexMap::extend`
unfoldable pub extend : {V : Type 0} → IndexMap V → List (Str × V) → IndexMap V
unfolding put
extend m [] = m
extend m ((k, v) ∷ entries) = extend (put m k v) entries

-- `merged`: the pipeline's variables, then the secrets, then those of the step.
unfoldable pub merged : PipelineFile → Pairs → Step → IndexMap Str
unfolding extend
merged pf pairs step = extend (extend pf.env pairs) step.env
