-- ===== src/Pipeline/Graph.antt =====
-- `detect_cycle` of src/pipeline/mod.rs. The sets `visited` and `in_stack` are lists without
-- repetition, and the recursion of `dfs` takes fuel.
pub mod Walks
pub mod Sets
pub mod Sound
pub mod Complete
pub mod Total
pub mod Correct
use flowz.Prelude.{
  ℕ, zero, suc, Str, Bool, true, false, ◌||◌, ◌==◌, if◌then◌else◌, List, [], ◌∷◌, map, length,
  Option, none, some,
}

-- step -> its needs
abbrev pub NeedsGraph : Type 0
NeedsGraph = List (Str × List Str)

-- `graph.get(node).unwrap_or(&vec![])`
abbrev pub deps : NeedsGraph → Str → List Str
deps [] node = []
deps ((k, needs) ∷ g) node = if k == node then needs else deps g node

-- A `HashSet`: `contains`, `insert` and `remove`.
abbrev pub member : Str → List Str → Bool
member a [] = false
member a (b ∷ s) = b == a || member a s

abbrev pub insert : Str → List Str → List Str
insert a s = if member a s then s else a ∷ s

abbrev pub remove : Str → List Str → List Str
remove a [] = []
remove a (b ∷ s) = if b == a then remove a s else b ∷ remove a s

pub record Search : Type 0 where
  pub visited : List Str
  pub in_stack : List Str

pub data Outcome : Type 0 where
  done : Search → Outcome
  cycle : Str → Outcome
  out_of_fuel : Outcome

-- The loop `for &dep in … { dfs(dep, …)?; }`.
unfoldable pub visit_all : (Str → Search → Outcome) → List Str → Search → Outcome
visit_all visit [] s = done s
visit_all visit (d ∷ ds) s = elim (visit d s) [
  | done s' ↦ visit_all visit ds s'
  | cycle n ↦ cycle n
  | out_of_fuel ↦ out_of_fuel
]

abbrev pub enter : Str → Search → Search
enter node s = record s { in_stack = insert node s.in_stack }

abbrev pub leave : Str → Search → Search
leave node s = record { visited = insert node s.visited; in_stack = remove node s.in_stack }

abbrev pub finish : Str → Outcome → Outcome
finish node (done s) = done (leave node s)
finish node (cycle n) = cycle n
finish node out_of_fuel = out_of_fuel

unfoldable pub dfs : ℕ → NeedsGraph → Str → Search → Outcome
dfs zero g node s = out_of_fuel
dfs (suc fuel) g node s =
    let below = visit_all (dfs fuel g) (deps g node) (enter node s) in
    if member node s.in_stack
    then cycle node
    else if member node s.visited
    then done s
    else finish node below

abbrev pub keys : {V : Type 0} → List (Str × V) → List Str
keys m = map (λ e. e.0) m

-- `order` is the order in which the hash map yields its keys.
unfoldable pub detect_cycle : (List Str → List Str) → NeedsGraph → Outcome
unfolding dfs visit_all
detect_cycle order g =
    visit_all (dfs (suc (length g)) g) (order (keys g)) (record { visited = []; in_stack = [] })
