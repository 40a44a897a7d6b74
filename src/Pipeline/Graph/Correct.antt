-- ===== src/Pipeline/Graph/Correct.antt =====
-- `detect_cycle` decides whether the needs of the steps are free of cycles.
use mathlib.Core.List.{Memᴰ}
use flowz.Prelude.{
  suc, Str, ◌≡◌, ◌≢◌, refl, sym, List, [], ◌∷◌, inl, inr, ◌↔◌, length, ==_iff, ◌==◌, Bool-cases,
}
use flowz.Pipeline.Graph.{NeedsGraph, keys, Search, done, cycle, out_of_fuel, detect_cycle}
use flowz.Pipeline.Graph.Walks.{Needs, Walk, edge, then_edge, IsAcyclic, not-Walk_of_IsFinite}
use flowz.Pipeline.Graph.Sound.{Outcome-cases, search-cycle}
use flowz.Pipeline.Graph.Complete.{search-FinishesAll}
use flowz.Pipeline.Graph.Total.{search_returns}

-- The hash map yields each of its keys, in an order of its own.
abbrev pub Yields : (List Str → List Str) → Type 0
Yields order = (ks : List Str) (k : Str) → Memᴰ k ks → Memᴰ k (order ks)

-- A node that needs something is a key.
key_of_needs : (g : NeedsGraph) {a b : Str} → Needs g a b → Memᴰ a (keys g)
key_of_needs [] e = elim e [ ]
key_of_needs ((k, needs) ∷ g) {a} e = elim (Bool-cases (k == a)) [
  | inl same ↦ Memᴰ.head (sym ((==_iff k a).0 same))
  | inr other ↦ Memᴰ.tail (key_of_needs g (rw other at e))
]

first-Needs : {g : NeedsGraph} {a b : Str} → Walk g a b → (c : Str) × Needs g a c
first-Needs (edge e) = (_, e)
first-Needs (then_edge w e) = first-Needs w

-- The search ends within its fuel, whatever the graph and the order of the keys.
pub detect_cycle_returns :
    (order : List Str → List Str) (g : NeedsGraph) → detect_cycle order g ≢ out_of_fuel
detect_cycle_returns order g =
    unfold detect_cycle in
    search_returns g (order (keys g)) (record { visited = []; in_stack = [] }) refl

-- A step that is reported lies on a cycle of needs.
pub detect_cycle_sound :
    (order : List Str → List Str) (g : NeedsGraph) (n : Str)
    → detect_cycle order g ≡ cycle n
    → Walk g n n
detect_cycle_sound order g n h =
    search-cycle (suc (length g)) g (order (keys g)) (record { visited = []; in_stack = [] }) n refl
      (unfold detect_cycle in h)

done-IsAcyclic :
    (order : List Str → List Str) (g : NeedsGraph) (t : Search)
    → Yields order
    → detect_cycle order g ≡ done t
    → IsAcyclic g
done-IsAcyclic order g t yields h a w =
    let all =
      search-FinishesAll (suc (length g)) g (order (keys g))
        (record { visited = []; in_stack = [] }) t (unfold detect_cycle in h) in
    let visited = all.all_visited a (yields (keys g) a (key_of_needs g (first-Needs w).1)) in
    not-Walk_of_IsFinite (all.all_finite (λ v m. elim m [ ]) a visited) w

-- If the hash map yields each of its keys, the search succeeds exactly when no chain of needs
-- returns to its step.
pub detect_cycle-IsAcyclic :
    (order : List Str → List Str) (g : NeedsGraph)
    → Yields order
    → ((t : Search) × (detect_cycle order g ≡ done t)) ↔ IsAcyclic g
detect_cycle-IsAcyclic order g yields = (
  λ (t, h). done-IsAcyclic order g t yields h,
  λ acyclic. elim (Outcome-cases (detect_cycle order g)) [
    | inl found ↦ found
    | inr (inl (n, h)) ↦ absurd (acyclic n (detect_cycle_sound order g n h))
    | inr (inr h) ↦ absurd (detect_cycle_returns order g h)
  ],
)
