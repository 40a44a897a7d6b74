-- ===== src/Pipeline/Graph/Walks.antt =====
-- What a dependency cycle is, independently of the search.
use mathlib.Core.List.{Memᴰ}
use flowz.Prelude.{Str, ◌≡◌, refl, ◌⊎◌, inl, inr, ⊎_elim}
use flowz.Pipeline.Graph.{NeedsGraph, deps}

-- `a` needs `b`.
abbrev pub Needs : NeedsGraph → Str → Str → Type 0
Needs g a b = Memᴰ b (deps g a)

-- A walk along at least one edge.
pub data Walk (g : NeedsGraph) (a : Str) : Str → Type 0 where
  edge : {b : Str} → Needs g a b → Walk g a b
  then_edge : {b c : Str} → Walk g a b → Needs g b c → Walk g a c

abbrev pub IsAcyclic : NeedsGraph → Type 0
IsAcyclic g = (a : Str) → ¬ Walk g a a

-- All walks from `a` are finite.
pub data IsFinite (g : NeedsGraph) : Str → Type 0 where
  finite : {a : Str} → ((b : Str) → Needs g a b → IsFinite g b) → IsFinite g a

pub IsFinite-Needs : {g : NeedsGraph} {a b : Str} → IsFinite g a → Needs g a b → IsFinite g b
IsFinite-Needs (finite f) e = f _ e

pub Walk-trans : {g : NeedsGraph} {a b c : Str} → Walk g a b → Walk g b c → Walk g a c
Walk-trans w (edge e) = then_edge w e
Walk-trans w (then_edge v e) = then_edge (Walk-trans w v) e

-- The first edge of a walk.
first_edge :
    {g : NeedsGraph} {a b : Str} → Walk g a b → (c : Str) × Needs g a c × ((c ≡ b) ⊎ Walk g c b)
first_edge (edge e) = (_, e, inl refl)
first_edge (then_edge w e) =
    let (c, first, rest) = first_edge w in
    (c, first, inr (⊎_elim (λ same. edge (rw same e)) (λ v. then_edge v e) rest))

-- A closed walk can begin at its second vertex.
rotate : {g : NeedsGraph} {a : Str} → Walk g a a → (c : Str) × Needs g a c × Walk g c c
rotate w =
    let (c, first, rest) = first_edge w in
    (c, first, ⊎_elim (λ same. edge (rw same (rw same at first))) (λ v. then_edge v first) rest)

pub not-Walk_of_IsFinite : {g : NeedsGraph} {a : Str} → IsFinite g a → ¬ Walk g a a
not-Walk_of_IsFinite (finite f) w =
    let (c, first, v) = rotate w in not-Walk_of_IsFinite (f c first) v
