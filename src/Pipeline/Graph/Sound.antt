-- ===== src/Pipeline/Graph/Sound.antt =====
-- A reported cycle is one.
use mathlib.Core.List.{Memᴰ}
use flowz.Prelude.{
  ℕ, zero, suc, Str, ◌≡◌, refl, ◌∙◌, sym, true, false, List, [], ◌∷◌, arith, ◌⊎◌, inl, inr, ⊎_elim,
  Bool, Bool-cases, subst, ap, if◌then◌else◌,
}
use flowz.Pipeline.Graph.{
  NeedsGraph, deps, member, Search, Outcome, done, cycle, out_of_fuel, visit_all, enter, finish,
  dfs, leave, remove,
}
use flowz.Pipeline.Graph.Walks.{Needs, Walk, edge, then_edge}
use flowz.Pipeline.Graph.Sets.{member_iff, mem-insert, remove-insert}

pub Outcome-cases :
    (o : Outcome)
    → ((t : Search) × (o ≡ done t)) ⊎ (((n : Str) × (o ≡ cycle n)) ⊎ (o ≡ out_of_fuel))
Outcome-cases (done t) = inl (t, refl)
Outcome-cases (cycle n) = inr (inl (n, refl))
Outcome-cases out_of_fuel = inr (inr refl)

-- A visit that returns leaves the stack as it was.
abbrev pub Restores : (Str → Search → Outcome) → Type 0
Restores visit = (d : Str) (s t : Search) → visit d s ≡ done t → t.in_stack ≡ s.in_stack

pub visit_all-in_stack :
    (visit : Str → Search → Outcome)
    → Restores visit
    → (ds : List Str) (s t : Search) → visit_all visit ds s ≡ done t
    → t.in_stack ≡ s.in_stack
unfolding visit_all
visit_all-in_stack visit r [] s t h = ground arith
visit_all-in_stack visit r (d ∷ ds) s t h = elim (Outcome-cases (visit d s)) [
  | inl (u, e) ↦ visit_all-in_stack visit r ds u t (rw (e, visit_all) at h) ∙ r d s u e
  | inr (inl (n, e)) ↦ ground arith
  | inr (inr e) ↦ ground arith
]

done_injective : {s t : Search} → done s ≡ done t → s ≡ t
done_injective h = cc

-- What a visit that returns has done, for any outcomes of its two tests and of the loop below it.
settled :
    (node : Str) (s t : Search) (on old : Bool) (below : Outcome)
    → (if on then cycle node else if old then done s else finish node below) ≡ done t
    → (old ≡ true) × (s ≡ t) ⊎ (on ≡ false) × ((u : Search) × (below ≡ done u) × (leave node u ≡ t))
settled node s t true old below h = absurd (cc)
settled node s t false true below h = inl (refl, ground arith)
settled node s t false false (done u) h = inr (refl, (u, refl, done_injective h))
settled node s t false false (cycle n) h = absurd (cc)
settled node s t false false out_of_fuel h = absurd (cc)

pub dfs-done :
    (fuel : ℕ) (g : NeedsGraph) (node : Str) (s t : Search)
    → dfs (suc fuel) g node s ≡ done t
    → (member node s.visited ≡ true) × (s ≡ t)
      ⊎ (member node s.in_stack ≡ false)
        × ((u : Search) × (visit_all (dfs fuel g) (deps g node) (enter node s) ≡ done u)
            × (leave node u ≡ t))
unfolding dfs
dfs-done fuel g node s t h = settled node s t _ _ _ h

pub dfs-in_stack : (fuel : ℕ) (g : NeedsGraph) → Restores (dfs fuel g)
dfs-in_stack zero g node s t h = absurd (unfold dfs in cc)
dfs-in_stack (suc fuel) g node s t h = elim (dfs-done fuel g node s t h) [
  | inl (_, same) ↦ ap (λ (x : Search). x.in_stack) (sym same)
  | inr (off, (u, e, same)) ↦
      let kept =
        visit_all-in_stack (dfs fuel g) (dfs-in_stack fuel g) (deps g node) (enter node s) u e in
      ap (λ (x : Search). x.in_stack) (sym same)
      ∙ (ap (remove node) kept ∙ remove-insert node s.in_stack off)
]

-- A cycle that the loop reports was reported by the visit of one of its nodes.
visit_all-cycle :
    (visit : Str → Search → Outcome)
    → Restores visit
    → (ds : List Str) (s : Search) (n : Str) → visit_all visit ds s ≡ cycle n
    → (d : Str) × (u : Search) × Memᴰ d ds × (u.in_stack ≡ s.in_stack) × (visit d u ≡ cycle n)
unfolding visit_all
visit_all-cycle visit r [] s n h = ground arith
visit_all-cycle visit r (d ∷ ds) s n h = elim (Outcome-cases (visit d s)) [
  | inl (u, e) ↦
      let (c, w, m, same, found) = visit_all-cycle visit r ds u n (rw (e, visit_all) at h) in
      (c, w, Memᴰ.tail m, same ∙ r d s u e, found)
  | inr (inl (k, e)) ↦ (d, s, Memᴰ.head refl, refl, ground arith)
  | inr (inr e) ↦ ground arith
]

-- From every node of the stack a walk leads to the node that is visited next.
abbrev pub LeadsTo : NeedsGraph → List Str → Str → Type 0
LeadsTo g stack node = (m : Str) → Memᴰ m stack → Walk g m node

LeadsTo-enter :
    (g : NeedsGraph) (node d : Str) (s : Search)
    → LeadsTo g s.in_stack node
    → Needs g node d
    → LeadsTo g (enter node s).in_stack d
LeadsTo-enter g node d s h e m q =
    ⊎_elim (λ same. edge (rw same e)) (λ old. then_edge (h m old) e)
      ((mem-insert node m s.in_stack).0 q)

pub dfs-cycle :
    (fuel : ℕ) (g : NeedsGraph) (node : Str) (s : Search) (n : Str)
    → LeadsTo g s.in_stack node
    → dfs fuel g node s ≡ cycle n
    → Walk g n n
unfolding dfs
dfs-cycle zero g node s n h e = ground arith
dfs-cycle (suc fuel) g node s n h e = elim (Bool-cases (member node s.in_stack)) [
  | inl on ↦
      let same : node ≡ n = ground arith in
      subst (λ x. Walk g x x) same (h node ((member_iff node s.in_stack).0 on))
  | inr off ↦
      let below : visit_all (dfs fuel g) (deps g node) (enter node s) ≡ cycle n = ground arith in
      let (d, u, m, same, found) =
        visit_all-cycle (dfs fuel g) (dfs-in_stack fuel g) (deps g node) (enter node s) n below in
      dfs-cycle fuel g d u n (subst (λ x. LeadsTo g x d) (sym same) (LeadsTo-enter g node d s h m))
        found
]

-- The same for the outermost loop, which begins with an empty stack.
pub search-cycle :
    (fuel : ℕ) (g : NeedsGraph) (ds : List Str) (s : Search) (n : Str)
    → s.in_stack ≡ []
    → visit_all (dfs fuel g) ds s ≡ cycle n
    → Walk g n n
search-cycle fuel g ds s n empty h =
    let (d, u, m, same, found) = visit_all-cycle (dfs fuel g) (dfs-in_stack fuel g) ds s n h in
    dfs-cycle fuel g d u n (λ c q. elim (subst (Memᴰ c) (same ∙ empty) q) [ ]) found
