-- ===== src/Pipeline/Graph/Total.antt =====
-- The fuel of `detect_cycle` suffices: each call deeper puts one more key on the stack.
use mathlib.Core.List.{Memᴰ}
use flowz.Prelude.{
  ℕ, zero, suc, ◌≤◌, ◌<◌, Str, ◌≡◌, ◌≢◌, refl, true, false, ◌==◌, ==_iff, List, [], ◌∷◌, arith, inl,
  inr, Bool, Bool-cases, if◌then◌else◌, length, ◌∙◌,
}
use flowz.Pipeline.Graph.{
  NeedsGraph, deps, member, insert, Search, Outcome, done, cycle, out_of_fuel, visit_all, enter,
  finish, dfs,
}
use flowz.Pipeline.Graph.Sound.{Outcome-cases, Restores, dfs-in_stack}
use flowz.Pipeline.Graph.Sets.{mem-insert, member_iff}

-- The entries of the graph that are not on the stack.
abbrev free : NeedsGraph → List Str → ℕ
free [] stack = 0
free ((k, needs) ∷ g) stack = if member k stack then free g stack else suc (free g stack)

free-le-length : (g : NeedsGraph) (stack : List Str) → free g stack ≤ length g
free-le-length [] stack = omega arith
free-le-length ((k, needs) ∷ g) stack = ground (arith, free-le-length g stack)

free-insert-le :
    (g : NeedsGraph) (node : Str) (stack : List Str) → free g (insert node stack) ≤ free g stack
free-insert-le [] node stack = omega arith
free-insert-le ((k, needs) ∷ g) node stack = ground (
  arith,
  free-insert-le g node stack,
  member_iff k stack,
  member_iff k (insert node stack),
  mem-insert node k stack,
)

-- A node that needs something is an entry.
free-insert :
    (g : NeedsGraph) (node d : Str) (stack : List Str)
    → Memᴰ d (deps g node)
    → member node stack ≡ false
    → free g (insert node stack) < free g stack
free-insert [] node d stack m off = elim m [ ]
free-insert ((k, needs) ∷ g) node d stack m off = elim (Bool-cases (k == node)) [
  | inl same ↦
      let key : k ≡ node = (==_iff k node).0 same in
      let out : member k stack ≡ false = rw key off in
      let now : member k (insert node stack) ≡ true =
        (member_iff k (insert node stack)).1 ((mem-insert node k stack).1 (inl key)) in
      ground (arith, free-insert-le g node stack)
  | inr other ↦
      let rest = free-insert g node d stack (rw other at m) off in
      ground (
        arith,
        rest,
        member_iff k stack,
        member_iff k (insert node stack),
        mem-insert node k stack,
        ==_iff k node,
      )
]

visit_all_returns :
    (visit : Str → Search → Outcome) (ds : List Str) (s : Search)
    → Restores visit
    → ((d : Str) (u : Search) → Memᴰ d ds → u.in_stack ≡ s.in_stack → visit d u ≢ out_of_fuel)
    → visit_all visit ds s ≢ out_of_fuel
unfolding visit_all
visit_all_returns visit [] s r ret e = absurd (cc)
visit_all_returns visit (d ∷ ds) s r ret e = elim (Outcome-cases (visit d s)) [
  | inl (u, f) ↦
      visit_all_returns visit ds u r (λ c v m same. ret c v (Memᴰ.tail m) (same ∙ r d s u f))
        (rw (f, visit_all) at e)
  | inr (inl (n, f)) ↦ ground arith
  | inr (inr f) ↦ ret d s (Memᴰ.head refl) refl f
]

-- Only the loop below a node can run out of fuel.
exhausted :
    (node : Str) (s : Search) (on old : Bool) (below : Outcome)
    → (if on then cycle node else if old then done s else finish node below) ≡ out_of_fuel
    → (on ≡ false) × (below ≡ out_of_fuel)
exhausted node s true old below h = absurd (cc)
exhausted node s false true below h = absurd (cc)
exhausted node s false false (done u) h = absurd (cc)
exhausted node s false false (cycle n) h = absurd (cc)
exhausted node s false false out_of_fuel h = (refl, refl)

dfs-out_of_fuel :
    (fuel : ℕ) (g : NeedsGraph) (node : Str) (s : Search)
    → dfs (suc fuel) g node s ≡ out_of_fuel
    → (member node s.in_stack ≡ false)
      × (visit_all (dfs fuel g) (deps g node) (enter node s) ≡ out_of_fuel)
unfolding dfs
dfs-out_of_fuel fuel g node s h = exhausted node s _ _ _ h

dfs_returns :
    (fuel : ℕ) (g : NeedsGraph) (node : Str) (s : Search)
    → free g s.in_stack < fuel
    → dfs fuel g node s ≢ out_of_fuel
dfs_returns zero g node s h e = absurd (omega arith)
dfs_returns (suc fuel) g node s h e =
    let (off, below) = dfs-out_of_fuel fuel g node s e in
    visit_all_returns (dfs fuel g) (deps g node) (enter node s) (dfs-in_stack fuel g)
      (λ d u m same.
        dfs_returns fuel g d u (rw same (omega (arith, free-insert g node d s.in_stack m off))))
      below

pub search_returns :
    (g : NeedsGraph) (ds : List Str) (s : Search)
    → s.in_stack ≡ []
    → visit_all (dfs (suc (length g)) g) ds s ≢ out_of_fuel
search_returns g ds s empty =
    visit_all_returns (dfs (suc (length g)) g) ds s (dfs-in_stack (suc (length g)) g)
      λ d u m same. dfs_returns (suc (length g)) g d u (omega (arith, free-le-length g u.in_stack))
