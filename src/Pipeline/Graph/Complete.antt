-- ===== src/Pipeline/Graph/Complete.antt =====
-- From a node that the search has finished with, all walks are finite.
use mathlib.Core.List.{Memᴰ}
use mathlib.Core.List.Memᴰ
use flowz.Prelude.{ℕ, zero, suc, Str, ◌≡◌, refl, List, [], ◌∷◌, arith, subst, inl, inr, ⊎_elim}
use flowz.Pipeline.Graph.{NeedsGraph, deps, Search, Outcome, done, visit_all, enter, leave, dfs}
use flowz.Pipeline.Graph.Walks.{IsFinite, finite}
use flowz.Pipeline.Graph.Sets.{member_iff, mem-insert}
use flowz.Pipeline.Graph.Sound.{Outcome-cases, dfs-done}

-- Nothing is forgotten, and what is visited has only finite walks.
abbrev pub AllFinite : NeedsGraph → Search → Type 0
AllFinite g s = (v : Str) → Memᴰ v s.visited → IsFinite g v

abbrev pub Grows : Search → Search → Type 0
Grows s t = (v : Str) → Memᴰ v s.visited → Memᴰ v t.visited

pub record Finishes (g : NeedsGraph) (node : Str) (s t : Search) : Type 0 where
  pub grows : Grows s t
  pub all_finite : AllFinite g s → AllFinite g t
  pub node_visited : Memᴰ node t.visited

abbrev pub Visits : NeedsGraph → (Str → Search → Outcome) → Type 0
Visits g visit = (d : Str) (s t : Search) → visit d s ≡ done t → Finishes g d s t

pub record FinishesAll (g : NeedsGraph) (ds : List Str) (s t : Search) : Type 0 where
  pub grows : Grows s t
  pub all_finite : AllFinite g s → AllFinite g t
  pub all_visited : (d : Str) → Memᴰ d ds → Memᴰ d t.visited

visit_all-FinishesAll :
    (g : NeedsGraph) (visit : Str → Search → Outcome)
    → Visits g visit
    → (ds : List Str) (s t : Search) → visit_all visit ds s ≡ done t
    → FinishesAll g ds s t
unfolding visit_all
visit_all-FinishesAll g visit f [] s t h =
    let same : s ≡ t = ground arith in
    subst (FinishesAll g [] s) same
      (record { grows = λ v m. m; all_finite = λ a. a; all_visited = λ d m. elim m [ ] })
visit_all-FinishesAll g visit f (d ∷ ds) s t h = elim (Outcome-cases (visit d s)) [
  | inl (u, e) ↦
      let one = f d s u e in
      let rest = visit_all-FinishesAll g visit f ds u t (rw (e, visit_all) at h) in
      record {
        grows = λ v m. rest.grows v (one.grows v m);
        all_finite = λ a. rest.all_finite (one.all_finite a);
        all_visited = λ c m.
            ⊎_elim (λ same. rw same (rest.grows d one.node_visited)) (rest.all_visited c)
              (Memᴰ.cases_cons m);
      }
  | inr (inl (n, e)) ↦ absurd (ground arith)
  | inr (inr e) ↦ absurd (ground arith)
]

Finishes-leave :
    (g : NeedsGraph) (node : Str) (s u : Search)
    → FinishesAll g (deps g node) (enter node s) u
    → Finishes g node s (leave node u)
Finishes-leave g node s u h = record {
  grows = λ v m. (mem-insert node v u.visited).1 (inr (h.grows v m));
  all_finite = λ a v m.
      ⊎_elim (λ same. rw same (finite (λ b e. h.all_finite a b (h.all_visited b e))))
        (h.all_finite a v) ((mem-insert node v u.visited).0 m);
  node_visited = (mem-insert node node u.visited).1 (inl refl);
}

pub dfs-Finishes : (fuel : ℕ) (g : NeedsGraph) → Visits g (dfs fuel g)
dfs-Finishes zero g node s t h = absurd (unfold dfs in cc)
dfs-Finishes (suc fuel) g node s t h = elim (dfs-done fuel g node s t h) [
  | inl (old, same) ↦ subst (Finishes g node s) same (record {
    grows = λ v m. m;
    all_finite = λ a. a;
    node_visited = (member_iff node s.visited).0 old;
  })
  | inr (_, (u, e, same)) ↦ subst (Finishes g node s) same (
      Finishes-leave g node s u (
        visit_all-FinishesAll g (dfs fuel g) (dfs-Finishes fuel g) (deps g node) (enter node s) u
          e))
]

pub search-FinishesAll :
    (fuel : ℕ) (g : NeedsGraph) (ds : List Str) (s t : Search)
    → visit_all (dfs fuel g) ds s ≡ done t
    → FinishesAll g ds s t
search-FinishesAll fuel g = visit_all-FinishesAll g (dfs fuel g) (dfs-Finishes fuel g)
