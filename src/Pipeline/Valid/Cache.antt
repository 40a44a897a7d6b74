-- ===== src/Pipeline/Valid/Cache.antt =====
-- When the checks of the cache section pass.
use mathlib.Core.List.{Memᴰ}
use flowz.Prelude.{
  Str, true, not, List, [], ◌∷◌, All, ok, ◌≡◌, ◌≢◌, ◌↔◌, inl, inr, ⊎_elim, refl, Bool-cases,
}
use flowz.Model.{IndexMap, PipelineFile}
use flowz.Pipeline.Graph.{member, insert}
use flowz.Pipeline.Graph.Sets.{member_iff, mem-insert}
use flowz.Pipeline.{normalize_cache_path, validate_cache_from, validate_cache}
use flowz.Pipeline.Valid.{ValidCache}
use flowz.Pipeline.Valid.Rules.{seq-ok, guard-ok, not-true}

-- None of the cache's paths has been seen.
abbrev Unseen : List Str → IndexMap Str → Type 0
Unseen seen cache = All (λ e. ¬ Memᴰ (normalize_cache_path e.1) seen) cache

Unseen-insert :
    (norm : Str) (seen : List Str) (cache : IndexMap Str)
    → Unseen (insert norm seen) cache
      ↔ (All (λ e. normalize_cache_path e.1 ≢ norm) cache × Unseen seen cache)
Unseen-insert norm seen [] = (λ _. (tt, tt), λ _. tt)
Unseen-insert norm seen ((name, path) ∷ cache) =
    let here = mem-insert norm (normalize_cache_path path) seen in
    let (to, from) = Unseen-insert norm seen cache in
    (
      λ h.
          let (fresh, old) = to h.1 in
          ((λ e. h.0 (here.1 (inl e)), fresh), (λ m. h.0 (here.1 (inr m)), old)),
      λ h. (λ m. ⊎_elim h.0.0 h.1.0 (here.0 m), from (h.0.1, h.1.1)),
    )

not-member : (a : Str) (s : List Str) → (not (member a s) ≡ true) ↔ (¬ Memᴰ a s)
not-member a s = (
  λ h m. cc ((member_iff a s).1 m, (not-true (member a s)).0 h),
  λ h. (not-true (member a s)).1 (elim (Bool-cases (member a s)) [
    | inl on ↦ absurd (h ((member_iff a s).0 on))
    | inr off ↦ off
  ]),
)

validate_cache_from-ok :
    (seen : List Str) (cache : IndexMap Str)
    → (validate_cache_from seen cache ≡ ok tt) ↔ (ValidCache cache × Unseen seen cache)
unfolding validate_cache_from
validate_cache_from-ok seen [] = (λ _. (tt, tt), λ _. refl)
validate_cache_from-ok seen ((name, path) ∷ cache) =
    let norm = normalize_cache_path path in
    let (to, from) = validate_cache_from-ok (insert norm seen) cache in
    let (open_set, close_set) = Unseen-insert norm seen cache in
    (
      λ h.
          let (h1, r1) = (seq-ok _ _).0 h in
          let (h2, r2) = (seq-ok _ _).0 r1 in
          let (h3, r3) = (seq-ok _ _).0 r2 in
          let (valid, unseen) = to r3 in
          let (distinct, old) = open_set unseen in
          (
            ((guard-ok _ _).0 h1, (not-true _).0 ((guard-ok _ _).0 h2), distinct, valid),
            ((not-member norm seen).0 ((guard-ok _ _).0 h3), old),
          ),
      λ ((name_ok, path_ok, distinct, valid), (new, old)). (seq-ok _ _).1 (
        (guard-ok _ _).1 name_ok,
        (seq-ok _ _).1 (
          (guard-ok _ _).1 ((not-true _).1 path_ok),
          (seq-ok _ _).1 (
            (guard-ok _ _).1 ((not-member norm seen).1 new),
            from (valid, close_set (distinct, old)),
          ),
        ),
      ),
    )

nothing_seen : (cache : IndexMap Str) → Unseen [] cache
nothing_seen [] = tt
nothing_seen (e ∷ cache) = (λ m. elim m [ ], nothing_seen cache)

pub validate_cache-ok : (pf : PipelineFile) → (validate_cache pf ≡ ok tt) ↔ ValidCache pf.cache
unfolding validate_cache
validate_cache-ok pf = (
  λ h. ((validate_cache_from-ok [] pf.cache).0 h).0,
  λ v. (validate_cache_from-ok [] pf.cache).1 (v, nothing_seen pf.cache),
)
