-- ===== src/Workspace/Names.antt =====
-- The names of a cache, of its clone and of its old version are apart.
use mathlib.Core.List.{append_assoc}
use flowz.Prelude.{
  Str, lit, ◌==◌, starts_with, false, ◌||◌, [], ◌∷◌, ◌++◌, append_nil, ◌≡◌, refl, ap, sym, ◌∙◌,
  arith,
}
use flowz.Workspace.Datasets.{touches}

eq_tail : (p s t : Str) → ((p ++ s) == (p ++ t)) ≡ (s == t)
unfolding ◌==◌
eq_tail [] s t = refl
eq_tail (c ∷ p) s t = ground (arith, eq_tail p s t)

starts_with_tail : (p s t : Str) → starts_with (p ++ s) (p ++ t) ≡ starts_with s t
unfolding starts_with
starts_with_tail [] s t = refl
starts_with_tail (c ∷ p) s t = ground (arith, starts_with_tail p s t)

-- What stands in front of two names does not matter.
touches_tail : (p s t : Str) → touches (p ++ s) (p ++ t) ≡ touches s t
unfolding touches
touches_tail p s t =
    ap (λ b. b || starts_with (p ++ t) ((p ++ s) ++ lit "/")) (eq_tail p t s)
    ∙ ap (λ q. (t == s) || starts_with (p ++ t) q) (append_assoc p s (lit "/"))
    ∙ ap (λ b. (t == s) || b) (starts_with_tail p t (s ++ lit "/"))

abbrev pub clone_of : Str → Str → Str
clone_of base run_id = base ++ (lit ".run-" ++ run_id)

abbrev pub old_of : Str → Str → Str
old_of base run_id = base ++ (lit ".old-" ++ run_id)

module _ (base run_id : Str) where
  bare : base ≡ base ++ []
  bare = sym (append_nil base)

  pub base-ne-clone : (base == clone_of base run_id) ≡ false
  unfolding ◌==◌
  base-ne-clone = ap (λ d. d == clone_of base run_id) bare ∙ eq_tail base [] (lit ".run-" ++ run_id)

  pub clone-ne-base : (clone_of base run_id == base) ≡ false
  unfolding ◌==◌
  clone-ne-base = ap (λ d. clone_of base run_id == d) bare ∙ eq_tail base (lit ".run-" ++ run_id) []

  pub base-ne-old : (base == old_of base run_id) ≡ false
  unfolding ◌==◌
  base-ne-old = ap (λ d. d == old_of base run_id) bare ∙ eq_tail base [] (lit ".old-" ++ run_id)

  pub base_apart_clone : touches base (clone_of base run_id) ≡ false
  unfolding touches starts_with ◌==◌
  base_apart_clone =
      ap (λ d. touches d (clone_of base run_id)) bare ∙ touches_tail base [] (lit ".run-" ++ run_id)

  pub old_apart_clone : touches (old_of base run_id) (clone_of base run_id) ≡ false
  unfolding touches starts_with ◌==◌
  old_apart_clone = touches_tail base (lit ".old-" ++ run_id) (lit ".run-" ++ run_id)

  pub old_apart_base : touches (old_of base run_id) base ≡ false
  unfolding touches starts_with ◌==◌
  old_apart_base =
      ap (λ d. touches (old_of base run_id) d) bare ∙ touches_tail base (lit ".old-" ++ run_id) []
