-- ===== src/Secrets/Hidden.antt =====
-- What the masker promises of the values that were added to it.
use mathlib.Core.List.{Memᴰ}
use flowz.Prelude.{
  ◌≤◌, Str, contains, utf8_len, false, [], ◌∷◌, All, All-mem, All-of_mem, ◌≡◌, ◌≢◌, sym, ⊎_elim,
  inr, subst, arith,
}
use flowz.Secrets.{Masker, Pairs, no_values, add, add_all, mask}
use flowz.Secrets.Sorted.{mem-add_all, LongestFirst, add-LongestFirst}
use flowz.Secrets.Masked.{NoStar, IsMaskable, mask_with-gone}

not-nil_of_long : (v : Str) → 4 ≤ utf8_len v → v ≢ []
not-nil_of_long v h e =
    absurd (subst (λ x. 4 ≤ utf8_len x → ⊥) (sym e) (unfold utf8_len in λ k. omega arith) h)

-- After the values of a configuration were added to an empty masker, each of them that has at least
-- four bytes is absent from every masked line, provided that no value contains the character `*`.
pub mask-hides :
    (pairs : Pairs) (line key v : Str)
    → All (λ p. NoStar p.1) pairs
    → Memᴰ (key, v) pairs
    → 4 ≤ utf8_len v
    → contains (mask (add_all no_values pairs) line) v ≡ false
unfolding mask
mask-hides pairs line key v stars m long =
    let masker = add_all no_values pairs in
    mask_with-gone masker.values line v ((mem-add_all no_values pairs v).1 (inr (key, m, long))) (
      All-of_mem IsMaskable masker.values λ w q.
        ⊎_elim (λ none. elim none [ ])
          (λ (k, r, l). (not-nil_of_long w l, All-mem (λ p. NoStar p.1) r stars))
          ((mem-add_all no_values pairs w).0 q))

add_all-LongestFirst_from :
    (m : Masker) (pairs : Pairs) → LongestFirst m.values → LongestFirst (add_all m pairs).values
unfolding add_all
add_all-LongestFirst_from m [] h = h
add_all-LongestFirst_from m ((key, value) ∷ pairs) h =
    add_all-LongestFirst_from (add m value) pairs (add-LongestFirst m value h)

-- In whatever order values are added to an empty masker, it tries the longest first.
pub add_all-LongestFirst : (pairs : Pairs) → LongestFirst (add_all no_values pairs).values
add_all-LongestFirst pairs = add_all-LongestFirst_from no_values pairs tt
