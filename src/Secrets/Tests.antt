-- ===== src/Secrets/Tests.antt =====
-- The theorems on the masker at concrete values.
use mathlib.Core.List.{Memᴰ}
use flowz.Prelude.{Str, All, lit, contains, utf8_len, false, [], ◌∷◌, ◌≡◌, refl, arith}
use flowz.Secrets.{Pairs, no_values, add_all, mask}
use flowz.Secrets.Masked.{NoStar}
use flowz.Secrets.Hidden.{mask-hides}

abbrev pairs : Pairs
pairs = (lit "A", lit "hunt") ∷ (lit "B", lit "hunter2") ∷ []

no_stars : All (λ (p : Str × Str). NoStar p.1) pairs
no_stars = ground arith

mask-hides_example :
    contains (mask (add_all no_values pairs) (lit "x=hunter2")) (lit "hunter2") ≡ false
unfolding utf8_len
mask-hides_example =
    mask-hides pairs (lit "x=hunter2") (lit "B") (lit "hunter2") no_stars
      (Memᴰ.tail (Memᴰ.head refl)) (omega arith)
