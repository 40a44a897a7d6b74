-- ===== src/Pipeline/Graph/Sets.antt =====
-- The hash sets of `dfs`, as lists.
use mathlib.Core.List.{Memᴰ}
use mathlib.Core.List.Memᴰ
use flowz.Prelude.{
  Str, ◌≡◌, refl, true, false, ==_iff, ==_refl, List, [], ◌∷◌, arith, ◌⊎◌, ◌↔◌, ⊎_elim,
}
use flowz.Pipeline.Graph.{member, insert, remove}

pub Memᴰ-cons : (a x : Str) (xs : List Str) → Memᴰ a (x ∷ xs) ↔ ((a ≡ x) ⊎ Memᴰ a xs)
Memᴰ-cons a x xs = (Memᴰ.cases_cons, ⊎_elim Memᴰ.head Memᴰ.tail)

pub member_iff : (a : Str) (s : List Str) → (member a s ≡ true) ↔ Memᴰ a s
member_iff a [] = (λ h. ground arith, λ m. absurd (Memᴰ.not-nil m))
member_iff a (b ∷ s) = ground (arith, ==_iff b a, member_iff a s, Memᴰ-cons a b s)

pub mem-insert : (a b : Str) (s : List Str) → Memᴰ b (insert a s) ↔ ((b ≡ a) ⊎ Memᴰ b s)
mem-insert a b s = ground (arith, member_iff a s, Memᴰ-cons b a s)

pub remove_absent : (a : Str) (s : List Str) → member a s ≡ false → remove a s ≡ s
remove_absent a [] h = refl
remove_absent a (b ∷ s) h = ground (arith, remove_absent a s)

-- What is entered and left again is as before.
pub remove-insert : (a : Str) (s : List Str) → member a s ≡ false → remove a (insert a s) ≡ s
remove-insert a s h = ground (arith, remove_absent a s, ==_refl a)
