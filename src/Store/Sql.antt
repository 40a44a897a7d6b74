-- ===== src/Store/Sql.antt =====
-- What the queries use of the database engine: `ORDER BY`, which leaves the order of equal rows
-- open. It is a parameter with its laws.
pub mod Insertion
use mathlib.Core.List.{Memᴰ}
use mathlib.Core.List.Memᴰ
use flowz.Prelude.{
  ℕ, Bool, true, false, List, [], ◌∷◌, ◌≡◌, refl, ◌↔◌, ◌⊎◌, inl, inr, ⊎_elim, All, length,
  if◌then◌else◌, Bool-cases, arith, ap, ◌∙◌, suc,
}

-- `le a b`: the row `a` may stand before `b`.
pub record IsOrder {A : Type 0} (le : A → A → Bool) : Type 0 where
  pub total : (a b : A) → le a b ≡ false → le b a ≡ true
  pub trans : (a b c : A) → le a b ≡ true → le b c ≡ true → le a c ≡ true

abbrev pub IsSorted : {A : Type 0} → (A → A → Bool) → List A → Type 0
IsSorted le [] = Unit
IsSorted le (x ∷ xs) = All (λ y. le x y ≡ true) xs × IsSorted le xs

pub record Engine : Type 1 where
  pub order_by : (A : Type 0) → (A → A → Bool) → List A → List A
  pub order_by-mem :
      (A : Type 0) (le : A → A → Bool) (xs : List A) (a : A) → Memᴰ a (order_by A le xs) ↔ Memᴰ a xs
  pub order_by-length :
      (A : Type 0) (le : A → A → Bool) (xs : List A) → length (order_by A le xs) ≡ length xs
  pub order_by-IsSorted :
      (A : Type 0) (le : A → A → Bool) → IsOrder le → (xs : List A) → IsSorted le (order_by A le xs)
