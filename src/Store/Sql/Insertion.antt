-- ===== src/Store/Sql/Insertion.antt =====
-- Insertion sort keeps the laws of `ORDER BY`.
use mathlib.Core.List.{Memᴰ}
use mathlib.Core.List.Memᴰ
use flowz.Prelude.{
  Bool, true, List, [], ◌∷◌, ◌≡◌, refl, ◌↔◌, ◌⊎◌, inl, inr, ⊎_elim, All, length, if◌then◌else◌,
  Bool-cases, arith, ap, ◌∙◌, suc,
}
use flowz.Store.Sql.{IsOrder, IsSorted, Engine}

module _ {A : Type 0} (le : A → A → Bool) where
  abbrev pub insert_row : A → List A → List A
  insert_row x [] = x ∷ []
  insert_row x (y ∷ ys) = let later = insert_row x ys in if le x y then x ∷ y ∷ ys else y ∷ later

  abbrev pub sort_rows : List A → List A
  sort_rows [] = []
  sort_rows (x ∷ xs) = insert_row x (sort_rows xs)

  cons_iff : (a x : A) (xs : List A) → Memᴰ a (x ∷ xs) ↔ ((a ≡ x) ⊎ Memᴰ a xs)
  cons_iff a x xs = (Memᴰ.cases_cons, ⊎_elim Memᴰ.head Memᴰ.tail)

  mem-insert_row : (x a : A) (ys : List A) → Memᴰ a (insert_row x ys) ↔ ((a ≡ x) ⊎ Memᴰ a ys)
  mem-insert_row x a [] = cons_iff a x []
  mem-insert_row x a (y ∷ ys) = ground (
    arith,
    mem-insert_row x a ys,
    cons_iff a y ys,
    cons_iff a y (insert_row x ys),
    cons_iff a x (y ∷ ys),
  )

  pub mem-sort_rows : (xs : List A) (a : A) → Memᴰ a (sort_rows xs) ↔ Memᴰ a xs
  mem-sort_rows [] a = (λ m. m, λ m. m)
  mem-sort_rows (x ∷ xs) a =
      ground (arith, mem-sort_rows xs a, mem-insert_row x a (sort_rows xs), cons_iff a x xs)

  length-insert_row : (x : A) (ys : List A) → length (insert_row x ys) ≡ suc (length ys)
  length-insert_row x [] = refl
  length-insert_row x (y ∷ ys) = ground (arith, length-insert_row x ys)

  pub length-sort_rows : (xs : List A) → length (sort_rows xs) ≡ length xs
  length-sort_rows [] = refl
  length-sort_rows (x ∷ xs) = length-insert_row x (sort_rows xs) ∙ ap suc (length-sort_rows xs)

  module _ (ord : IsOrder le) where
    All-insert_row :
        (z x : A) (ys : List A)
        → le z x ≡ true
        → All (λ y. le z y ≡ true) ys
        → All (λ y. le z y ≡ true) (insert_row x ys)
    All-insert_row z x [] h k = (h, tt)
    All-insert_row z x (y ∷ ys) h k = elim (Bool-cases (le x y)) [
      | inl first ↦ rw first (h, k)
      | inr later ↦ rw later (k.0, All-insert_row z x ys h k.1)
    ]

    All-trans :
        (x y : A) (zs : List A)
        → le x y ≡ true
        → All (λ z. le y z ≡ true) zs
        → All (λ z. le x z ≡ true) zs
    All-trans x y [] h k = tt
    All-trans x y (z ∷ zs) h k = (ord.trans x y z h k.0, All-trans x y zs h k.1)

    insert_row-IsSorted : (x : A) (ys : List A) → IsSorted le ys → IsSorted le (insert_row x ys)
    insert_row-IsSorted x [] h = (tt, tt)
    insert_row-IsSorted x (y ∷ ys) h = elim (Bool-cases (le x y)) [
      | inl first ↦ rw first ((first, All-trans x y ys first h.0), h)
      | inr later ↦
          rw later (All-insert_row y x ys (ord.total x y later) h.0, insert_row-IsSorted x ys h.1)
    ]

    pub sort_rows-IsSorted : (xs : List A) → IsSorted le (sort_rows xs)
    sort_rows-IsSorted [] = tt
    sort_rows-IsSorted (x ∷ xs) = insert_row-IsSorted x (sort_rows xs) (sort_rows-IsSorted xs)

-- The laws can be met.
abbrev pub insertion_sort : Engine
insertion_sort = record {
  order_by = λ A le xs. sort_rows le xs;
  order_by-mem = λ A le xs a. mem-sort_rows le xs a;
  order_by-length = λ A le xs. length-sort_rows le xs;
  order_by-IsSorted = λ A le ord xs. sort_rows-IsSorted le ord xs;
}
