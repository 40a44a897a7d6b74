-- ===== src/Secrets/Sorted.antt =====
-- The values of the masker: which they are, and that the longest come first.
use mathlib.Core.List.{Memᴰ}
use mathlib.Core.List.Memᴰ
use flowz.Prelude.{
  ℕ, ◌≤◌, Str, ◌==◌, ==_iff, utf8_len, true, ltb, if◌then◌else◌, List, [], ◌∷◌, ◌++◌, any, All, ◌≡◌,
  sym, subst, ap, ◌↔◌, ◌⊎◌, inl, inr, ⊎_elim, arith, Bool-cases,
}
use flowz.Secrets.{Masker, Pairs, insert_value, sort_values, add, add_all}

Memᴰ-cons : (a x : Str) (xs : List Str) → Memᴰ a (x ∷ xs) ↔ ((a ≡ x) ⊎ Memᴰ a xs)
Memᴰ-cons a x xs = (Memᴰ.cases_cons, ⊎_elim Memᴰ.head Memᴰ.tail)

mem-insert_value : (a v : Str) (vs : List Str) → Memᴰ a (insert_value v vs) ↔ ((a ≡ v) ⊎ Memᴰ a vs)
unfolding insert_value
mem-insert_value a v [] = Memᴰ-cons a v []
mem-insert_value a v (w ∷ ws) = ground (
  arith,
  mem-insert_value a v ws,
  Memᴰ-cons a w ws,
  Memᴰ-cons a w (insert_value v ws),
  Memᴰ-cons a v (w ∷ ws),
)

mem-sort_values : (a : Str) (vs : List Str) → Memᴰ a (sort_values vs) ↔ Memᴰ a vs
unfolding sort_values
mem-sort_values a [] = (λ m. m, λ m. m)
mem-sort_values a (v ∷ vs) =
    ground (arith, mem-sort_values a vs, mem-insert_value a v (sort_values vs), Memᴰ-cons a v vs)

Memᴰ-concat : (a x : Str) (xs : List Str) → Memᴰ a (xs ++ x ∷ []) ↔ (Memᴰ a xs ⊎ (a ≡ x))
Memᴰ-concat a x xs = (
  λ m. ⊎_elim inl (λ last. inr (Memᴰ.eq_of_singleton last)) (Memᴰ.append_cases xs m),
  ⊎_elim (Memᴰ.append_left _) (λ e. Memᴰ.append_right xs (Memᴰ.head e)),
)

any-mem : (v : Str) (vs : List Str) → (any (λ w. w == v) vs ≡ true) ↔ Memᴰ v vs
any-mem v [] = (λ h. absurd (cc), λ m. absurd (Memᴰ.not-nil m))
any-mem v (w ∷ vs) = ground (arith, ==_iff w v, any-mem v vs, Memᴰ-cons v w vs)

-- `add` keeps the values and adds one, unless it is shorter than four bytes.
pub mem-add :
    (m : Masker) (a v : Str)
    → Memᴰ a (add m v).values ↔ (Memᴰ a m.values ⊎ (a ≡ v) × (4 ≤ utf8_len v))
unfolding add
mem-add m a v = elim (Bool-cases (ltb (utf8_len v) 4)) [
  | inl short ↦ ground arith
  | inr long ↦ elim (Bool-cases (any (λ w. w == v) m.values)) [
    | inl old ↦ ground (
      arith,
      mem-sort_values a m.values,
      λ (e : a ≡ v). subst (λ x. Memᴰ x m.values) (sym e) ((any-mem v m.values).0 old),
    )
    | inr new ↦ ground (arith, mem-sort_values a (m.values ++ v ∷ []), Memᴰ-concat a v m.values)
  ]
]

-- The longest values come first.
abbrev pub LongestFirst : List Str → Type 0
LongestFirst [] = Unit
LongestFirst (v ∷ vs) = All (λ w. utf8_len w ≤ utf8_len v) vs × LongestFirst vs

All-insert_value {κ} :
    (P : Str → Type κ) (v : Str) (vs : List Str) → P v → All P vs → All P (insert_value v vs)
unfolding insert_value
All-insert_value P v [] p h = (p, tt)
All-insert_value P v (w ∷ ws) p h = elim (Bool-cases (ltb (utf8_len v) (utf8_len w))) [
  | inl later ↦ rw later (h.0, All-insert_value P v ws p h.1)
  | inr here ↦ rw here (p, h)
]

All-longer :
    (k l : ℕ) (vs : List Str) → k ≤ l → All (λ w. utf8_len w ≤ k) vs → All (λ w. utf8_len w ≤ l) vs
All-longer k l [] le h = tt
All-longer k l (v ∷ vs) le h = (omega arith, All-longer k l vs le h.1)

LongestFirst-insert_value :
    (v : Str) (vs : List Str) → LongestFirst vs → LongestFirst (insert_value v vs)
unfolding insert_value
LongestFirst-insert_value v [] h = (tt, tt)
LongestFirst-insert_value v (w ∷ ws) h = elim (Bool-cases (ltb (utf8_len v) (utf8_len w))) [
  | inl later ↦ rw later (
    All-insert_value (λ x. utf8_len x ≤ utf8_len w) v ws (ground arith) h.0,
    LongestFirst-insert_value v ws h.1,
  )
  | inr here ↦
      let le : utf8_len w ≤ utf8_len v = ground arith in
      rw here ((le, All-longer (utf8_len w) (utf8_len v) ws le h.0), h)
]

sort_values-LongestFirst : (vs : List Str) → LongestFirst (sort_values vs)
unfolding sort_values
sort_values-LongestFirst [] = tt
sort_values-LongestFirst (v ∷ vs) =
    LongestFirst-insert_value v (sort_values vs) (sort_values-LongestFirst vs)

-- `add` leaves the values with the longest first.
pub add-LongestFirst :
    (m : Masker) (v : Str) → LongestFirst m.values → LongestFirst (add m v).values
unfolding add
add-LongestFirst m v h = elim (Bool-cases (ltb (utf8_len v) 4)) [
  | inl short ↦ rw short h
  | inr long ↦ rw long (
      sort_values-LongestFirst
        (if any (λ w. w == v) m.values then m.values else m.values ++ v ∷ []))
]

snd_path : {k l a b : Str} → ◌≡◌ {A = Str × Str} (k, a) (l, b) → a ≡ b
snd_path e = ap (λ (x : Str × Str). x.1) e

pub mem-add_all :
    (m : Masker) (pairs : Pairs) (a : Str)
    → Memᴰ a (add_all m pairs).values
      ↔ (Memᴰ a m.values ⊎ ((key : Str) × Memᴰ (key, a) pairs × (4 ≤ utf8_len a)))
unfolding add_all
mem-add_all m [] a = (inl, ⊎_elim (λ h. h) (λ (key, h, _). elim h [ ]))
mem-add_all m ((key, value) ∷ pairs) a =
    let (to, from) = mem-add_all (add m value) pairs a in
    let (one, back) = mem-add m a value in
    (
      λ h.
          ⊎_elim
            (λ now.
              ⊎_elim inl
                (λ (e, long).
                  inr (key, Memᴰ.head (ap {B = Str × Str} (λ x. (key, x)) e), rw e long))
                (one now))
            (λ (k, q, long). inr (k, Memᴰ.tail q, long)) (to h),
      ⊎_elim (λ old. from (inl (back (inl old))))
          (λ (k, q, long).
            ⊎_elim
              (λ e.
                from (inl (back (inr (snd_path e, subst (λ x. 4 ≤ utf8_len x) (snd_path e) long)))))
              (λ later. from (inr (k, later, long))) (Memᴰ.cases_cons q)),
    )
