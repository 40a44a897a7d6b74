-- ===== src/Server/Provider/Base.antt =====
-- What the address of the identity provider becomes.
use flowz.Prelude.{
  ℕ, Str, lit, starts_with, trim_end_by, is_empty, Bool, true, false, not, ◌&&◌, ◌||◌, eqb, [], ◌∷◌,
  ◌≡◌, refl, ◌⊎◌, inl, inr, Bool-cases, arith,
}
use flowz.Server.Provider.{normalize_base}

-- The last character fails the test.
abbrev EndsOutside : (ℕ → Bool) → Str → Type 0
EndsOutside p s = trim_end_by p s ≡ s

trim_end_twice : (p : ℕ → Bool) (s : Str) → EndsOutside p (trim_end_by p s)
unfolding trim_end_by
trim_end_twice p [] = refl
trim_end_twice p (c ∷ s) = elim (Bool-cases (is_empty (trim_end_by p s) && p c)) [
  | inl dropped ↦ rw dropped refl
  | inr kept ↦ rw (kept, trim_end_twice p s, kept) refl
]

-- The base address begins with one of the two schemes.
abbrev pub HasScheme : Str → Type 0
HasScheme s = (starts_with s (lit "http://") ≡ true) ⊎ (starts_with s (lit "https://") ≡ true)

abbrev is_refused : Str → Bool
is_refused b =
    is_empty b || (not (starts_with b (lit "http://")) && not (starts_with b (lit "https://")))

abbrev pub IsBase : Str → Type 0
IsBase b = HasScheme b × (trim_end_by (eqb b'/') b ≡ b) × (normalize_base b ≡ b)

accepted-HasScheme : (b : Str) → is_refused b ≡ false → HasScheme b
accepted-HasScheme b h = elim (Bool-cases (starts_with b (lit "http://"))) [
  | inl plain ↦ inl plain
  | inr other ↦ inr (ground (arith, h, other))
]

default-IsBase : IsBase (lit "http://localhost:5555")
unfolding normalize_base trim_end_by starts_with
default-IsBase = (inl refl, refl, refl)

accepted-IsBase : (b : Str) → trim_end_by (eqb b'/') b ≡ b → is_refused b ≡ false → IsBase b
unfolding normalize_base
accepted-IsBase b trimmed h = (accepted-HasScheme b h, trimmed, rw (trimmed, h) refl)

-- A base address that was made has a scheme and no slash at its end, and making it again changes
-- nothing.
pub normalize_base-IsBase : (base : Str) → IsBase (normalize_base base)
unfolding normalize_base
normalize_base-IsBase base = elim (Bool-cases (is_refused (trim_end_by (eqb b'/') base))) [
  | inl refused ↦ rw (refused, normalize_base) default-IsBase
  | inr fine ↦
      rw (fine, normalize_base)
        (accepted-IsBase (trim_end_by (eqb b'/') base) (trim_end_twice (eqb b'/') base) fine)
]
