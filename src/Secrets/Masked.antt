-- ===== src/Secrets/Masked.antt =====
-- No secret value is left in a masked line.
use mathlib.Core.List.{Memᴰ}
use flowz.Prelude.{
  ℕ, zero, suc, ◌-◌, Str, lit, starts_with, contains, replace, replace_from, Bool, true, false,
  if◌then◌else◌, List, [], ◌∷◌, ◌++◌, length, All, ◌≡◌, ◌≢◌, refl, sym, subst, ◌⊎◌, inl, inr, arith,
  Bool-cases, or-eq-true,
}
use flowz.Secrets.{Masker, mask_with, mask}

-- A text without the character of the mask.
abbrev pub NoStar : Str → Type 0
NoStar s = All (λ c. c ≢ b'*') s

abbrev pub mark : Str
mark = lit "***"

-- What the output begins with, if it has no star, the input begins with.
starts_with-replace_from :
    (s v w : Str)
    → NoStar w
    → starts_with (replace_from 0 s v mark) w ≡ true
    → starts_with s w ≡ true
unfolding starts_with replace_from
starts_with-replace_from s v [] n h = refl
starts_with-replace_from [] v (d ∷ w) n h = h
starts_with-replace_from (c ∷ s) v (d ∷ w) n h = ground (arith, starts_with-replace_from s v w n.1)

-- A text that does not begin with a star is not found in the mark.
contains-mark :
    (x : Str) (d : ℕ) (w : Str) → d ≢ b'*' → contains (mark ++ x) (d ∷ w) ≡ contains x (d ∷ w)
unfolding contains starts_with
contains-mark x d w n = ground arith

contains-cons : (c : ℕ) (s p : Str) → contains s p ≡ true → contains (c ∷ s) p ≡ true
unfolding contains
contains-cons c s p h = ground arith

contains-cons_cases :
    (c : ℕ) (s p : Str)
    → contains (c ∷ s) p ≡ true
    → (starts_with (c ∷ s) p ≡ true) ⊎ (contains s p ≡ true)
unfolding contains
contains-cons_cases c s p h = or-eq-true _ _ h

-- The three steps of the replacement.
module _ (c : ℕ) (s v : Str) where
  replace-skip : (skip : ℕ) → replace_from (suc skip) (c ∷ s) v mark ≡ replace_from skip s v mark
  unfolding replace_from
  replace-skip skip = refl

  replace-cut :
      starts_with (c ∷ s) v ≡ true
      → replace_from 0 (c ∷ s) v mark ≡ mark ++ replace_from (length v - 1) s v mark
  unfolding replace_from
  replace-cut h = rw h

  replace-kept :
      starts_with (c ∷ s) v ≡ false → replace_from 0 (c ∷ s) v mark ≡ c ∷ replace_from 0 s v mark
  unfolding replace_from
  replace-kept h = rw h

starts_with-kept :
    (c : ℕ) (s v w : Str)
    → NoStar w
    → starts_with (c ∷ s) v ≡ false
    → starts_with (c ∷ replace_from 0 s v mark) w ≡ true
    → starts_with (c ∷ s) w ≡ true
starts_with-kept c s v w n kept h =
    starts_with-replace_from (c ∷ s) v w n (rw (replace-kept c s v kept) h)

-- The replacement brings no star-free text about that was not there before.
contains-replace_from :
    (skip : ℕ) (s v : Str) (d : ℕ) (w : Str)
    → NoStar (d ∷ w)
    → contains (replace_from skip s v mark) (d ∷ w) ≡ true
    → contains s (d ∷ w) ≡ true
unfolding replace_from
contains-replace_from skip [] v d w n h = h
contains-replace_from (suc skip) (c ∷ s) v d w n h =
    contains-cons c s (d ∷ w) (contains-replace_from skip s v d w n h)
contains-replace_from zero (c ∷ s) v d w n h = elim (Bool-cases (starts_with (c ∷ s) v)) [
  | inl cut ↦ contains-cons c s (d ∷ w) (
      contains-replace_from (length v - 1) s v d w n
        (rw (replace-cut c s v cut, contains-mark _ d w n.0) at h))
  | inr kept ↦ elim (contains-cons_cases c _ (d ∷ w) (rw (replace-kept c s v kept) at h)) [
    | inl here ↦ unfold contains in rw (starts_with-kept c s v (d ∷ w) n kept here)
    | inr later ↦ contains-cons c s (d ∷ w) (contains-replace_from 0 s v d w n later)
  ]
]

not-true_of : (b : Bool) → (b ≡ true → ⊥) → b ≡ false
not-true_of true h = absurd (h refl)
not-true_of false h = refl

-- The replaced text is gone.
replace_from-gone :
    (skip : ℕ) (s : Str) (d : ℕ) (v : Str)
    → NoStar (d ∷ v)
    → contains (replace_from skip s (d ∷ v) mark) (d ∷ v) ≡ true
    → ⊥
unfolding replace_from
replace_from-gone skip [] d v n h = unfold contains starts_with in cc
replace_from-gone (suc skip) (c ∷ s) d v n h = replace_from-gone skip s d v n h
replace_from-gone zero (c ∷ s) d v n h = elim (Bool-cases (starts_with (c ∷ s) (d ∷ v))) [
  | inl cut ↦
      replace_from-gone (length (d ∷ v) - 1) s d v n
        (rw (replace-cut c s (d ∷ v) cut, contains-mark _ d v n.0) at h)
  | inr kept ↦ elim (contains-cons_cases c _ (d ∷ v) (rw (replace-kept c s (d ∷ v) kept) at h)) [
    | inl here ↦ cc (starts_with-kept c s (d ∷ v) (d ∷ v) n kept here, kept)
    | inr later ↦ replace_from-gone 0 s d v n later
  ]
]

-- A value that the masker hides: not empty, and without a star.
abbrev pub IsMaskable : Str → Type 0
IsMaskable v = (v ≢ []) × NoStar v

replace-gone : (s v : Str) → IsMaskable v → contains (replace s v mark) v ≡ false
unfolding replace
replace-gone s [] h = absurd (h.0 refl)
replace-gone s (d ∷ v) h = not-true_of _ (replace_from-gone 0 s d v h.1)

contains-replace :
    (s v w : Str)
    → IsMaskable v
    → IsMaskable w
    → contains (replace s v mark) w ≡ true
    → contains s w ≡ true
unfolding replace
contains-replace s [] w h k e = absurd (h.0 refl)
contains-replace s (c ∷ v) [] h k e = absurd (k.0 refl)
contains-replace s (c ∷ v) (d ∷ w) h k e = contains-replace_from 0 s (c ∷ v) d w k.1 e

mask_with-keeps_out :
    (values : List Str) (line w : Str)
    → All IsMaskable values
    → IsMaskable w
    → contains (mask_with values line) w ≡ true
    → contains line w ≡ true
unfolding mask_with
mask_with-keeps_out [] line w h k e = e
mask_with-keeps_out (v ∷ values) line w h k e = elim (Bool-cases (contains line v)) [
  | inl found ↦
      contains-replace line v w h.0 k
        (mask_with-keeps_out values (replace line v mark) w h.1 k (rw found at e))
  | inr absent ↦ mask_with-keeps_out values line w h.1 k (rw absent at e)
]

one_masked :
    (line v : Str)
    → IsMaskable v
    → contains (if contains line v then replace line v mark else line) v ≡ false
one_masked line v h = elim (Bool-cases (contains line v)) [
  | inl found ↦ rw found (replace-gone line v h)
  | inr absent ↦ rw absent absent
]

pub mask_with-gone :
    (values : List Str) (line v : Str)
    → Memᴰ v values
    → All IsMaskable values
    → contains (mask_with values line) v ≡ false
unfolding mask_with
mask_with-gone [] line v m h = elim m [ ]
mask_with-gone (w ∷ values) line v (Memᴰ.head e) h = not-true_of _ (λ found. cc (
  mask_with-keeps_out values _ v h.1 (rw e h.0) found,
  subst (λ x. contains (if contains line w then replace line w mark else line) x ≡ false) (sym e)
      (one_masked line w h.0),
))
mask_with-gone (w ∷ values) line v (Memᴰ.tail m) h = mask_with-gone values _ v m h.1

-- A masked line shows no value of the masker, if all of them can be masked.
pub mask-gone :
    (m : Masker) (line v : Str)
    → Memᴰ v m.values
    → All IsMaskable m.values
    → contains (mask m line) v ≡ false
unfolding mask
mask-gone m line v known fit = mask_with-gone m.values line v known fit
