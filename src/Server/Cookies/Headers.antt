-- ===== src/Server/Cookies/Headers.antt =====
-- What the server reads off a header of cookies.
use flowz.Prelude.{
  ℕ, Str, lit, ◌==◌, strip_prefix, split, push_front, join, contains_char, trim, trim_start_by,
  trim_end_by, is_whitespace, is_empty, Bool, true, false, not, ◌&&◌, eqb, if◌then◌else◌, List, [],
  ◌∷◌, ◌++◌, map, Option, none, some, All, ◌≡◌, refl, ap, ◌∙◌, arith, or-eq-false,
}
use flowz.Server.Cookies.{first_value, value_in, get_cookie_value}

-- A cookie is a name and a value. A browser sends the cookies that it has with `; ` between them.
abbrev pub pair_text : Str × Str → Str
pair_text (name, value) = name ++ b'=' ∷ value

abbrev pub cookie_header : List (Str × Str) → Str
cookie_header cookies = join (map pair_text cookies) (lit "; ")

-- No `=` in the name, no `;` at all, and no white space at either end.
abbrev pub IsCookie : Str × Str → Type 0
IsCookie (name, value) =
    (contains_char name b'=' ≡ false)
    × (contains_char (pair_text (name, value)) b';' ≡ false)
    × (trim (pair_text (name, value)) ≡ pair_text (name, value))

-- The first value under a name that is not empty.
abbrev pub value_of : List (Str × Str) → Str → Option Str
value_of [] name = none
value_of ((n, v) ∷ cookies) name =
    let later = value_of cookies name in if n == name && not (is_empty v) then some v else later

split_free : (p : Str) (d : ℕ) → contains_char p d ≡ false → split p d ≡ p ∷ []
unfolding split contains_char
split_free [] d h = refl
split_free (c ∷ p) d h =
    let (other, free) = or-eq-false (eqb c d) (contains_char p d) h in
    rw (other, split_free p d free) refl

split_behind :
    (p : Str) (d : ℕ) (s : Str) → contains_char p d ≡ false → split (p ++ d ∷ s) d ≡ p ∷ split s d
unfolding split contains_char
split_behind [] d s h = ground arith
split_behind (c ∷ p) d s h =
    let (other, free) = or-eq-false (eqb c d) (contains_char p d) h in
    rw (other, split_behind p d s free) refl

split_space : (s : Str) → split (b' ' ∷ s) b';' ≡ push_front b' ' (split s b';')
unfolding split
split_space s = refl

strip_name : (name : Str) → strip_prefix [] (name ++ lit "=") ≡ none
unfolding strip_prefix
strip_name [] = refl
strip_name (c ∷ name) = refl

value_in-push_space :
    (parts : List Str) (name : Str) → value_in (push_front b' ' parts) name ≡ value_in parts name
unfolding trim trim_start_by trim_end_by is_whitespace
value_in-push_space [] name = rw (strip_name name) refl
value_in-push_space (p ∷ parts) name = refl

strip_pair :
    (n v name : Str)
    → contains_char n b'=' ≡ false
    → contains_char name b'=' ≡ false
    → strip_prefix (pair_text (n, v)) (name ++ lit "=") ≡ (if n == name then some v else none)
unfolding strip_prefix contains_char ◌==◌
strip_pair [] v [] h k = refl
strip_pair [] v (d ∷ name) h k = ground arith
strip_pair (c ∷ n) v [] h k = ground arith
strip_pair (c ∷ n) v (d ∷ name) h k = ground (arith, strip_pair n v name)

first_value-pair :
    (same : Bool) (v : Str) (later : Option Str)
    → first_value (if same then some v else none) later
      ≡ (if same && not (is_empty v) then some v else later)
first_value-pair true [] later = refl
first_value-pair true (c ∷ v) later = refl
first_value-pair false v later = refl

module _ (name : Str) (free : contains_char name b'=' ≡ false) where
  reads :
      (cookie : Str × Str) (later : Option Str)
      → IsCookie cookie
      → first_value (strip_prefix (trim (pair_text cookie)) (name ++ lit "=")) later
        ≡ (if cookie.0 == name && not (is_empty cookie.1) then some cookie.1 else later)
  reads (n, v) later (bare, whole, trimmed) =
      ap (λ p. first_value (strip_prefix p (name ++ lit "=")) later) trimmed
      ∙ ap (λ found. first_value found later) (strip_pair n v name bare free)
      ∙ first_value-pair (n == name) v later

  value_in-header :
      (cookies : List (Str × Str))
      → All IsCookie cookies
      → value_in (split (cookie_header cookies) b';') name ≡ value_of cookies name
  unfolding join contains_char strip_prefix trim trim_start_by trim_end_by
  value_in-header [] h = rw (split_free [] b';' refl, strip_name name) refl
  value_in-header ((n, v) ∷ []) h =
      ap (λ parts. value_in parts name) (split_free (pair_text (n, v)) b';' h.0.1)
      ∙ reads (n, v) none h.0
  value_in-header ((n, v) ∷ d ∷ cookies) h =
      let rest = cookie_header (d ∷ cookies) in
      ap (λ parts. value_in parts name) (split_behind (pair_text (n, v)) b';' (b' ' ∷ rest) h.0.1)
      ∙ reads (n, v) (value_in (split (b' ' ∷ rest) b';') name) h.0
      ∙ ap (λ later. if n == name && not (is_empty v) then some v else later)
          (ap (λ parts. value_in parts name) (split_space rest)
            ∙ (value_in-push_space (split rest b';') name ∙ value_in-header (d ∷ cookies) h.1))

-- From the cookies that a browser sends, whose texts keep to the form of a header, the server reads the
-- first value under a name that is not empty, and none where there is no such value.
pub get_cookie_value-header :
    (name : Str) (cookies : List (Str × Str))
    → contains_char name b'=' ≡ false
    → All IsCookie cookies
    → get_cookie_value (cookie_header cookies) name ≡ value_of cookies name
unfolding get_cookie_value
get_cookie_value-header name cookies free h = value_in-header name free cookies h
