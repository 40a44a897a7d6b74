-- ===== src/Prelude/Text.antt =====
-- A Rust `str` as the list of its code points, and the operations of the standard library that the
-- program calls on it.
use Prim.Native.Nat.{ℕ, zero, suc, ◌+◌, ◌-◌}
use Prim.Native.Char.{code}
use Prim.Native.String.{String}
use mathlib.Core.Path.{◌≡◌, refl}
use mathlib.Core.Logic.{◌↔◌}
use mathlib.Core.Bool.{Bool, true, false, ◌&&◌, ◌||◌}
use mathlib.Core.List.{List, [], ◌∷◌, ◌++◌}
use mathlib.Core.Option.{Option, none, some}
use mathlib.Core.Option
use native.Mathlib.Omega.{arith}
use flowz.Prelude.Tests.{ltb, leb, eqb, if◌then◌else◌}
use flowz.Prelude.Lists.{length}

abbrev pub Str : Type 0
Str = List ℕ

-- The code points of a literal.
abbrev pub lit : String → Str
lit String.[] = []
lit (String.◌∷◌ c s) = code c ∷ lit s

infix 50 ◌==◌
unfoldable pub ◌==◌ : Str → Str → Bool
[] == [] = true
[] == (d ∷ t) = false
(c ∷ s) == [] = false
(c ∷ s) == (d ∷ t) = eqb c d && (s == t)

pub ==_iff : (s t : Str) → ((s == t) ≡ true) ↔ (s ≡ t)
unfolding ◌==◌
==_iff [] [] = (λ _. refl, λ _. refl)
==_iff [] (d ∷ t) = ground arith
==_iff (c ∷ s) [] = ground arith
==_iff (c ∷ s) (d ∷ t) = ground (arith, ==_iff s t)

pub ==_refl : (s : Str) → (s == s) ≡ true
==_refl s = (==_iff s s).1 refl

-- `s.is_empty()`
abbrev pub is_empty : Str → Bool
is_empty [] = true
is_empty (c ∷ s) = false

-- `s.starts_with(p)`
unfoldable pub starts_with : Str → Str → Bool
starts_with s [] = true
starts_with [] (d ∷ p) = false
starts_with (c ∷ s) (d ∷ p) = eqb c d && starts_with s p

-- `s.strip_prefix(p)`
unfoldable pub strip_prefix : Str → Str → Option Str
strip_prefix s [] = some s
strip_prefix [] (d ∷ p) = none
strip_prefix (c ∷ s) (d ∷ p) = if eqb c d then strip_prefix s p else none

-- `s.contains(p)`
unfoldable pub contains : Str → Str → Bool
unfolding starts_with
contains [] p = starts_with [] p
contains (c ∷ s) p = starts_with (c ∷ s) p || contains s p

-- `s.contains(c)` for a character
unfoldable pub contains_char : Str → ℕ → Bool
contains_char [] d = false
contains_char (c ∷ s) d = eqb c d || contains_char s d

-- `s.len()`: the bytes of UTF-8.
unfoldable pub utf8_len : Str → ℕ
utf8_len [] = 0
utf8_len (c ∷ s) =
    (if ltb c 0x80 then 1 else if ltb c 0x800 then 2 else if ltb c 0x10000 then 3 else 4)
    + utf8_len s

-- The slice `s[..n.min(s.len())]`. The program panics, `none` here, where it would cut a character.
abbrev pub first_bytes : ℕ → Str → Option Str
first_bytes n [] = some []
first_bytes n (c ∷ s) =
    let width = utf8_len (c ∷ []) in
    let rest = first_bytes (n - width) s in
    if eqb n 0 then some [] else if ltb n width then none else Option.map (λ t. c ∷ t) rest

-- `s.split(c)`: never empty.
abbrev pub push_front : ℕ → List Str → List Str
push_front c [] = (c ∷ []) ∷ []
push_front c (p ∷ ps) = (c ∷ p) ∷ ps

unfoldable pub split : Str → ℕ → List Str
split [] d = [] ∷ []
split (c ∷ s) d = if eqb c d then [] ∷ split s d else push_front c (split s d)

-- `parts.join(sep)`
unfoldable pub join : List Str → Str → Str
join [] sep = []
join (p ∷ []) sep = p
join (p ∷ q ∷ ps) sep = p ++ (sep ++ join (q ∷ ps) sep)

-- The characters with the property White_Space.
unfoldable pub is_whitespace : ℕ → Bool
is_whitespace c =
    (leb 9 c && leb c 13)
    || eqb c 0x20
    || eqb c 0x85
    || eqb c 0xA0
    || eqb c 0x1680
    || (leb 0x2000 c && leb c 0x200A)
    || eqb c 0x2028
    || eqb c 0x2029
    || eqb c 0x202F
    || eqb c 0x205F
    || eqb c 0x3000

unfoldable pub trim_start_by : (ℕ → Bool) → Str → Str
trim_start_by p [] = []
trim_start_by p (c ∷ s) = if p c then trim_start_by p s else c ∷ s

-- `s.trim_end_matches(p)` for a test on characters: what follows is dropped where all of it passes.
unfoldable pub trim_end_by : (ℕ → Bool) → Str → Str
trim_end_by p [] = []
trim_end_by p (c ∷ s) = let rest = trim_end_by p s in if is_empty rest && p c then [] else c ∷ rest

-- `s.trim()`
unfoldable pub trim : Str → Str
unfolding trim_start_by trim_end_by is_whitespace
trim s = trim_end_by is_whitespace (trim_start_by is_whitespace s)

-- `c.is_ascii_alphanumeric()`, `c.to_ascii_lowercase()`, `c.is_ascii_hexdigit()`
unfoldable pub is_ascii_alphanumeric : ℕ → Bool
is_ascii_alphanumeric c =
    (leb b'0' c && leb c b'9') || (leb b'A' c && leb c b'Z') || (leb b'a' c && leb c b'z')

unfoldable pub to_ascii_lowercase : ℕ → ℕ
to_ascii_lowercase c = if leb b'A' c && leb c b'Z' then c + 32 else c

unfoldable pub is_ascii_hexdigit : ℕ → Bool
is_ascii_hexdigit c =
    (leb b'0' c && leb c b'9') || (leb b'A' c && leb c b'F') || (leb b'a' c && leb c b'f')

-- `s.replace(from, to)`: every occurrence that does not overlap an earlier one, from the left. `skip`
-- counts the characters of an occurrence that are still to be dropped. An empty `from` occurs before
-- each character and at the end.
unfoldable pub replace_from : ℕ → Str → Str → Str → Str
unfolding starts_with
replace_from skip [] from to = []
replace_from (suc skip) (c ∷ s) from to = replace_from skip s from to
replace_from zero (c ∷ s) from to =
    let cut = to ++ replace_from (length from - 1) s from to in
    let kept = c ∷ replace_from 0 s from to in if starts_with (c ∷ s) from then cut else kept

abbrev pub interleave : Str → Str → Str
interleave to [] = to
interleave to (c ∷ s) = to ++ c ∷ interleave to s

unfoldable pub replace : Str → Str → Str → Str
unfolding replace_from
replace s [] to = interleave to s
replace s (d ∷ from) to = replace_from 0 s (d ∷ from) to

abbrev pub ends_with_slash : Str → Bool
ends_with_slash [] = true
ends_with_slash (c ∷ []) = eqb c b'/'
ends_with_slash (c ∷ d ∷ s) = ends_with_slash (d ∷ s)

-- `Path::join`: an absolute path replaces, and a separator is put where none is. The empty path counts
-- as one that needs none.
unfoldable pub join_path : Str → Str → Str
join_path dir path =
    if starts_with path (lit "/")
    then path
    else if ends_with_slash dir
    then dir ++ path
    else dir ++ b'/' ∷ path
