-- ===== src/Server/Urls.antt =====
-- src/server/mod.rs: what the server reads off the address of a repository, and the links it makes.
use mathlib.Core.List.{reverse}
use flowz.Prelude.{
  ℕ, zero, suc, Str, lit, strip_prefix, starts_with, trim_start_by, split, join, Bool, true, false,
  eqb, ltb, if◌then◌else◌, length, List, [], ◌∷◌, ◌++◌, Option, none, some,
}
use flowz.Agent.Events.{decimal}

-- `s.trim_end_matches(p)` for a text, on the reversed texts: as many times as there are characters is
-- enough.
abbrev pub strip_all : ℕ → Str → Str → Str
strip_all zero s p = s
strip_all (suc fuel) s p = elim (strip_prefix s p) [ none ↦ s | some rest ↦ strip_all fuel rest p ]

unfoldable pub trim_end_matches : Str → Str → Str
unfolding strip_prefix
trim_end_matches s p = reverse (strip_all (length s) (reverse s) (reverse p))

-- `split_once(c)` and `rsplit_once(c)`: what stands before and behind the first or the last `c`.
abbrev pub before : ℕ → Option (Str × Str) → Option (Str × Str)
before c none = none
before c (some (a, b)) = some (c ∷ a, b)

abbrev pub split_once : Str → ℕ → Option (Str × Str)
split_once [] d = none
split_once (c ∷ s) d =
    let later = split_once s d in if eqb c d then some ([], s) else before c later

abbrev pub last_split : ℕ → Str → Bool → Option (Str × Str) → Option (Str × Str)
last_split c s here (some (a, b)) = some (c ∷ a, b)
last_split c s true none = some ([], s)
last_split c s false none = none

abbrev pub rsplit_once : Str → ℕ → Option (Str × Str)
rsplit_once [] d = none
rsplit_once (c ∷ s) d = last_split c s (eqb c d) (rsplit_once s d)

abbrev pub behind_colon : Str → Option (Str × Str) → Str
behind_colon s none = s
behind_colon s (some (a, b)) = b

-- The last two of at least two parts, with a slash between them.
abbrev pub last_two : Str → List Str → Str
last_two s [] = s
last_two s (p ∷ []) = s
last_two s (p ∷ q ∷ []) = p ++ b'/' ∷ q
last_two s (p ∷ q ∷ r ∷ ps) = last_two s (q ∷ r ∷ ps)

-- `repo_from_clone_url`
unfoldable pub repo_from_clone_url : Str → Str
unfolding trim_end_matches trim_start_by split
repo_from_clone_url url =
    let stripped = trim_end_matches url (lit ".git") in
    let after_colon = behind_colon stripped (rsplit_once stripped b':') in
    last_two after_colon (split (trim_start_by (eqb b'/') after_colon) b'/')

abbrev pub ssh_url : Option (Str × Str) → Option Str
ssh_url none = none
ssh_url (some (host, path)) = some (lit "https://" ++ (host ++ b'/' ∷ path))

abbrev pub ssh_host : Option Str → Option (Str × Str)
ssh_host none = none
ssh_host (some rest) = split_once rest b':'

-- `web_url`
unfoldable pub web_url : Str → Option Str
unfolding trim_end_matches starts_with strip_prefix
web_url clone_url =
    let url = trim_end_matches clone_url (lit ".git") in
    if starts_with url (lit "https://")
    then some url
    else ssh_url (ssh_host (strip_prefix url (lit "git@")))

abbrev pub branch_param : (Str → Str) → Option Str → List Str
branch_param encode none = []
branch_param encode (some b) = (lit "branch=" ++ encode b) ∷ []

abbrev pub page_param : ℕ → List Str
page_param page = if ltb 1 page then (lit "page=" ++ decimal page) ∷ [] else []

abbrev pub with_params : Str → List Str → Str
with_params path [] = path
with_params path (p ∷ ps) = path ++ b'?' ∷ join (p ∷ ps) (lit "&")

-- `project_href`; `encode` is `urlencoding::encode`.
abbrev pub project_href : (Str → Str) → Str → Option Str → ℕ → Str
project_href encode repo branch page =
    with_params (lit "/projects/" ++ repo) (branch_param encode branch ++ page_param page)
