-- ===== src/Secrets.antt =====
-- src/secrets/mod.rs: the masker of log lines, the exit codes of the provider and the order of its
-- values. The provider's process and the JSON parser are parameters.
mod Tests
pub mod Sorted
pub mod Masked
pub mod Hidden
use flowz.Prelude.{
  ℕ, zero, suc, ◌≤◌, ◌<◌, Str, lit, ◌==◌, contains, replace, utf8_len, trim, Bool, true, false, not,
  ltb, leb, eqb, if◌then◌else◌, List, [], ◌∷◌, ◌++◌, ◌&&◌, any, Option, none, some, Result, ok, err,
  ◌>>=◌,
}

pub data SecretsError : Type 0 where
  provider_unavailable : Str → Str → SecretsError
  configuration_not_found : Str → SecretsError
  project_not_found : Str → SecretsError
  provider_failed : Option ℕ → Str → SecretsError
  bad_output : Str → SecretsError

abbrev pub Pairs : Type 0
Pairs = List (Str × Str)

-- The secret values.
pub record Masker : Type 0 where
  pub values : List Str

abbrev pub no_values : Masker
no_values = record { values = [] }

-- `values.sort_by_key(|v| Reverse(v.len()))`, a stable sort: the longest first.
pub insert_value : Str → List Str → List Str
insert_value v [] = v ∷ []
insert_value v (w ∷ ws) =
    let later = insert_value v ws in if ltb (utf8_len v) (utf8_len w) then w ∷ later else v ∷ w ∷ ws

pub sort_values : List Str → List Str
unfolding insert_value
sort_values [] = []
sort_values (v ∷ vs) = insert_value v (sort_values vs)

pub add : Masker → Str → Masker
unfolding sort_values
add m value = if ltb (utf8_len value) 4 then m else record {
  values =
      sort_values (if any (λ v. v == value) m.values then m.values else m.values ++ value ∷ []);
}

-- `for (_, value) in &pairs { masker.add(value); }`
pub add_all : Masker → Pairs → Masker
unfolding add
add_all m [] = m
add_all m ((key, value) ∷ pairs) = add_all (add m value) pairs

-- The loop of `mask`.
pub mask_with : List Str → Str → Str
mask_with [] line = line
mask_with (value ∷ values) line =
    mask_with values (if contains line value then replace line value (lit "***") else line)

pub mask : Masker → Str → Str
unfolding mask_with
mask m line = mask_with m.values line

-- What the provider's process gives: it cannot be spawned, or it ends with an exit code, which a
-- signal leaves out, and its two outputs.
pub data Output : Type 0 where
  not_spawned : Str → Output
  exited : Option ℕ → Str → Str → Output

abbrev pub exit_configuration_not_found : ℕ
exit_configuration_not_found = 3

abbrev pub exit_project_not_found : ℕ
exit_project_not_found = 4

abbrev pub is_success : Option ℕ → Bool
is_success none = false
is_success (some code) = eqb code 0

-- The error that an exit code stands for.
abbrev pub exit_error : Str → Str → Option ℕ → Str → SecretsError
exit_error project configuration none stderr = provider_failed none (trim stderr)
exit_error project configuration (some code) stderr =
    if eqb code exit_configuration_not_found
    then configuration_not_found configuration
    else if eqb code exit_project_not_found
    then project_not_found project
    else provider_failed (some code) (trim stderr)

-- The order of texts.
unfoldable pub less : Str → Str → Bool
less [] [] = false
less [] (d ∷ t) = true
less (c ∷ s) [] = false
less (c ∷ s) (d ∷ t) = if ltb c d then true else eqb c d && less s t

-- `pairs.sort_by(|a, b| a.0.cmp(&b.0))`
pub insert_pair : Str × Str → Pairs → Pairs
insert_pair p [] = p ∷ []
insert_pair p (q ∷ qs) =
    let later = insert_pair p qs in if less q.0 p.0 then q ∷ later else p ∷ q ∷ qs

pub sort_pairs : Pairs → Pairs
unfolding insert_pair less
sort_pairs [] = []
sort_pairs (p ∷ ps) = insert_pair p (sort_pairs ps)

-- `from_str` yields the entries of the JSON object, in the order of a hash map.
pub parse_json_map : (Str → Result Str Pairs) → Str → Result SecretsError Pairs
unfolding sort_pairs
parse_json_map from_str raw = elim (from_str (trim raw)) [
  | ok map ↦ ok (sort_pairs map)
  | err e ↦ err (bad_output e)
]

-- `CfgyProvider::fetch`, from what the process gives.
pub fetched : (Str → Result Str Pairs) → Str → Str → Str → Output → Result SecretsError Pairs
unfolding parse_json_map
fetched from_str bin project configuration (not_spawned e) = err (provider_unavailable bin e)
fetched from_str bin project configuration (exited code stdout stderr) =
    if is_success code
    then parse_json_map from_str stdout
    else err (exit_error project configuration code stderr)
