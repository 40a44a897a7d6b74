-- ===== src/Server/Cookies.antt =====
-- src/server/auth.rs: the cookies. Which texts `HeaderValue::from_str` takes is a parameter.
pub mod Headers
use flowz.Prelude.{
  ℕ, Str, lit, strip_prefix, split, trim, is_empty, Bool, true, false, if◌then◌else◌, List, [], ◌∷◌,
  ◌++◌, Option, none, some,
}
use flowz.Agent.Events.{decimal}

abbrev pub session_cookie : Str
session_cookie = lit "flowz_session"

abbrev pub state_cookie : Str
state_cookie = lit "flowz_oidc_state"

abbrev pub next_cookie : Str
next_cookie = lit "flowz_oidc_next"

-- What a part of the header says, where the rest of the header is given: an empty value is skipped.
abbrev pub first_value : Option Str → Option Str → Option Str
first_value none later = later
first_value (some []) later = later
first_value (some (c ∷ s)) later = some (c ∷ s)

abbrev pub value_in : List Str → Str → Option Str
value_in [] name = none
value_in (part ∷ parts) name =
    first_value (strip_prefix (trim part) (name ++ lit "=")) (value_in parts name)

-- `get_cookie_value`
unfoldable pub get_cookie_value : Str → Str → Option Str
get_cookie_value cookie_header name = value_in (split cookie_header b';') name

-- `set_cookie`, `clear_cookie`
unfoldable pub set_cookie : Str → Str → ℕ → Bool → Str
set_cookie name value max_age secure =
    name
    ++ (b'='
        ∷ (value
            ++ (lit "; Path=/; HttpOnly; SameSite=Lax; Max-Age="
                ++ (decimal max_age ++ (if secure then lit "; Secure" else [])))))

abbrev pub clear_cookie : Str → Bool → Str
clear_cookie name secure = set_cookie name [] 0 secure

-- `append_cookie`
abbrev pub append_cookie : (Str → Bool) → List Str → Str → List Str
append_cookie is_header_value headers value =
    if is_header_value value then headers ++ value ∷ [] else headers
