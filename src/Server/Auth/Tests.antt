-- ===== src/Server/Auth/Tests.antt =====
-- The theorems on sessions at concrete requests.
use mathlib.Core.Option
use flowz.Prelude.{
  join, ℕ, Str, lit, ◌==◌, strip_prefix, split, contains_char, trim, trim_start_by, trim_end_by,
  is_whitespace, leb, ◌+◌, ◌*◌, true, false, if◌then◌else◌, List, [], ◌∷◌, Option, none, some, All,
  ◌≡◌, refl, subst,
}
use flowz.Server.Jobs.{unwrap_or}
use flowz.Server.Cookies.{session_cookie, get_cookie_value}
use flowz.Server.Cookies.Headers.{cookie_header, IsCookie, value_of, get_cookie_value-header}
use flowz.Server.Provider.{Provider, granted}
use flowz.Server.Auth.{
  OidcConfig, SessionClaims, Web, verify_session_token, Request, passed, CallbackQuery,
  create_session_token, require_auth, turned_away, callback_of,
}
use flowz.Server.Auth.Sessions.{Sets, Allowed, callback_of-Sets}
use flowz.Server.Auth.Gates.{require_auth-create_session_token}
use flowz.Server.Router.{Route, router}
use flowz.Server.Router.Guarded.{router-passed}

-- A token shows its times and the user; there is none for a user with an address.
abbrev token_text : Option Str → Str → ℕ → ℕ → Option Str
token_text none sub exp iat = some (exp ∷ iat ∷ sub)
token_text (some email) sub exp iat = none

abbrev claims_in : ℕ → Str → Option SessionClaims
claims_in now (exp ∷ iat ∷ sub) =
    if leb now (exp + 60)
    then some (record { sub = sub; email = none; exp = exp; iat = iat })
    else none
claims_in now (exp ∷ []) = none
claims_in now [] = none

abbrev web : Web
web = record {
  encode = λ s. s;
  decode = λ s. some s;
  encode_token = λ secret c. token_text c.email c.sub c.exp c.iat;
  decode_token = λ secret now token. claims_in now token;
  is_header_value = λ s. true;
  message = λ e. lit "failed";
  session_error = lit "session error";
}

claims_in-token_text :
    (email : Option Str) (sub : Str) (exp iat n : ℕ) (t : Str)
    → token_text email sub exp iat ≡ some t
    → claims_in n t ≡ (
        if leb n (exp + 60)
        then some (record { sub = sub; email = email; exp = exp; iat = iat })
        else none)
claims_in-token_text none sub exp iat n t h =
    let same : exp ∷ iat ∷ sub ≡ t = cc in
    subst
      (λ s. claims_in n s ≡ (
        if leb n (exp + 60)
        then some (record { sub = sub; email = none; exp = exp; iat = iat })
        else none))
      same refl
claims_in-token_text (some email) sub exp iat n t h = absurd (cc h)

abbrev cookies : List (Str × Str)
cookies = (lit "theme", lit "dark") ∷ (lit "flowz_session", 86405 ∷ 5 ∷ lit "u") ∷ []

abbrev request : Request
request = record {
  path = lit "/";
  path_and_query = some (lit "/");
  cookie = some (cookie_header cookies);
}

are_cookies : All IsCookie cookies
unfolding contains_char trim trim_start_by trim_end_by is_whitespace
are_cookies = ((refl, refl, refl), ((refl, refl, refl), tt))

in_cookies : value_of cookies session_cookie ≡ some (86405 ∷ 5 ∷ lit "u")
unfolding ◌==◌
in_cookies = refl

made : create_session_token web (lit "k") 5 (lit "u") none ≡ some (86405 ∷ 5 ∷ lit "u")
unfolding create_session_token
made = refl

name_free : contains_char session_cookie b'=' ≡ false
unfolding contains_char
name_free = refl

get_cookie_value-header_example :
    get_cookie_value (cookie_header cookies) session_cookie ≡ value_of cookies session_cookie
get_cookie_value-header_example =
    get_cookie_value-header session_cookie cookies name_free are_cookies

let_in : require_auth web (lit "k") 9 request (λ req. req.path) ≡ passed (lit "/")
unfolding require_auth verify_session_token get_cookie_value split strip_prefix trim trim_start_by
    trim_end_by is_whitespace Option.bind join
let_in = refl

require_auth-create_session_token_example :
    require_auth web (lit "k") 9 request (λ req. req.path)
    ≡ (if leb 9 (5 + 24 * 60 * 60 + 60) then passed (lit "/") else turned_away web request)
require_auth-create_session_token_example =
    require_auth-create_session_token web (lit "k") 5 9 (lit "u") none (86405 ∷ 5 ∷ lit "u") cookies
      request (λ req. req.path) 60 (λ s t c n. claims_in-token_text c.email c.sub c.exp c.iat n t)
      made are_cookies in_cookies refl

abbrev oidc : OidcConfig
oidc = record {
  issuer = lit "https://id";
  base_url = none;
  client_id = lit "c";
  client_secret = lit "s";
  redirect_uri = lit "https://ci/cb";
  tls_insecure = false;
  ca_file = none;
  post_login_redirect = lit "/";
}

-- The provider takes every code, and knows one user.
abbrev provider : Provider
provider = record {
  Value = Str;
  discover = λ url. none;
  exchange = λ url body. granted (record { access_token = lit "t"; id_token = none });
  userinfo = λ url bearer. some (record { sub = lit "u"; email = none });
  decode_payload = λ s. none;
  field = λ v key. none;
}

abbrev login_cookies : Option Str
login_cookies = some (lit "flowz_oidc_state=x; flowz_oidc_next=/runs/a")

abbrev query : CallbackQuery
query = record {
  code = some (lit "7");
  state = some (lit "x");
  error = none;
  error_description = none;
}

callback_of-Sets_example :
    Sets
      (Allowed web provider oidc (lit "k") 5 login_cookies query)
      (callback_of web provider oidc (lit "k") 5 login_cookies query)
callback_of-Sets_example = callback_of-Sets web provider oidc (lit "k") 5 login_cookies query

routed :
    router web (some oidc) (lit "k") 9 Route.ui_projects request (λ req. req.path)
    ≡ passed (lit "/")
unfolding router
routed = let_in

router-passed_example :
    (lit "/" ≡ lit "/")
    × ((token : Str) × (claims : SessionClaims) × (get_cookie_value
            (unwrap_or request.cookie [])
            session_cookie
          ≡ some token)
        × (claims_in 9 token ≡ some claims))
router-passed_example =
    router-passed web oidc (lit "k") 9 Route.ui_projects request (λ req. req.path) (lit "/") refl
      routed
