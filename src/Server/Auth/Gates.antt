-- ===== src/Server/Auth/Gates.antt =====
-- Who gets through the gate.
use mathlib.Core.Option
use flowz.Prelude.{
  ℕ, ◌+◌, ◌*◌, Str, contains_char, Bool, true, false, leb, if◌then◌else◌, List, Option, none, some,
  All, ◌≡◌, refl, ◌∙◌,
}
use flowz.Server.Cookies.{session_cookie}
use flowz.Server.Cookies.Headers.{cookie_header, IsCookie, value_of, get_cookie_value-header}
use flowz.Server.Auth.{
  SessionClaims, Web, session_claims, create_session_token, verify_session_token, Request, passed,
  admit, require_auth, turned_away,
}

session_name_free : contains_char session_cookie b'=' ≡ false
unfolding contains_char
session_name_free = refl

module _ (web : Web) {A : Type 0} (secret : Str) (now : ℕ) (cookies : List (Str × Str))
    (req : Request) (next : Request → A) where
  -- The claims of the first session cookie that is not empty.
  abbrev pub claims_of : Option SessionClaims
  claims_of = Option.bind (value_of cookies session_cookie) (verify_session_token web secret now)

  -- Of a request with the cookies of a browser, the gate looks at the first session cookie that is not
  -- empty: the handler runs on the request if its token verifies, and otherwise nothing of it does.
  pub require_auth-cookies :
      All IsCookie cookies
      → req.cookie ≡ some (cookie_header cookies)
      → require_auth web secret now req next ≡ admit web req next claims_of
  unfolding require_auth
  require_auth-cookies h e =
      rw (e, get_cookie_value-header session_cookie cookies session_name_free h) refl

-- A session that a login began lasts a day, and the leeway that the library gives: a browser that has its
-- token in the first session cookie that is not empty gets to the handler up to that time, and is turned
-- away afterwards. Assumed of the library: under the same secret a token that was made verifies, with
-- the claims in it, exactly up to the leeway behind its expiry.
pub require_auth-create_session_token :
    (web : Web) {A : Type 0} (secret : Str) (begun now : ℕ) (sub : Str) (email : Option Str)
    (token : Str) (cookies : List (Str × Str)) (req : Request) (next : Request → A) (leeway : ℕ)
    → ((s t : Str) (c : SessionClaims) (n : ℕ)
        → web.encode_token s c ≡ some t
        → web.decode_token s n t ≡ (if leb n (c.exp + leeway) then some c else none))
    → create_session_token web secret begun sub email ≡ some token
    → All IsCookie cookies
    → value_of cookies session_cookie ≡ some token
    → req.cookie ≡ some (cookie_header cookies)
    → require_auth web secret now req next
      ≡ (if leb now (begun + 24 * 60 * 60 + leeway) then passed (next req) else turned_away web req)
unfolding create_session_token verify_session_token Option.bind
require_auth-create_session_token web secret begun now sub email token cookies req next leeway law
      made h v e =
    require_auth-cookies web secret now cookies req next h e
    ∙ rw (v, law secret token (session_claims web begun sub email) now made)
        (by_time (leb now (begun + 86400 + leeway)))
  where
    by_time :
        (early : Bool)
        → admit web req next (if early then some (session_claims web begun sub email) else none)
          ≡ (if early then passed (next req) else turned_away web req)
    by_time true = refl
    by_time false = refl
