-- ===== src/Server/Router/Guarded.antt =====
-- What the router lets through.
use mathlib.Core.Option
use flowz.Prelude.{
  ℕ, Str, false, Option, none, some, [], ◌≡◌, refl, inl, inr, starts_with, lit, Bool-cases,
}
use flowz.Server.Cookies.{session_cookie, get_cookie_value}
use flowz.Server.Jobs.{unwrap_or}
use flowz.Server.Auth.{
  OidcConfig, SessionClaims, Web, Request, passed, turned_away, admit, verify_session_token,
  require_auth,
}
use flowz.Server.Router.{Route, is_open, router}

turned_away-not_passed :
    (web : Web) {A : Type 0} (req : Request) (a : A) → turned_away web req ≡ passed a → ⊥
turned_away-not_passed web req a h = elim (Bool-cases (starts_with req.path (lit "/api/"))) [
  | inl api ↦ cc (rw api at h)
  | inr page ↦ cc (rw page at h)
]

admits :
    (web : Web) {A : Type 0} (req : Request) (handler : Request → A) (a : A)
    (c : Option SessionClaims)
    → admit web req handler c ≡ passed a
    → (claims : SessionClaims) × (c ≡ some claims) × (a ≡ handler req)
admits web req handler a none h = absurd (turned_away-not_passed web req a h)
admits web req handler a (some claims) h = (claims, refl, cc)

-- With a provider configured, where a request for a route that is not open gets an answer of the handler,
-- it is the handler's answer to that request, and the request came with a session cookie whose token
-- verifies at that time under the server's secret.
pub router-passed :
    (web : Web) {A : Type 0} (oidc : OidcConfig) (secret : Str) (now : ℕ) (route : Route)
    (req : Request) (handler : Request → A) (a : A)
    → is_open route ≡ false
    → router web (some oidc) secret now route req handler ≡ passed a
    → (a ≡ handler req)
      × ((token : Str) × (claims : SessionClaims) × (get_cookie_value
              (unwrap_or req.cookie [])
              session_cookie
            ≡ some token)
          × (web.decode_token secret now token ≡ some claims))
unfolding router require_auth verify_session_token
router-passed web oidc secret now route req handler a shut h =
    let (claims, e, same) = admits web req handler a _ (rw (shut, router) at h) in
    let (token, sent, verified) =
      (Option.bind-eq-some_iff (get_cookie_value (unwrap_or req.cookie []) session_cookie)
          (verify_session_token web secret now)).0
        e in
    (same, (token, claims, sent, verified))
