-- ===== src/Server/Auth/Sessions.antt =====
-- When a login begins a session.
use mathlib.Core.Option
use flowz.Prelude.{
  ℕ, Str, lit, starts_with, ◌==◌, ==_iff, is_empty, Bool, true, false, List, [], ◌∷◌, ◌++◌, Option,
  none, some, All, ◌≡◌, refl, ap, ◌∙◌, ◌⊎◌, inl, inr, Bool-cases, arith,
}
use flowz.Server.Cookies.{
  session_cookie, state_cookie, next_cookie, get_cookie_value, set_cookie, clear_cookie,
}
use flowz.Server.Jobs.{unwrap_or}
use flowz.Server.Provider.{
  endpoints, TokenResponse, Exchange, failed, rejected, unreadable, granted, Provider,
  fetch_userinfo,
}
use flowz.Server.Auth.{
  OidcConfig, Web, Response, service_unavailable, panic, redirect, redirect_to, cookies_of,
  create_session_token, not_empty, CallbackQuery, fail, path_only, next_location, user_of, issue,
  exchanged, token_body, with_state, with_code, without_error, callback_of,
}

-- Each cookie that the response sets fits the location that it leads to.
abbrev pub Sets : (Str → Str → Type 0) → Response → Type 0
Sets P service_unavailable = Unit
Sets P panic = Unit
Sets P (redirect cookies location) = All (P location) cookies

cookies_of-All :
    (web : Web) (P : Str → Type 0) (cs : List Str) → All P cs → All P (cookies_of web cs)
cookies_of-All web P [] h = tt
cookies_of-All web P (c ∷ cs) (h, k) = elim (Bool-cases (web.is_header_value c)) [
  | inl fine ↦ rw fine (h, cookies_of-All web P cs k)
  | inr bad ↦ rw bad (cookies_of-All web P cs k)
]

redirect_to-Sets :
    (web : Web) (P : Str → Str → Type 0) (cs : List Str) (location : Str)
    → All (P location) cs
    → Sets P (redirect_to web (cookies_of web cs) location)
redirect_to-Sets web P cs location h = elim (Bool-cases (web.is_header_value location)) [
  | inl fine ↦ rw fine (cookies_of-All web (P location) cs h)
  | inr bad ↦ rw bad tt
]

not_empty-some :
    (o : Option Str) {s : Str} → not_empty o ≡ some s → (o ≡ some s) × (is_empty s ≡ false)
not_empty-some none h = absurd (cc h)
not_empty-some (some []) h = absurd (cc h)
not_empty-some (some (c ∷ t)) h = ground arith

path_only-local :
    (o : Option Str) (d : Str)
    → (starts_with (unwrap_or (path_only o) d) (lit "/") ≡ true) ⊎ (unwrap_or (path_only o) d ≡ d)
path_only-local none d = inr refl
path_only-local (some s) d = elim (Bool-cases (starts_with s (lit "/"))) [
  | inl local ↦ inl (rw (local, local) refl)
  | inr other ↦ inr (rw other refl)
]

module _ (web : Web) (provider : Provider) (oidc : OidcConfig) (secret : Str) (now : ℕ)
    (cookie : Option Str) (q : CallbackQuery) where
  abbrev header : Str
  header = unwrap_or cookie []

  -- The request has a code and the state of the browser's cookie, and no error.
  abbrev pub Asked : Str → Str → Type 0
  Asked code state =
      (q.error ≡ none)
      × (q.code ≡ some code)
      × (is_empty code ≡ false)
      × (q.state ≡ some state)
      × (is_empty state ≡ false)
      × (get_cookie_value (unwrap_or cookie []) state_cookie ≡ some state)

  abbrev pub addresses : Str × Str
  addresses = endpoints provider (unwrap_or oidc.base_url oidc.issuer) oidc.base_url

  -- The provider took the code, and the token that it gave belongs to a user.
  abbrev pub Grants : Str → Str → Option Str → Type 0
  Grants code sub email =
      (given : TokenResponse) × (provider.exchange addresses.0
          (token_body web provider oidc secret now code)
        ≡ granted given)
      × (user_of provider given (fetch_userinfo provider addresses.1 given) ≡ (sub, email))
      × (is_empty sub ≡ false)

  abbrev pub IsSession : Str → Str → Option Str → Type 0
  IsSession text sub email =
      (token : Str) × (create_session_token web secret now sub email ≡ some token)
      × (text
          ≡ set_cookie session_cookie token 86400 (starts_with oidc.redirect_uri (lit "https://")))

  -- The cookie begins the session of a user who the provider vouches for, and the page behind the login
  -- is a path or the one of the configuration.
  pub record Begins (location text : Str) : Type 0 where
    pub code : Str
    pub state : Str
    pub sub : Str
    pub email : Option Str
    pub asked : Asked code state
    pub grants : Grants code sub email
    pub session : IsSession text sub email
    pub local : (starts_with location (lit "/") ≡ true) ⊎ (location ≡ oidc.post_login_redirect)

  abbrev pub Ends : Str → Type 0
  Ends text =
      (text ≡ clear_cookie state_cookie (starts_with oidc.redirect_uri (lit "https://")))
      ⊎ (text ≡ clear_cookie next_cookie (starts_with oidc.redirect_uri (lit "https://")))

  abbrev pub Allowed : Str → Str → Type 0
  Allowed location text = Ends text ⊎ Begins location text

  abbrev is_https : Bool
  is_https = starts_with oidc.redirect_uri (lit "https://")

  abbrev cleared : List Str
  cleared = clear_cookie state_cookie is_https ∷ clear_cookie next_cookie is_https ∷ []

  cleared-Allowed : (location : Str) → All (Allowed location) cleared
  cleared-Allowed location = (inl (inl refl), (inl (inr refl), tt))

  fails : (m : Str) → Sets Allowed (fail web provider oidc secret now m)
  fails m =
      redirect_to-Sets web Allowed cleared _ (cleared-Allowed (lit "/?auth_error=" ++ web.encode m))

  abbrev next : Str
  next = next_location web provider oidc secret now header

  next-local : (starts_with next (lit "/") ≡ true) ⊎ (next ≡ oidc.post_login_redirect)
  next-local =
      path_only-local (Option.bind (get_cookie_value header next_cookie) web.decode)
        oidc.post_login_redirect

  module _ (code state : Str) (asked : Asked code state) where
    issues :
        (sub : Str) (email : Option Str) (t : Option Str)
        → Grants code sub email
        → create_session_token web secret now sub email ≡ t
        → Sets Allowed (issue web provider oidc secret now next t)
    issues sub email none g h = fails web.session_error
    issues sub email (some token) g h =
        let begins : Begins next (set_cookie session_cookie token 86400 is_https) = record {
          code = code;
          state = state;
          sub = sub;
          email = email;
          asked = asked;
          grants = g;
          session = (token, h, refl);
          local = next-local;
        } in
        redirect_to-Sets web Allowed (set_cookie session_cookie token 86400 is_https ∷ cleared) next
          (inr begins, cleared-Allowed next)

    exchanges :
        (e : Exchange)
        → provider.exchange addresses.0 (token_body web provider oidc secret now code) ≡ e
        → Sets Allowed (exchanged web provider oidc secret now next addresses.1 e)
    exchanges (failed e) h = fails (web.message (failed e))
    exchanges (rejected e) h = fails (web.message (rejected e))
    exchanges (unreadable e) h = fails (web.message (unreadable e))
    exchanges (granted token) h =
        let (sub, email) = user_of provider token (fetch_userinfo provider addresses.1 token) in
        elim (Bool-cases (is_empty sub)) [
          | inl nobody ↦ rw nobody (fails (lit "provider returned no subject"))
          | inr someone ↦ rw someone (
              issues sub email (create_session_token web secret now sub email)
                (token, h, refl, someone) refl)
        ]

  states :
      (code state : Str) (c : Option Str)
      → (get_cookie_value header state_cookie ≡ some state → Asked code state)
      → get_cookie_value header state_cookie ≡ c
      → Sets Allowed (with_state web provider oidc secret now code state header c)
  states code state none h e = fails (lit "missing or expired state")
  states code state (some c) h e = elim (Bool-cases (c == state)) [
    | inr other ↦ rw other (fails (lit "state mismatch (CSRF)"))
    | inl same ↦ rw same (
        exchanges code state (h (e ∙ ap (λ s. some s) ((==_iff c state).0 same)))
          (provider.exchange addresses.0 (token_body web provider oidc secret now code)) refl)
  ]

  codes :
      (c s : Option Str)
      → q.error ≡ none
      → not_empty q.code ≡ c
      → not_empty q.state ≡ s
      → Sets Allowed (with_code web provider oidc secret now header c s)
  codes none s e h k = fails (lit "missing code")
  codes (some code) none e h k = fails (lit "missing state")
  codes (some code) (some state) e h k =
      let (given, full) = not_empty-some q.code h in
      let (sent, whole) = not_empty-some q.state k in
      states code state (get_cookie_value header state_cookie)
        (λ same. (e, given, full, sent, whole, same)) refl

  errors :
      (e : Option Str)
      → q.error ≡ e
      → Sets Allowed (without_error web provider oidc secret now header q e)
  errors none e = codes (not_empty q.code) (not_empty q.state) e refl refl
  errors (some err) e = fails (unwrap_or q.error_description err)

  -- Each cookie that the callback sets either ends the login, or begins a session. It begins one only for
  -- a request that has no error, a code, and the state that the browser keeps in its cookie, both not
  -- empty; where the provider took that code, and names a user who is not the empty text; for that user,
  -- with the token made of the claims. The page behind is then a path or the one of the configuration.
  pub callback_of-Sets : Sets Allowed (callback_of web provider oidc secret now cookie q)
  unfolding callback_of
  callback_of-Sets = errors q.error refl
