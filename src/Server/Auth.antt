-- ===== src/Server/Auth.antt =====
-- src/server/auth.rs: the session, the gate in front of the pages, and the login. The encoding of tokens
-- and of links, and the identity provider, are parameters; a time is a number of seconds.
pub mod Sessions
pub mod Gates
mod Tests
use mathlib.Core.Option
use flowz.Prelude.{
  ℕ, ◌+◌, Str, lit, map, to_ascii_lowercase, starts_with, ◌==◌, is_empty, Bool, true, false, not,
  ◌&&◌, ◌||◌, if◌then◌else◌, List, [], ◌∷◌, ◌++◌, Option, none, some,
}
use flowz.Server.Cookies.{
  session_cookie, state_cookie, next_cookie, get_cookie_value, set_cookie, clear_cookie,
  append_cookie,
}
use flowz.Server.Jobs.{unwrap_or}
use flowz.Server.Provider.{
  normalize_base, endpoints, TokenResponse, Userinfo, Exchange, failed, rejected, unreadable,
  granted, Provider, fetch_userinfo, parse_id_token,
}

pub record OidcConfig : Type 0 where
  pub issuer : Str
  pub base_url : Option Str
  pub client_id : Str
  pub client_secret : Str
  pub redirect_uri : Str
  pub tls_insecure : Bool
  pub ca_file : Option Str
  pub post_login_redirect : Str

abbrev pub not_empty : Option Str → Option Str
not_empty none = none
not_empty (some []) = none
not_empty (some (c ∷ s)) = some (c ∷ s)

abbrev pub or_else : Option Str → Option Str → Option Str
or_else none other = other
or_else (some s) other = some s

abbrev pub is_yes : Option Str → Bool
is_yes none = false
is_yes (some v) =
    let w = map to_ascii_lowercase v in w == lit "1" || w == lit "true" || w == lit "yes"

-- `from_env`; `var` are the variables of the environment.
module _ (var : Str → Option Str) where
  abbrev pub var_of : Str → Option Str
  var_of name =
      or_else (not_empty (var (lit "OIDC_" ++ name))) (not_empty (var (lit "ZID_" ++ name)))

  abbrev pub config_of : Option Str → Option Str → Option Str → Option Str → Option OidcConfig
  config_of (some client_id) (some client_secret) (some issuer) (some redirect_uri) = some (record {
    issuer = issuer;
    base_url = var_of (lit "BASE_URL");
    client_id = client_id;
    client_secret = client_secret;
    redirect_uri = redirect_uri;
    tls_insecure = is_yes (var_of (lit "TLS_INSECURE"));
    ca_file = var_of (lit "CA_FILE");
    post_login_redirect = unwrap_or (not_empty (var (lit "OIDC_POST_LOGIN_REDIRECT"))) (lit "/");
  })
  config_of _ _ _ _ = none

  abbrev pub from_env : Option OidcConfig
  from_env =
      config_of (var_of (lit "CLIENT_ID")) (var_of (lit "CLIENT_SECRET")) (var_of (lit "ISSUER"))
        (var_of (lit "REDIRECT_URI"))

pub record SessionClaims : Type 0 where
  pub sub : Str
  pub email : Option Str
  pub exp : ℕ
  pub iat : ℕ

-- The libraries: the encoding of links, with its inverse, and of tokens under a secret, whose inverse
-- depends on the time; the form of a header; and the texts of the messages.
pub record Web : Type 0 where
  pub encode : Str → Str
  pub decode : Str → Option Str
  pub encode_token : Str → SessionClaims → Option Str
  pub decode_token : Str → ℕ → Str → Option SessionClaims
  pub is_header_value : Str → Bool
  pub message : Exchange → Str
  pub session_error : Str

-- A temporary redirect sets cookies and names a location. The library panics where the location has not
-- the form of a header.
pub data Response : Type 0 where
  service_unavailable panic : Response
  redirect : List Str → Str → Response

module _ (web : Web) where
  abbrev pub redirect_to : List Str → Str → Response
  redirect_to cookies location =
      if web.is_header_value location then redirect cookies location else panic

  abbrev pub cookies_of : List Str → List Str
  cookies_of [] = []
  cookies_of (c ∷ cs) = append_cookie web.is_header_value [] c ++ cookies_of cs

  -- `create_session_token`
  abbrev pub session_claims : ℕ → Str → Option Str → SessionClaims
  session_claims now sub email = record { sub = sub; email = email; exp = now + 86400; iat = now }

  unfoldable pub create_session_token : Str → ℕ → Str → Option Str → Option Str
  create_session_token secret now sub email = web.encode_token secret (session_claims now sub email)

  -- `verify_session_token`
  unfoldable pub verify_session_token : Str → ℕ → Str → Option SessionClaims
  verify_session_token secret now token = web.decode_token secret now token

  -- `error_redirect`
  abbrev pub error_redirect : Str → Bool → Response
  error_redirect message secure =
      redirect_to
        (cookies_of (clear_cookie state_cookie secure ∷ clear_cookie next_cookie secure ∷ []))
        (lit "/?auth_error=" ++ web.encode message)

  -- `login`; `csrf` is a new identifier.
  abbrev pub login : Option OidcConfig → Str → Option Str → Response
  login none csrf next = service_unavailable
  login (some oidc) csrf next =
      let secure = starts_with oidc.redirect_uri (lit "https://") in
      redirect_to
        (cookies_of (
          set_cookie state_cookie csrf 300 secure
          ∷ set_cookie next_cookie (web.encode (unwrap_or next oidc.post_login_redirect)) 300 secure
          ∷ []))
        (normalize_base oidc.issuer
          ++ (lit "/oauth/authorize?response_type=code&client_id="
              ++ (web.encode oidc.client_id
                  ++ (lit "&redirect_uri="
                      ++ (web.encode oidc.redirect_uri
                          ++ (lit "&scope=openid%20profile%20email&state=" ++ web.encode csrf))))))

  -- `logout`
  abbrev pub is_secure : Option OidcConfig → Bool
  is_secure none = false
  is_secure (some oidc) = starts_with oidc.redirect_uri (lit "https://")

  abbrev pub logout : Option OidcConfig → Response
  logout oidc =
      redirect_to (cookies_of (clear_cookie session_cookie (is_secure oidc) ∷ [])) (lit "/")

-- A request: its path, its path with the query, and its header of cookies where that is a text.
pub record Request : Type 0 where
  pub path : Str
  pub path_and_query : Option Str
  pub cookie : Option Str

-- What the gate does with a request.
pub data Gate {ℓ} (A : Type ℓ) : Type ℓ where
  passed : A → Gate A
  unauthorized : Gate A
  to_login : Str → Gate A

module _ (web : Web) {A : Type 0} where
  abbrev pub turned_away : Request → Gate A
  turned_away req =
      if starts_with req.path (lit "/api/")
      then unauthorized
      else to_login
          (lit "/auth/zid/login?next=" ++ web.encode (unwrap_or req.path_and_query (lit "/")))

  abbrev pub admit : Request → (Request → A) → Option SessionClaims → Gate A
  admit req next none = turned_away req
  admit req next (some claims) = passed (next req)

  -- `require_auth`; `next` is the handler behind the gate.
  unfoldable pub require_auth : Str → ℕ → Request → (Request → A) → Gate A
  require_auth secret now req next = admit req next (
      Option.bind (get_cookie_value (unwrap_or req.cookie []) session_cookie)
        (verify_session_token web secret now))

pub record CallbackQuery : Type 0 where
  pub code : Option Str
  pub state : Option Str
  pub error : Option Str
  pub error_description : Option Str

abbrev pub path_only : Option Str → Option Str
path_only none = none
path_only (some s) = if starts_with s (lit "/") then some s else none

abbrev pub or_email : Option Str → Option Str → Option Str
or_email none other = other
or_email (some e) other = some e

-- The user: what the provider says, or else the token.
module _ (provider : Provider) where
  abbrev pub fallback : Option Str → Option Userinfo → Str × Option Str
  fallback email none = ([], email)
  fallback email (some u) = (u.sub, or_email email u.email)

  abbrev pub user_of : TokenResponse → Option Userinfo → Str × Option Str
  user_of token none = fallback none (Option.bind token.id_token (parse_id_token provider))
  user_of token (some u) =
      if is_empty u.sub
      then fallback u.email (Option.bind token.id_token (parse_id_token provider))
      else (u.sub, u.email)

module _ (web : Web) (provider : Provider) (oidc : OidcConfig) (secret : Str) (now : ℕ) where
  abbrev pub secure : Bool
  secure = starts_with oidc.redirect_uri (lit "https://")

  abbrev pub fail : Str → Response
  fail message = error_redirect web message secure

  -- Where a login leads.
  abbrev pub next_location : Str → Str
  next_location cookie_header =
      unwrap_or (path_only (Option.bind (get_cookie_value cookie_header next_cookie) web.decode))
        oidc.post_login_redirect

  abbrev pub issue : Str → Option Str → Response
  issue next none = fail web.session_error
  issue next (some token) =
      redirect_to web
        (cookies_of web (
          set_cookie session_cookie token 86400 secure
          ∷ clear_cookie state_cookie secure
          ∷ clear_cookie next_cookie secure
          ∷ []))
        next

  abbrev pub start_session : Str → Str × Option Str → Response
  start_session next (sub, email) =
      if is_empty sub
      then fail (lit "provider returned no subject")
      else issue next (create_session_token web secret now sub email)

  abbrev pub exchanged : Str → Str → Exchange → Response
  exchanged next userinfo_endpoint (granted token) =
      start_session next (user_of provider token (fetch_userinfo provider userinfo_endpoint token))
  exchanged next userinfo_endpoint (failed e) = fail (web.message (failed e))
  exchanged next userinfo_endpoint (rejected e) = fail (web.message (rejected e))
  exchanged next userinfo_endpoint (unreadable e) = fail (web.message (unreadable e))

  abbrev pub token_body : Str → Str
  token_body code =
      lit "grant_type=authorization_code&client_id="
      ++ (web.encode oidc.client_id
          ++ (lit "&client_secret="
              ++ (web.encode oidc.client_secret
                  ++ (lit "&redirect_uri="
                      ++ (web.encode oidc.redirect_uri ++ (lit "&code=" ++ web.encode code))))))

  abbrev pub with_endpoints : Str → Str → Str × Str → Response
  with_endpoints code next (token_endpoint, userinfo_endpoint) =
      exchanged next userinfo_endpoint (provider.exchange token_endpoint (token_body code))

  abbrev pub with_state : Str → Str → Str → Option Str → Response
  with_state code state_q header none = fail (lit "missing or expired state")
  with_state code state_q header (some c) =
      if c == state_q
      then with_endpoints code (next_location header)
          (endpoints provider (unwrap_or oidc.base_url oidc.issuer) oidc.base_url)
      else fail (lit "state mismatch (CSRF)")

  abbrev pub with_code : Str → Option Str → Option Str → Response
  with_code header none state = fail (lit "missing code")
  with_code header (some code) none = fail (lit "missing state")
  with_code header (some code) (some state_q) =
      with_state code state_q header (get_cookie_value header state_cookie)

  abbrev pub without_error : Str → CallbackQuery → Option Str → Response
  without_error header q none = with_code header (not_empty q.code) (not_empty q.state)
  without_error header q (some err) = fail (unwrap_or q.error_description err)

  -- `callback` where a provider is configured.
  unfoldable pub callback_of : Option Str → CallbackQuery → Response
  callback_of cookie q = without_error (unwrap_or cookie []) q q.error

-- `callback`
abbrev pub callback :
    Web → Provider → Option OidcConfig → Str → ℕ → Option Str → CallbackQuery → Response
callback web provider none secret now cookie q = service_unavailable
callback web provider (some oidc) secret now cookie q =
    callback_of web provider oidc secret now cookie q
