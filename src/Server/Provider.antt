-- ===== src/Server/Provider.antt =====
-- src/server/auth.rs: the addresses of the identity provider, and what it says of a user. The answers to
-- requests, the encoding of tokens and the JSON parser are parameters.
pub mod Base
use mathlib.Core.Option
use flowz.Prelude.{
  ℕ, Str, lit, strip_prefix, starts_with, split, trim_end_by, is_empty, Bool, true, false, not,
  ◌&&◌, ◌||◌, eqb, if◌then◌else◌, List, [], ◌∷◌, ◌++◌, Option, none, some,
}
use flowz.Server.Urls.{split_once}
use flowz.Server.Jobs.{unwrap_or}

-- `normalize_base`
unfoldable pub normalize_base : Str → Str
unfolding trim_end_by starts_with
normalize_base base =
    let b = trim_end_by (eqb b'/') base in
    if is_empty b || (not (starts_with b (lit "http://")) && not (starts_with b (lit "https://")))
    then lit "http://localhost:5555"
    else b

-- What follows the first `p` in a text, `split_once(p)` with what stands before it left out.
abbrev pub behind : Str → Str → Option Str
behind [] p = strip_prefix [] p
behind (c ∷ s) p = elim (strip_prefix (c ∷ s) p) [ none ↦ behind s p | some rest ↦ some rest ]

-- A text from its first slash on, or a slash.
abbrev pub from_slash : Str → Str
from_slash [] = lit "/"
from_slash (c ∷ s) = let rest = from_slash s in if eqb c b'/' then c ∷ s else rest

abbrev pub path_of : Str → Option Str → Str
path_of url none = url
path_of url (some rest) = from_slash rest

abbrev pub without_query : Str → Option (Str × Str) → Str
without_query path none = path
without_query path (some (p, query)) = p

-- `override_base`
unfoldable pub override_base : Str → Str → Str
unfolding strip_prefix trim_end_by
override_base base url =
    let path = path_of url (behind url (lit "://")) in
    trim_end_by (eqb b'/') base ++ without_query path (split_once path b'?')

pub record Discovery : Type 0 where
  pub token_endpoint : Str
  pub userinfo_endpoint : Option Str

pub record TokenResponse : Type 0 where
  pub access_token : Str
  pub id_token : Option Str

pub record Userinfo : Type 0 where
  pub sub : Str
  pub email : Option Str

-- What came of the request for a token: an error of the client, an answer that is no success, with its
-- text, a body that is no token, or a token.
pub data Exchange : Type 0 where
  failed rejected unreadable : Str → Exchange
  granted : TokenResponse → Exchange

-- The provider: the successful answers that could be read, by address, and by address and bearer; what
-- came of a request for a token, by address and body; and the payload of a token with its fields.
pub record Provider : Type 1 where
  pub Value : Type 0
  pub discover : Str → Option Discovery
  pub exchange : Str → Str → Exchange
  pub userinfo : Str → Str → Option Userinfo
  pub decode_payload : Str → Option Value
  pub field : Value → Str → Option Str

module _ (provider : Provider) where
  abbrev pub discovered : Str → Option Str → Option Discovery → Str × Str
  discovered base backend_base none = (base ++ lit "/oauth/token", base ++ lit "/oauth/userinfo")
  discovered base none (some d) =
      (d.token_endpoint, unwrap_or d.userinfo_endpoint (base ++ lit "/oauth/userinfo"))
  discovered base (some b) (some d) = (
    override_base b d.token_endpoint,
    override_base b (unwrap_or d.userinfo_endpoint (base ++ lit "/oauth/userinfo")),
  )

  -- `endpoints`: of tokens, and of user information.
  unfoldable pub endpoints : Str → Option Str → Str × Str
  endpoints discovery_base backend_base =
      let base = normalize_base discovery_base in
      discovered base backend_base
        (provider.discover (base ++ lit "/.well-known/openid-configuration"))

  abbrev pub bearers : TokenResponse → List Str
  bearers token = token.access_token ∷ given token.id_token
    where
      given : Option Str → List Str
      given none = []
      given (some []) = []
      given (some (c ∷ s)) = (c ∷ s) ∷ []

  -- `fetch_userinfo`: the first bearer that is accepted.
  abbrev pub try_bearers : Str → List Str → Option Userinfo
  try_bearers endpoint [] = none
  try_bearers endpoint (bearer ∷ rest) = elim (provider.userinfo endpoint bearer) [
    | none ↦ try_bearers endpoint rest
    | some u ↦ some u
  ]

  abbrev pub fetch_userinfo : Str → TokenResponse → Option Userinfo
  fetch_userinfo endpoint token = try_bearers endpoint (bearers token)

  -- `split('.').nth(1)`
  abbrev pub second : List Str → Option Str
  second [] = none
  second (p ∷ []) = none
  second (p ∷ q ∷ ps) = some q

  abbrev pub identity : provider.Value → Option Str → Option Userinfo
  identity v none = none
  identity v (some sub) = some (record { sub = sub; email = provider.field v (lit "email") })

  -- `parse_id_token`; nothing checks the signature.
  abbrev pub parse_id_token : Str → Option Userinfo
  parse_id_token id_token =
      Option.bind (Option.bind (second (split id_token b'.')) provider.decode_payload)
        (λ v. identity v (provider.field v (lit "sub")))
