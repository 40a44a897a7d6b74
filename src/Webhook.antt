-- ===== src/Webhook.antt =====
-- src/webhook/mod.rs: the signature of a delivery and the push event in it. The code of hexadecimal
-- texts, the HMAC and the JSON parser are parameters; a body is its bytes.
use flowz.Prelude.{
  ℕ, Str, lit, strip_prefix, Bool, List, [], ◌∷◌, Option, none, some, Result, ok, err, ◌>>=◌, guard,
}

pub data WebhookError : Type 0 where
  missing_signature invalid_signature_format signature_mismatch not_push_event : WebhookError
  parse_failed : Str → WebhookError

pub record PushEvent : Type 0 where
  pub repo : Str
  pub branch : Str
  pub commit : Str
  pub clone_url : Str

abbrev pub Verified : Type 0
Verified = Result WebhookError (Unit {0})

-- `ok_or`
abbrev pub ok_or : {A : Type 0} → Option A → WebhookError → Result WebhookError A
ok_or none e = err e
ok_or (some a) e = ok a

-- `verify_slice` says whether a code is that of a body under a key.
unfoldable pub verify_signature :
    (Str → Option (List ℕ)) → (Str → List ℕ → List ℕ → Bool) → Str → List ℕ → Str → Verified
verify_signature decode verify_slice secret body sig_header = do
  hex_sig ← ok_or (strip_prefix sig_header (lit "sha256=")) invalid_signature_format
  expected ← ok_or (decode hex_sig) invalid_signature_format
  guard (verify_slice secret body expected) signature_mismatch

abbrev pub parsed : {A : Type 0} → Result Str A → Result WebhookError A
parsed (ok v) = ok v
parsed (err e) = err (parse_failed e)

-- `as_str` follows keys into a JSON value, to a text.
unfoldable pub parse_push :
    {Value : Type 0}
    → (List ℕ → Result Str Value)
    → (Value → List Str → Option Str)
    → List ℕ
    → Result WebhookError PushEvent
parse_push from_slice as_str body = do
  v ← parsed (from_slice body)
  ref_field ← ok_or (as_str v (lit "ref" ∷ [])) not_push_event
  branch ← ok_or (strip_prefix ref_field (lit "refs/heads/")) not_push_event
  commit ← ok_or (as_str v (lit "after" ∷ [])) not_push_event
  repo ← ok_or (as_str v (lit "repository" ∷ lit "full_name" ∷ [])) not_push_event
  clone_url ← ok_or (as_str v (lit "repository" ∷ lit "clone_url" ∷ [])) not_push_event
  ok (record { repo = repo; branch = branch; commit = commit; clone_url = clone_url })
