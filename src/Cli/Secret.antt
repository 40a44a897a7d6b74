-- ===== src/Cli/Secret.antt =====
-- The secret that the sessions are signed with.
use flowz.Prelude.{
  Str, lit, is_empty, false, [], ◌∷◌, ◌++◌, Option, none, some, Result, ok, err, ◌>>=◌, ◌≡◌, refl,
  ap, sym, ◌∙◌, inl, inr, Bool-cases,
}
use flowz.Server.Jobs.{unwrap_or}
use flowz.Server.Auth.{not_empty, or_else}
use flowz.Cli.{ServerConfig, AppState, Host, server_config, session_secret, app_state, run_server}

not_empty_or :
    (o : Option Str) (random : Str)
    → is_empty random ≡ false
    → is_empty (unwrap_or (not_empty o) random) ≡ false
not_empty_or none random h = h
not_empty_or (some []) random h = h
not_empty_or (some (c ∷ s)) random h = refl

-- A secret that is configured and not empty is used.
not_empty_kept : (s random : Str) → is_empty s ≡ false → unwrap_or (not_empty (some s)) random ≡ s
not_empty_kept [] random h = absurd (cc h)
not_empty_kept (c ∷ s) random h = refl

ok_injective : {A : Type 0} {a b : A} → ◌≡◌ {A = Result Str A} (ok a) (ok b) → a ≡ b
ok_injective e = cc

abbrev pub Starts : Host → (Str → Result Str ServerConfig) → AppState → Type 0
Starts host from_str state =
    (config : ServerConfig) × (server_config host from_str ≡ ok config)
    × (is_empty state.jwt_secret ≡ false)
    × ((s : Str) → config.jwt_secret ≡ some s → is_empty s ≡ false → state.jwt_secret ≡ s)
    × (state.artifacts_dir ≡ config.artifacts_dir)
    × (state.webhook_secret ≡ config.webhook_secret)

-- A server that starts has settings, and a secret for its sessions that is not empty: the one of the
-- settings where that is given and not empty. It has artifacts where its settings say, and the secret of
-- their deliveries. The random text is not empty.
pub run_server-session_secret :
    (host : Host) (from_str : Str → Result Str ServerConfig) (random : Str) (state : AppState)
    → is_empty random ≡ false
    → run_server host from_str random ≡ ok state
    → Starts host from_str state
unfolding run_server
run_server-session_secret host from_str random state fresh h =
    starts (server_config host from_str) refl h
  where
    settled :
        (config : ServerConfig)
        → server_config host from_str ≡ ok config
        → app_state host random config ≡ ok state
        → Starts host from_str state
    settled config read e = elim (Bool-cases (host.can_open (lit "sqlite:" ++ config.db))) [
      | inr shut ↦ absurd (cc (rw shut at e))
      | inl open_db ↦ elim (Bool-cases (host.can_make config.artifacts_dir)) [
        | inr full ↦ absurd (cc (rw (open_db, full) at e))
        | inl made ↦
            let same = ok_injective (rw (open_db, made) at e) in
            let secret : session_secret host config.jwt_secret random ≡ state.jwt_secret =
              ap (λ (s : AppState). s.jwt_secret) same in
            (
              config,
              read,
              ap is_empty (sym secret)
                  ∙ not_empty_or (or_else config.jwt_secret (host.var (lit "FLOWZ_JWT_SECRET")))
                      random fresh,
              λ s given full.
                  sym secret
                  ∙ (ap (λ o. session_secret host o random) given ∙ not_empty_kept s random full),
              sym (ap (λ (s : AppState). s.artifacts_dir) same),
              sym (ap (λ (s : AppState). s.webhook_secret) same),
            )
      ]
    ]

    starts :
        (r : Result Str ServerConfig)
        → server_config host from_str ≡ r
        → (r >>= app_state host random) ≡ ok state
        → Starts host from_str state
    starts (err e) read h = absurd (cc h)
    starts (ok config) read h = settled config read h
