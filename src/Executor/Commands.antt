-- ===== src/Executor/Commands.antt =====
-- What a step in a jail shows of its environment, and leaves behind.
use flowz.Prelude.{
  ℕ, Str, ◌==◌, ==_refl, contains_char, is_ascii_alphanumeric, to_ascii_lowercase, Bool, true,
  false, not, ◌&&◌, ◌||◌, eqb, leb, if◌then◌else◌, keep, List, [], ◌∷◌, ◌++◌, any, All, Option,
  none, some, ◌≡◌, refl, ap, ◌∙◌, sym, subst, inl, inr, arith, Bool-cases, Option-cases,
}
use flowz.Executor.{
  StepContext, sanitize_jail_name, env_lines, DailExecutor, Command, build_dail_command, HostEvent,
  write_file, remove_file, spawn, Output, run_dail, after_write, jail_name, remove_jail,
  env_file_path, after_open, TempDir, env_line, newline_error,
}

-- A character that a jail's name may hold.
abbrev pub is_jail_char : ℕ → Bool
is_jail_char c = (leb b'0' c && leb c b'9') || (leb b'a' c && leb c b'z') || eqb c b'-'

clean_char :
    (c : ℕ)
    → is_jail_char (if is_ascii_alphanumeric c || eqb c b'-' then to_ascii_lowercase c else b'-')
      ≡ true
unfolding is_ascii_alphanumeric to_ascii_lowercase
clean_char c = ground arith

kept_char :
    (c : ℕ)
    → is_jail_char c ≡ true
    → (if is_ascii_alphanumeric c || eqb c b'-' then to_ascii_lowercase c else b'-') ≡ c
unfolding is_ascii_alphanumeric to_ascii_lowercase
kept_char c h = ground arith

clean : (s : Str) → All (λ c. is_jail_char c ≡ true) (sanitize_jail_name s)
unfolding sanitize_jail_name
clean [] = tt
clean (c ∷ s) = (clean_char c, clean s)

unchanged : (s : Str) → All (λ c. is_jail_char c ≡ true) s → sanitize_jail_name s ≡ s
unfolding sanitize_jail_name
unchanged [] h = refl
unchanged (c ∷ s) h = cc (kept_char c h.0, unchanged s h.1)

-- Every name of a jail is made of lower-case letters, digits and dashes, and a name that already is
-- stays as it is.
pub sanitize_jail_name-clean :
    ((s : Str) → All (λ c. is_jail_char c ≡ true) (sanitize_jail_name s))
    × ((s : Str) → All (λ c. is_jail_char c ≡ true) s → sanitize_jail_name s ≡ s)
sanitize_jail_name-clean = (clean, unchanged)

-- The commands among the events.
abbrev pub commands : List HostEvent → List Command
commands [] = []
commands (spawn c ∷ es) = c ∷ commands es
commands (write_file f t ∷ es) = commands es
commands (remove_file f ∷ es) = commands es

-- The files that were written and not removed afterwards.
abbrev pub files_after : List Str → List HostEvent → List Str
files_after files [] = files
files_after files (spawn c ∷ es) = files_after files es
files_after files (write_file f t ∷ es) = files_after (f ∷ keep (λ g. not (g == f)) files) es
files_after files (remove_file f ∷ es) = files_after (keep (λ g. not (g == f)) files) es

-- A variable that the file cannot take: its value has a newline, or its line cannot be written.
abbrev pub is_bad : TempDir → Str × Str → Bool
is_bad temp (k, v) = contains_char v 10 || is_error (temp.write_error (env_line k v))
  where
    is_error : Option (Str × Str) → Bool
    is_error none = false
    is_error (some e) = true

abbrev pub has_bad : TempDir → List (Str × Str) → Bool
has_bad temp env = any (is_bad temp) env

stops :
    (temp : TempDir) (env : List (Str × Str))
    → has_bad temp env ≡ true
    → (e : Str) × ((env_lines temp env).1 ≡ some e)
unfolding env_lines
stops temp [] h = absurd (cc)
stops temp ((k, v) ∷ env) h = elim (Bool-cases (contains_char v 10)) [
  | inl bad ↦ (newline_error k, rw bad)
  | inr good ↦ elim (Option-cases (temp.write_error (env_line k v))) [
    | inr ((part, e), bad) ↦ (e, rw (good, bad))
    | inl fine ↦ let (e, p) = stops temp env (rw (good, fine) at h) in (e, rw (good, fine) p)
  ]
]

goes_on :
    (temp : TempDir) (env : List (Str × Str))
    → has_bad temp env ≡ false
    → (env_lines temp env).1 ≡ none
unfolding env_lines
goes_on temp [] h = refl
goes_on temp ((k, v) ∷ env) h = elim (Bool-cases (contains_char v 10)) [
  | inl bad ↦ absurd (cc (rw bad at h))
  | inr good ↦ elim (Option-cases (temp.write_error (env_line k v))) [
    | inr (e, bad) ↦ absurd (cc (rw (good, bad) at h))
    | inl fine ↦ rw (good, fine) (goes_on temp env (rw (good, fine) at h))
  ]
]

module _ (spawned : Command → Output) (temp : TempDir) (exec : DailExecutor)
    (ctx : StepContext) where
  -- What is left by whether the file can be opened.
  abbrev Removed : Option Str → Type 0
  Removed opened = files_after [] (after_open spawned temp exec ctx opened).0 ≡ []

  abbrev Stays : Option Str → Type 0
  Stays opened =
      (files_after [] (after_open spawned temp exec ctx opened).0
        ≡ env_file_path temp.path ctx ∷ [])
      × (commands (after_open spawned temp exec ctx opened).0 ≡ remove_jail exec ctx ∷ [])

  abbrev Untouched : Option Str → Type 0
  Untouched opened =
      Removed opened
      × (commands (after_open spawned temp exec ctx opened).0 ≡ remove_jail exec ctx ∷ [])

  removed : has_bad temp ctx.env ≡ false → Removed none
  removed good = rw (goes_on temp ctx.env good, ==_refl (env_file_path temp.path ctx))

  stays : has_bad temp ctx.env ≡ true → Stays none
  stays bad = let (e, p) = stops temp ctx.env bad in (rw p, rw p)

  -- The file with the environment is gone when the step returns, and never there if it cannot be opened,
  -- unless a value has a newline or a line cannot be written: then it stays. In both cases in which
  -- something fails, no process is started but the one that removes the jail.
  pub run_dail-files :
      (temp.open_error ≡ none
        → has_bad temp ctx.env ≡ false
        → files_after [] (run_dail spawned temp exec ctx).0 ≡ [])
      × (temp.open_error ≡ none
          → has_bad temp ctx.env ≡ true
          → (files_after [] (run_dail spawned temp exec ctx).0 ≡ env_file_path temp.path ctx ∷ [])
            × (commands (run_dail spawned temp exec ctx).0 ≡ remove_jail exec ctx ∷ []))
      × ((e : Str)
          → temp.open_error ≡ some e
          → (files_after [] (run_dail spawned temp exec ctx).0 ≡ [])
            × (commands (run_dail spawned temp exec ctx).0 ≡ remove_jail exec ctx ∷ []))
  unfolding run_dail
  run_dail-files = (
    λ opened good. subst Removed (sym opened) (removed good),
    λ opened bad. subst Stays (sym opened) (stays bad),
    λ e closed. subst Untouched (sym closed) (refl, refl),
  )

  last :
      (stopped : Option Str) (file : Str) (cmd : Command)
      → (before : List Command) × (commands (after_write spawned file exec ctx cmd stopped).0
          ≡ before ++ remove_jail exec ctx ∷ [])
  last none file cmd = (cmd ∷ [], refl)
  last (some e) file cmd = ([], refl)

  last_of :
      (opened : Option Str)
      → (before : List Command) × (commands (after_open spawned temp exec ctx opened).0
          ≡ before ++ remove_jail exec ctx ∷ [])
  last_of (some e) = ([], refl)
  last_of none = last (env_lines temp ctx.env).1 _ _

  -- The last command of a step removes its jail, on every way out.
  pub run_dail-removes_jail :
      (before : List Command) × (commands (run_dail spawned temp exec ctx).0
        ≡ before ++ remove_jail exec ctx ∷ [])
  unfolding run_dail
  run_dail-removes_jail = last_of temp.open_error

-- The commands of a step whose environment can be written, by whether the file can be opened.
abbrev expected : TempDir → DailExecutor → StepContext → Option Str → List Command
expected temp exec ctx (some e) = remove_jail exec ctx ∷ []
expected temp exec ctx none =
    build_dail_command exec.priv_tool exec.dail_bin (jail_name ctx) exec.workspace_mount
      (env_file_path temp.path ctx) ctx
    ∷ remove_jail exec ctx
    ∷ []

runs :
    (spawned : Command → Output) (temp : TempDir) (exec : DailExecutor) (ctx : StepContext)
    (opened : Option Str)
    → has_bad temp ctx.env ≡ false
    → commands (after_open spawned temp exec ctx opened).0 ≡ expected temp exec ctx opened
runs spawned temp exec ctx (some e) h = refl
runs spawned temp exec ctx none h =
    ap
      (λ st.
        commands
          (after_write spawned (env_file_path temp.path ctx) exec ctx
            (build_dail_command exec.priv_tool exec.dail_bin (jail_name ctx) exec.workspace_mount
              (env_file_path temp.path ctx) ctx)
            st).0)
      (goes_on temp ctx.env h)

same_command :
    (temp : TempDir) (exec : DailExecutor) (ctx : StepContext) (e f : Str × Str)
    (env env' : List (Str × Str)) (opened : Option Str)
    → expected temp exec (record ctx { env = e ∷ env }) opened
      ≡ expected temp exec (record ctx { env = f ∷ env' }) opened
unfolding build_dail_command jail_name
same_command temp exec ctx e f env env' (some x) = refl
same_command temp exec ctx e f env env' none = refl

-- No command of a step depends on the values of its environment: steps that differ only there, and
-- whose environments are not empty and can be written, start the same processes.
pub commands-env :
    (spawned : Command → Output) (temp : TempDir) (exec : DailExecutor) (ctx : StepContext)
    (e f : Str × Str) (env env' : List (Str × Str))
    → has_bad temp (e ∷ env) ≡ false
    → has_bad temp (f ∷ env') ≡ false
    → commands (run_dail spawned temp exec (record ctx { env = e ∷ env })).0
      ≡ commands (run_dail spawned temp exec (record ctx { env = f ∷ env' })).0
unfolding run_dail
commands-env spawned temp exec ctx e f env env' h k =
    runs spawned temp exec (record ctx { env = e ∷ env }) temp.open_error h
    ∙ same_command temp exec ctx e f env env' temp.open_error
    ∙ sym (runs spawned temp exec (record ctx { env = f ∷ env' }) temp.open_error k)
