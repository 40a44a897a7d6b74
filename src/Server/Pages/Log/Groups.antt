-- ===== src/Server/Pages/Log/Groups.antt =====
-- The groups that the page of a run shows its log in.
use mathlib.Core.List.{append_assoc}
use flowz.Prelude.{
  ℕ, Str, ◌==◌, ==_iff, Bool, true, not, List, [], ◌∷◌, ◌++◌, flat_map, Option, none, some, All,
  append_nil, ◌≡◌, ◌≢◌, refl, ap, sym, ◌∙◌, Bool-cases, inl, inr,
}
use flowz.Model.{Run, StepRecord}
use flowz.Store.Runs.{get_run}
use flowz.Store.Sql.{Engine}
use flowz.Store.Tables.{Db}
use flowz.Store.Steps.{list_steps}
use flowz.Store.Logs.{get_logs}
use flowz.Server.Jobs.{unwrap_or}
use flowz.Server.Pages.{Display, is_made}
use flowz.Server.Pages.Log.{
  LogGroup, status_map, add_line, log_groups, RunPage, run_page, answer_run, answer_page, shown,
  ui_run,
}

abbrev pub tagged : Str → List Str → List (Str × Str)
tagged step [] = []
tagged step (line ∷ lines) = (step, line) ∷ tagged step lines

abbrev pub entries_of : LogGroup → List (Str × Str)
entries_of g = tagged g.step g.lines

abbrev pub differs_from : Str → List LogGroup → Bool
differs_from step [] = true
differs_from step (g ∷ groups) = not (step == g.step)

-- No two groups of one step stand side by side.
abbrev pub Alternates : List LogGroup → Type 0
Alternates [] = Unit
Alternates (g ∷ groups) = (differs_from g.step groups ≡ true) × Alternates groups

-- A group shows the status of its step, and is not empty.
abbrev pub IsGroup : List StepRecord → LogGroup → Type 0
IsGroup steps g = (g.status ≡ unwrap_or (status_map steps g.step) []) × (g.lines ≢ [])

tagged-snoc :
    (step : Str) (lines : List Str) (line : Str)
    → tagged step (lines ++ line ∷ []) ≡ tagged step lines ++ (step, line) ∷ []
tagged-snoc step [] line = refl
tagged-snoc step (l ∷ lines) line = ap (λ ws. (step, l) ∷ ws) (tagged-snoc step lines line)

snoc-ne-nil : (lines : List Str) (line : Str) → lines ++ line ∷ [] ≢ []
snoc-ne-nil [] line h = cc h
snoc-ne-nil (l ∷ lines) line h = cc h

module _ (steps : List StepRecord) where
  add_line-entries :
      (groups : List LogGroup) (step line : Str)
      → flat_map entries_of (add_line steps groups (step, line))
        ≡ flat_map entries_of groups ++ (step, line) ∷ []
  add_line-entries [] step line = refl
  add_line-entries (g ∷ []) step line =
      let alone : entries_of g ≡ entries_of g ++ [] = sym (append_nil (entries_of g)) in
      elim (Bool-cases (g.step == step)) [
        | inl same ↦ rw same (
            append_nil (tagged g.step (g.lines ++ line ∷ []))
            ∙ tagged-snoc g.step g.lines line
            ∙ ap (λ s. entries_of g ++ (s, line) ∷ []) ((==_iff g.step step).0 same)
            ∙ ap (λ es. es ++ (step, line) ∷ []) alone)
        | inr other ↦ rw other (ap (λ es. es ++ (step, line) ∷ []) alone)
      ]
  add_line-entries (g ∷ h ∷ groups) step line =
      ap (λ es. entries_of g ++ es) (add_line-entries (h ∷ groups) step line)
      ∙ sym (append_assoc (entries_of g) (flat_map entries_of (h ∷ groups)) ((step, line) ∷ []))

  log_groups-entries :
      (groups : List LogGroup) (entries : List (Str × Str))
      → flat_map entries_of (log_groups steps groups entries)
        ≡ flat_map entries_of groups ++ entries
  unfolding log_groups
  log_groups-entries groups [] = sym (append_nil (flat_map entries_of groups))
  log_groups-entries groups ((step, line) ∷ entries) =
      log_groups-entries (add_line steps groups (step, line)) entries
      ∙ ap (λ es. es ++ entries) (add_line-entries groups step line)
      ∙ append_assoc (flat_map entries_of groups) ((step, line) ∷ []) entries

  differs-add_line :
      (s : Str) (g : LogGroup) (groups : List LogGroup) (entry : Str × Str)
      → differs_from s (add_line steps (g ∷ groups) entry) ≡ differs_from s (g ∷ groups)
  differs-add_line s g [] (step, line) = elim (Bool-cases (g.step == step)) [
    | inl same ↦ rw same refl
    | inr other ↦ rw other refl
  ]
  differs-add_line s g (h ∷ groups) entry = refl

  add_line-Alternates :
      (groups : List LogGroup) (step line : Str)
      → Alternates groups
      → Alternates (add_line steps groups (step, line))
  add_line-Alternates [] step line h = (refl, tt)
  add_line-Alternates (g ∷ []) step line h = elim (Bool-cases (g.step == step)) [
    | inl same ↦ rw same (refl, tt)
    | inr other ↦ rw (other, other) (refl, (refl, tt))
  ]
  add_line-Alternates (g ∷ k ∷ groups) step line (h, hs) = (
    differs-add_line g.step k groups (step, line) ∙ h,
    add_line-Alternates (k ∷ groups) step line hs,
  )

  add_line-IsGroup :
      (groups : List LogGroup) (step line : Str)
      → All (IsGroup steps) groups
      → All (IsGroup steps) (add_line steps groups (step, line))
  add_line-IsGroup [] step line h = ((refl, λ e. cc e), tt)
  add_line-IsGroup (g ∷ []) step line ((status, full), h) = elim (Bool-cases (g.step == step)) [
    | inl same ↦ rw same ((status, snoc-ne-nil g.lines line), tt)
    | inr other ↦ rw other ((status, full), ((refl, λ e. cc e), tt))
  ]
  add_line-IsGroup (g ∷ k ∷ groups) step line (h, hs) =
      (h, add_line-IsGroup (k ∷ groups) step line hs)

  log_groups-keeps :
      (groups : List LogGroup) (entries : List (Str × Str))
      → Alternates groups
      → All (IsGroup steps) groups
      → Alternates (log_groups steps groups entries)
        × All (IsGroup steps) (log_groups steps groups entries)
  unfolding log_groups
  log_groups-keeps groups [] a h = (a, h)
  log_groups-keeps groups ((step, line) ∷ entries) a h =
      log_groups-keeps (add_line steps groups (step, line)) entries
        (add_line-Alternates groups step line a) (add_line-IsGroup groups step line h)

answered : (p page : RunPage) → answer_page p ≡ shown page → p ≡ page
answered p page h = elim (Bool-cases (is_made p.run)) [
  | inl on ↦ let same : shown p ≡ shown page = rw on at h in cc same
  | inr off ↦ absurd (cc (rw off at h))
]

-- The page of a run that is shown has its log: the groups, one after the other, are the lines of the log
-- in order, each with its step. No group is empty, no two neighbours are of one step, and each shows the
-- status of its step.
pub ui_run-log_groups :
    (engine : Engine) (d : Display) (format_clock human_size : ℕ → Str) (db : Db) (run_id : Str)
    (page : RunPage)
    → ui_run engine d format_clock human_size db run_id ≡ shown page
    → (flat_map entries_of page.log_groups ≡ get_logs db run_id)
      × Alternates page.log_groups
      × All (IsGroup (list_steps db run_id)) page.log_groups
unfolding ui_run
ui_run-log_groups engine d format_clock human_size db run_id page h = of_run (get_run db run_id) h
  where
    of_run :
        (run : Option Run)
        → answer_run engine d format_clock human_size db run_id run ≡ shown page
        → (flat_map entries_of page.log_groups ≡ get_logs db run_id)
          × Alternates page.log_groups
          × All (IsGroup (list_steps db run_id)) page.log_groups
    of_run none e = absurd (cc e)
    of_run (some run) e =
        let whole = answered (run_page engine d format_clock human_size db run_id run) page e in
        let same : page.log_groups ≡ log_groups (list_steps db run_id) [] (get_logs db run_id) =
          sym (ap (λ (p : RunPage). p.log_groups) whole) in
        let kept = log_groups-keeps (list_steps db run_id) [] (get_logs db run_id) tt tt in
        rw same (log_groups-entries (list_steps db run_id) [] (get_logs db run_id), kept.0, kept.1)
