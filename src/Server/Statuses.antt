-- ===== src/Server/Statuses.antt =====
-- src/server/mod.rs: the handler of status posts, with the eviction of artifacts when a run has ended.
use mathlib.Core.Option
use flowz.Prelude.{
  ℕ, ◌-◌, ◌||◌, ==_iff, subst, map, Str, lit, ◌==◌, Bool, true, false, not, if◌then◌else◌, keep,
  any, List, [], ◌∷◌, Option, none, some, ◌≡◌, refl, ap, ◌∙◌, Bool-cases, inl, inr, sym,
}
use flowz.Model.{RunStatus, StepStatus}
use flowz.Store.Sql.{Engine}
use flowz.Store.Tables.{Db, ArtifactRow}
use flowz.Store.Runs.{get_run, update_run_status}
use flowz.Store.Runs.Update.{with_status, get_run-update_run_status}
use flowz.Store.Steps.{update_step_status}
use flowz.Store.Artifacts.{
  delete_artifacts, last_of, distinct_runs, newest, evict_from, retention, evict_old_artifact_runs,
}

abbrev pub step_status_of : Str → StepStatus
step_status_of s =
    if s == lit "running"
    then StepStatus.running
    else if s == lit "success"
    then StepStatus.success
    else if s == lit "failure"
    then StepStatus.failure
    else if s == lit "skipped"
    then StepStatus.skipped
    else StepStatus.pending

abbrev pub run_status_of : Str → RunStatus
run_status_of s =
    if s == lit "running"
    then RunStatus.running
    else if s == lit "success"
    then RunStatus.success
    else if s == lit "failure"
    then RunStatus.failure
    else if s == lit "cancelled"
    then RunStatus.cancelled
    else RunStatus.queued

abbrev pub is_terminal : RunStatus → Bool
is_terminal RunStatus.queued = false
is_terminal RunStatus.running = false
is_terminal RunStatus.success = true
is_terminal RunStatus.failure = true
is_terminal RunStatus.cancelled = true

-- The rows that `evict_artifacts` deletes: those of each stale run.
abbrev pub delete_all : List Str → Db → Db
delete_all [] db = db
delete_all (run_id ∷ stale) db = delete_all stale (delete_artifacts db run_id)

-- `evict_artifacts`, with the runs whose directories it removes.
abbrev pub evict_artifacts : Engine → ℕ → ℕ → Db → List Str × Db
evict_artifacts engine ticks now db =
    let stale = evict_old_artifact_runs engine ticks now db in (stale, delete_all stale db)

-- A step's status is written where the post has both fields.
abbrev pub update_step : ℕ → Db → Str → Option Str → Option Str → Db
update_step now db run_id (some step) (some status) =
    update_step_status now db run_id step (step_status_of status)
update_step now db run_id (some step) none = db
update_step now db run_id none status = db

-- `if terminal { evict_artifacts(..) }`
abbrev pub evict_if : Engine → ℕ → ℕ → Bool → Db → List Str × Db
evict_if engine ticks now true db = evict_artifacts engine ticks now db
evict_if engine ticks now false db = ([], db)

-- The handler `update_run_status`.
abbrev pub post_status : Engine → ℕ → ℕ → Str → Str → Option Str → Option Str → Db → List Str × Db
post_status engine ticks now run_id status step step_status db =
    evict_if engine ticks now (is_terminal (run_status_of status)) (
      update_run_status now (update_step now db run_id step step_status) run_id
        (run_status_of status))

delete_all-get_run :
    (stale : List Str) (db : Db) (j : Str) → get_run (delete_all stale db) j ≡ get_run db j
unfolding get_run delete_artifacts
delete_all-get_run [] db j = refl
delete_all-get_run (run_id ∷ stale) db j = delete_all-get_run stale (delete_artifacts db run_id) j

update_step-get_run :
    (now : ℕ) (db : Db) (run_id : Str) (step status : Option Str) (j : Str)
    → get_run (update_step now db run_id step status) j ≡ get_run db j
unfolding get_run update_step_status
update_step-get_run now db run_id (some step) (some status) j = refl
update_step-get_run now db run_id (some step) none j = refl
update_step-get_run now db run_id none status j = refl

-- An artifact of a run that is not stale.
abbrev pub spared : List Str → ArtifactRow → Bool
spared stale a = not (any (λ run_id. a.run_id == run_id) stale)

keep-keep :
    (stale : List Str) (run_id : Str) (rows : List ArtifactRow)
    → keep (spared stale) (keep (λ (a : ArtifactRow). not (a.run_id == run_id)) rows)
      ≡ keep (spared (run_id ∷ stale)) rows
keep-keep stale run_id [] = refl
keep-keep stale run_id (a ∷ rows) = elim (Bool-cases (a.run_id == run_id)) [
  | inl gone ↦ rw gone (keep-keep stale run_id rows)
  | inr other ↦ elim (Bool-cases (spared stale a)) [
    | inl on ↦ rw (other, on) (ap (λ rs. a ∷ rs) (keep-keep stale run_id rows))
    | inr off ↦ rw (other, off) (keep-keep stale run_id rows)
  ]
]

keep_all : (rows : List ArtifactRow) → keep (spared []) rows ≡ rows
keep_all [] = refl
keep_all (a ∷ rows) = ap (λ rs. a ∷ rs) (keep_all rows)

delete_all-artifacts :
    (stale : List Str) (db : Db)
    → (delete_all stale db).artifacts ≡ keep (spared stale) db.artifacts
unfolding delete_artifacts
delete_all-artifacts [] db = sym (keep_all db.artifacts)
delete_all-artifacts (run_id ∷ stale) db =
    delete_all-artifacts stale (delete_artifacts db run_id) ∙ keep-keep stale run_id db.artifacts

evict_if-get_run :
    (engine : Engine) (ticks now : ℕ) (terminal : Bool) (db : Db) (j : Str)
    → get_run (evict_if engine ticks now terminal db).1 j ≡ get_run db j
evict_if-get_run engine ticks now true db j =
    delete_all-get_run (evict_old_artifact_runs engine ticks now db) db j
evict_if-get_run engine ticks now false db j = refl

evict_if-artifacts :
    (engine : Engine) (ticks now : ℕ) (terminal : Bool) (db : Db)
    → (evict_if engine ticks now terminal db).1.artifacts
      ≡ keep (spared (evict_if engine ticks now terminal db).0) db.artifacts
evict_if-artifacts engine ticks now true db =
    delete_all-artifacts (evict_old_artifact_runs engine ticks now db) db
evict_if-artifacts engine ticks now false db = sym (keep_all db.artifacts)

update_step-artifacts :
    (now : ℕ) (db : Db) (run_id : Str) (step status : Option Str)
    → (update_step now db run_id step status).artifacts ≡ db.artifacts
unfolding update_step_status update_run_status
update_step-artifacts now db run_id (some step) (some status) = refl
update_step-artifacts now db run_id (some step) none = refl
update_step-artifacts now db run_id none status = refl

-- The texts of the statuses that end a run.
abbrev pub ends : Str → Bool
ends s = s == lit "success" || s == lit "failure" || s == lit "cancelled"

ends-is_terminal : (s : Str) → is_terminal (run_status_of s) ≡ ends s
unfolding ◌==◌
ends-is_terminal s = elim (Bool-cases (s == lit "running")) [
  | inl on ↦
      subst (λ t. is_terminal (run_status_of t) ≡ ends t) (sym ((==_iff s (lit "running")).0 on))
        refl
  | inr off ↦ elim (Bool-cases (s == lit "success")) [
    | inl on ↦ rw (off, on)
    | inr other ↦ elim (Bool-cases (s == lit "failure")) [
      | inl on ↦ rw (off, other, on)
      | inr more ↦ elim (Bool-cases (s == lit "cancelled")) [
        | inl on ↦ rw (off, other, more, on)
        | inr none_of ↦ rw (off, other, more, none_of)
      ]
    ]
  ]
]

-- The runs whose artifacts go with a post: those that are stale where the run ends with it.
abbrev pub stale_at : Engine → ℕ → ℕ → Str → Db → List Str
stale_at engine ticks now status db =
    if ends status then evict_old_artifact_runs engine ticks now db else []

evict_if-stale :
    (engine : Engine) (ticks now : ℕ) (terminal : Bool) (db : Db)
    → (evict_if engine ticks now terminal db).0
      ≡ (if terminal then evict_old_artifact_runs engine ticks now db else [])
evict_if-stale engine ticks now true db = refl
evict_if-stale engine ticks now false db = refl

update_step-stale :
    (engine : Engine) (ticks now : ℕ) (db db' : Db)
    → db'.artifacts ≡ db.artifacts
    → evict_old_artifact_runs engine ticks now db' ≡ evict_old_artifact_runs engine ticks now db
unfolding evict_old_artifact_runs
update_step-stale engine ticks now db db' h =
    ap
      (λ (rows : List ArtifactRow).
        evict_from (now - retention ticks) 0
          (engine.order_by (Str × ℕ) newest (map (λ r. (r, last_of r rows)) (distinct_runs rows))))
      h

-- A post of a status, whatever it says of a step, gives its run the status that its text stands for, and
-- leaves every other run as it is. If that status ends a run, it evicts the runs that are stale then, in
-- their order, and otherwise none: the directories that it removes are theirs, and the artifacts that
-- it leaves are those of all other runs.
pub post_status-get_run :
    (engine : Engine) (ticks now : ℕ) (run_id status : Str) (step step_status : Option Str)
    (db : Db)
    → ((j : Str)
        → get_run (post_status engine ticks now run_id status step step_status db).1 j ≡ (
            if run_id == j
            then Option.map (with_status (run_status_of status) now) (get_run db j)
            else get_run db j))
      × ((post_status engine ticks now run_id status step step_status db).0
          ≡ stale_at engine ticks now status db)
      × ((post_status engine ticks now run_id status step step_status db).1.artifacts
          ≡ keep (spared (stale_at engine ticks now status db)) db.artifacts)
unfolding update_run_status
post_status-get_run engine ticks now run_id status step step_status db =
    let stepped = update_step now db run_id step step_status in
    let updated = update_run_status now stepped run_id (run_status_of status) in
    let terminal = is_terminal (run_status_of status) in
    let kept = update_step-artifacts now db run_id step step_status in
    let stale : (evict_if engine ticks now terminal updated).0
        ≡ stale_at engine ticks now status db =
      evict_if-stale engine ticks now terminal updated
      ∙ ap (λ stale. if terminal then stale else [])
          (update_step-stale engine ticks now db updated kept)
      ∙ ap (λ (t : Bool). if t then evict_old_artifact_runs engine ticks now db else [])
          (ends-is_terminal status) in
    (
      λ j.
          evict_if-get_run engine ticks now terminal updated j
          ∙ get_run-update_run_status now stepped run_id j (run_status_of status)
          ∙ ap
              (λ found.
                if run_id == j
                then Option.map (with_status (run_status_of status) now) found
                else found)
              (update_step-get_run now db run_id step step_status j),
      stale,
      evict_if-artifacts engine ticks now terminal updated
          ∙ ap (keep (spared (evict_if engine ticks now terminal updated).0)) kept
          ∙ ap (λ ids. keep (spared ids) db.artifacts) stale,
    )
