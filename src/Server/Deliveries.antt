-- ===== src/Server/Deliveries.antt =====
-- What a delivery and a post of log lines do to the database.
use flowz.Prelude.{
  ℕ, ◌+◌, append_nil, Str, lit, find, ==_refl, ◌++◌, Bool, true, false, ◌==◌, map, keep, any, List,
  [], ◌∷◌, Option, some, ok, ◌≡◌, refl, ap, ◌∙◌, sym, subst, ◌⊎◌, inl, inr, Bool-cases,
}
use mathlib.Core.Option
use flowz.Model.{Run}
use flowz.Webhook.{PushEvent, parse_push}
use flowz.Store.Tables.{Db, Query, has_run, RunRow, LogLine, to_run}
use flowz.Store.Runs.{create_run, get_run}
use flowz.Store.Status.{run_as_str, status_round_trip}
use flowz.Store.Logs.{append_log, get_logs}
use flowz.Server.{Response, created, no_content, Verifier, queued_run, ingest_logs}

-- The body is signed: the header is `sha256=` and the code of the body under the secret.
abbrev pub Signed : Verifier → List ℕ → Option Str → Type 0
Signed v body header =
    (hex_sig : Str) × (code : List ℕ) × (header ≡ some (lit "sha256=" ++ hex_sig))
    × (v.decode hex_sig ≡ some code)
    × (v.verify_slice v.webhook_secret body code ≡ true)

find-append :
    (p : RunRow → Bool) (rows : List RunRow) (r : RunRow)
    → any p rows ≡ false
    → p r ≡ true
    → find p (rows ++ r ∷ []) ≡ some r
find-append p [] r h k = rw k refl
find-append p (q ∷ rows) r h k = elim (Bool-cases (p q)) [
  | inl on ↦ absurd (cc (rw on at h))
  | inr off ↦ rw off (find-append p rows r (rw off at h) k)
]

abbrev row_of : Run → RunRow
row_of run = record {
  id = run.id;
  repo = run.repo;
  branch = run.branch;
  commit = run.commit;
  clone_url = run.clone_url;
  status = run_as_str run.status;
  created_at = run.created_at;
  updated_at = run.updated_at;
}

-- A run that was created is found.
pub get_run-create_run :
    (db db' : Db) (run : Run) → create_run db run ≡ ok db' → get_run db' run.id ≡ some run
unfolding create_run get_run
get_run-create_run db db' run h = elim (Bool-cases (any (λ (r : RunRow). r.id == run.id) db.runs)) [
  | inl taken ↦ absurd (cc (rw taken at h))
  | inr free ↦
      let same : ◌≡◌ {A = Query Db} (ok (record db { runs = db.runs ++ row_of run ∷ [] }))
          (ok db') =
        rw free at h in
      let grown : record db { runs = db.runs ++ row_of run ∷ [] } ≡ db' = cc same in
      subst (λ (d : Db). get_run d run.id ≡ some run) grown
        (ap (Option.map to_run) (
            find-append (λ (r : RunRow). r.id == run.id) db.runs (row_of run) free (==_refl run.id))
          ∙ ap (λ status. some (record run { status = status })) (status_round_trip.0 run.status))
]

-- The delivery made a run: it is signed and a push, and the run is queued as its event asks for.
abbrev pub MakesRun : Verifier → Str → ℕ → Option Str → List ℕ → Response × Db → Type 0
MakesRun v id now header body (response, db') =
    Signed v body header
    × (response ≡ created id)
    × ((event : PushEvent) × (parse_push v.from_slice v.as_str body ≡ ok event)
        × (get_run db' id ≡ some (queued_run id now event)))

-- What a delivery needs to make a run of an id: a signature, a push, and that no run has the id yet.
abbrev pub Accepted : Verifier → Str → Db → Option Str → List ℕ → Type 0
Accepted v id db header body =
    Signed v body header
    × ((event : PushEvent) × (parse_push v.from_slice v.as_str body ≡ ok event))
    × (has_run db id ≡ false)

module _ (v : Verifier) (id : Str) (now : ℕ) (db : Db) (body : List ℕ) where
  -- A delivery that is accepted makes a run; any other changes nothing.
  abbrev pub Decides : Option Str → Response × Db → Type 0
  Decides header result =
      (Accepted v id db header body × MakesRun v id now header body result)
      ⊎ ((Accepted v id db header body → ⊥) × (result.1 ≡ db))

append_last : {A : Type 0} (xs : List A) (y : A) (ys : List A) → (xs ++ y ∷ []) ++ ys ≡ xs ++ y ∷ ys
append_last [] y ys = refl
append_last (x ∷ xs) y ys = ap (λ zs. x ∷ zs) (append_last xs y ys)

abbrev lines_of : Str → List LogLine → List (Str × Str)
lines_of run_id rows =
    map (λ (l : LogLine). (l.step, l.line)) (keep (λ (l : LogLine). l.run_id == run_id) rows)

shown :
    (run_id : Str) (row : LogLine)
    → (row.run_id == run_id) ≡ true
    → (rows : List LogLine)
    → lines_of run_id (rows ++ row ∷ []) ≡ lines_of run_id rows ++ (row.step, row.line) ∷ []
shown run_id row h [] = rw h refl
shown run_id row h (r ∷ rows) = elim (Bool-cases (r.run_id == run_id)) [
  | inl on ↦ rw on (ap (λ ls. (r.step, r.line) ∷ ls) (shown run_id row h rows))
  | inr off ↦ rw off (shown run_id row h rows)
]

append_log-get_logs :
    (now : ℕ) (db : Db) (run_id step line : Str)
    → has_run db run_id ≡ true
    → (db' : Db) × (append_log now db run_id step line ≡ ok db')
      × (has_run db' run_id ≡ true)
      × (get_logs db' run_id ≡ get_logs db run_id ++ (step, line) ∷ [])
unfolding append_log get_logs
append_log-get_logs now db run_id step line h = rw h (
  record db { last_log_id = db.last_log_id + 1; log_lines = db.log_lines ++ new_line ∷ [] },
  refl,
  h,
  shown run_id new_line (==_refl run_id) db.log_lines,
)
  where
    new_line : LogLine
    new_line = record {
      id = db.last_log_id + 1;
      run_id = run_id;
      step = step;
      line = line;
      created_at = now;
    }

-- The lines that are posted for a run that exists are all added to its log, in order, each under its
-- step.
pub ingest_logs-get_logs :
    (now : ℕ) (run_id step : Str) (lines : List Str) (db : Db)
    → has_run db run_id ≡ true
    → ((ingest_logs now run_id step lines db).0 ≡ no_content)
      × (get_logs (ingest_logs now run_id step lines db).1 run_id
          ≡ get_logs db run_id ++ map (λ line. (step, line)) lines)
ingest_logs-get_logs now run_id step [] db h = (refl, sym (append_nil (get_logs db run_id)))
ingest_logs-get_logs now run_id step (line ∷ lines) db h =
    let (db', appended, still, logs) = append_log-get_logs now db run_id step line h in
    let (answer, later) = ingest_logs-get_logs now run_id step lines db' still in
    rw appended (
      answer,
      later
          ∙ (ap (λ ls. ls ++ map (λ line. (step, line)) lines) logs
              ∙ append_last (get_logs db run_id) (step, line) (map (λ line. (step, line)) lines)),
    )
