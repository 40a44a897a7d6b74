-- ===== src/Store/Table/Refines.antt =====
-- The queries keep what the table promises.
use mathlib.Core.List.{Memᴰ}
use mathlib.Core.List.Memᴰ
use mathlib.Core.Option
use flowz.Prelude.{
  ℕ, ◌≤◌, Str, lit, ◌==◌, ==_iff, Bool, true, false, any, keep, find, All-mem, if◌then◌else◌, List,
  [], ◌∷◌, ◌++◌, Option, none, some, ok, err, ◌≡◌, refl, ap, sym, subst, ◌∙◌, Bool-cases, inl, inr,
  ⊎_elim, arith,
}
use flowz.Model.{Run, RunStatus, queued, running}
use flowz.Store.Status.{run_as_str, run_from_str, status_round_trip}
use flowz.Store.Runs.Update.{get_run-update_run_status}
use flowz.Store.Sql.{Engine}
use flowz.Store.Tables.{RunRow, Db, DbError, Query, optional, to_run, oldest_first}
use flowz.Store.Runs.{
  create_run, get_run, update_run_status, select_queued, mark_running, claim_next_job,
}
use flowz.Store.Claims.{IsQueued, mem-keep, claimed-row, claim_next_job-oldest}
use flowz.Store.Table.{
  Op, stored, refused, written, claimed, idle, Promises, Runs, Step, stores, refuses, writes,
  claims, finds_none, Steps, here, next,
}
use flowz.Store.Table.Valid.{
  has_id, IdsDistinct, IsStatus, IsValid, update-IsValid, append-IsValid, find-append, find-none,
  find-some,
}

mem-any :
    (id : Str) (row : RunRow) (rows : List RunRow)
    → Memᴰ row rows
    → row.id ≡ id
    → any (has_id id) rows ≡ true
mem-any id row [] m e = elim m [ ]
mem-any id row (r ∷ rows) m e =
    ⊎_elim
      (λ same.
        let on : (r.id == id) ≡ true =
          (==_iff r.id id).1 (sym (ap (λ (x : RunRow). x.id) same) ∙ e) in
        rw on refl)
      (λ later. ground (arith, mem-any id row rows later e)) (Memᴰ.cases_cons m)

-- Of rows that each have an id of their own, the one that is found is the one that is there.
find-mem :
    (row : RunRow) (rows : List RunRow)
    → IdsDistinct rows
    → Memᴰ row rows
    → find (has_id row.id) rows ≡ some row
find-mem row [] h m = elim m [ ]
find-mem row (r ∷ rows) (fresh, apart) m =
    ⊎_elim (λ same. rw (==_refl_at row r same) (ap (λ x. some x) (sym same)))
      (λ later. elim (Bool-cases (r.id == row.id)) [
        | inl on ↦
            absurd (cc (fresh, mem-any r.id row rows later (sym ((==_iff r.id row.id).0 on))))
        | inr off ↦ rw off (find-mem row rows apart later)
      ])
      (Memᴰ.cases_cons m)
  where
    ==_refl_at : (a b : RunRow) → a ≡ b → (b.id == a.id) ≡ true
    ==_refl_at a b e = (==_iff b.id a.id).1 (sym (ap (λ (x : RunRow). x.id) e))

-- A run that is found is that of a row.
found_row :
    (j : Str) (r : Run) (rows : List RunRow)
    → Option.map to_run (find (has_id j) rows) ≡ some r
    → (row : RunRow) × Memᴰ row rows × (r ≡ to_run row)
found_row j r [] h = absurd (cc h)
found_row j r (s ∷ rows) h = elim (Bool-cases (s.id == j)) [
  | inl on ↦ (s, Memᴰ.head refl, sym (Option.some-injective _ _ (rw on at h)))
  | inr off ↦ let (row, m, e) = found_row j r rows (rw off at h) in (row, Memᴰ.tail m, e)
]

queued_text : (row : RunRow) → IsStatus row → run_from_str row.status ≡ queued → IsQueued row
unfolding run_as_str
queued_text row (status, e) h =
    let same : status ≡ queued = sym (status_round_trip.0 status) ∙ (ap run_from_str (sym e) ∙ h) in
    e ∙ ap run_as_str same

queued_status : (row : RunRow) → IsQueued row → run_from_str row.status ≡ queued
unfolding run_from_str ◌==◌
queued_status row e = ap run_from_str e

abbrev row_of : Run → RunRow
row_of run = record {
  id = run.id;
  repo = run.repo;
  branch = run.branch;
  commit = run.commit;
  clone_url = run.clone_url;
  status = run_as_str run.status;
  created_at = run.created_at;
  updated_at = run.updated_at;
}

to_run-row_of : (run : Run) → to_run (row_of run) ≡ run
to_run-row_of run = ap (λ status. record run { status = status }) (status_round_trip.0 run.status)

map-some :
    (b : Bool) (run : Run) (o : Option RunRow)
    → Option.map to_run (if b then some (row_of run) else o)
      ≡ (if b then some run else Option.map to_run o)
map-some true run o = ap (λ r. some r) (to_run-row_of run)
map-some false run o = refl

map-none : (o : Option RunRow) → Option.map to_run o ≡ none → o ≡ none
map-none none h = refl
map-none (some r) h = absurd (cc h)

abbrev Kept : Op → Db → Db → Type 0
Kept op db db' = Promises op (get_run db) (get_run db') × IsValid db'.runs

stored-Kept :
    (db db' : Db) (run : Run)
    → IsValid db.runs
    → create_run db run ≡ ok db'
    → Kept (stored run) db db'
unfolding create_run get_run
stored-Kept db db' run v h = elim (Bool-cases (any (has_id run.id) db.runs)) [
  | inl taken ↦ absurd (cc (rw taken at h))
  | inr free ↦
      let same : ◌≡◌ {A = Query Db} (ok (record db { runs = db.runs ++ row_of run ∷ [] }))
          (ok db') =
        rw free at h in
      let grown : record db { runs = db.runs ++ row_of run ∷ [] } ≡ db' = cc same in
      subst (λ (d : Db). Kept (stored run) db d) grown
        (
          (
            ap (Option.map to_run) (find-none run.id db.runs free),
            λ j.
                ap (Option.map to_run) (find-append j db.runs (row_of run) free)
                ∙ map-some (run.id == j) run (find (has_id j) db.runs),
          ),
          append-IsValid db.runs (row_of run) v free (run.status, refl),
        )
]

refused-Kept :
    (db : Db) (run : Run) (e : DbError)
    → IsValid db.runs
    → create_run db run ≡ err e
    → Kept (refused run) db db
unfolding create_run get_run
refused-Kept db run e v h = elim (Bool-cases (any (has_id run.id) db.runs)) [
  | inl taken ↦ ((λ gone. find-some run.id db.runs taken (map-none _ gone), λ j. refl), v)
  | inr free ↦ absurd (cc (rw free at h))
]

written-Kept :
    (now : ℕ) (db : Db) (id : Str) (status : RunStatus)
    → IsValid db.runs
    → Kept (written now id status) db (update_run_status now db id status)
unfolding update_run_status
written-Kept now db id status v = (
  λ j. get_run-update_run_status now db id j status,
  update-IsValid (has_id id) (λ r. record r { status = run_as_str status; updated_at = now })
      db.runs (λ r. refl) (λ r. (status, refl)) v,
)

optional-none : {A : Type 0} (xs : List A) (a : A) → optional xs ≡ none → Memᴰ a xs → ⊥
optional-none [] a h m = elim m [ ]
optional-none (x ∷ xs) a h m = cc h

module _ (engine : Engine) where
  found_valid :
      (db : Db) (row : RunRow)
      → IsValid db.runs
      → Memᴰ row db.runs
      → get_run db row.id ≡ some (to_run row)
  unfolding get_run
  found_valid db row v m = ap (Option.map to_run) (find-mem row db.runs v.0 m)

  -- What is found queued is a row that the claim sees.
  found_queued :
      (db : Db) (j : Str) (r : Run)
      → IsValid db.runs
      → get_run db j ≡ some r
      → r.status ≡ queued
      → (row : RunRow) × Memᴰ row db.runs × (r ≡ to_run row) × IsQueued row
  unfolding get_run
  found_queued db j r v found waiting =
      let (row, m, e) = found_row j r db.runs found in
      let known = All-mem IsStatus m v.1 in
      (row, m, e, queued_text row known (sym (ap (λ (x : Run). x.status) e) ∙ waiting))

  claimed-Kept :
      (now : ℕ) (db db' : Db) (run : Run)
      → IsValid db.runs
      → claim_next_job engine now db ≡ (some run, db')
      → Kept (claimed now run) db db'
  claimed-Kept now db db' run v h =
      let (row, m, waits, is_row, oldest, seen) = claim_next_job-oldest engine now db db' run h in
      let (row', _, is_row', after) = claimed-row engine now db db' run h in
      (
        (
          subst (λ (r : Run). get_run db r.id ≡ some r) (sym is_row) (found_valid db row v m),
          ap (λ (r : Run). r.status) is_row ∙ queued_status row waits,
          λ j r found waiting.
              let (other, there, e, in_queue) = found_queued db j r v found waiting in
              subst (λ (r : Run). run.created_at ≤ r.created_at) (sym e)
                (subst (λ (r : Run). r.created_at ≤ other.created_at) (sym is_row)
                  (oldest other there in_queue)),
          seen,
        ),
        subst (λ (d : Db). IsValid d.runs) (sym after)
            (update-IsValid (has_id row'.id)
              (λ r. record r { status = lit "running"; updated_at = now }) db.runs (λ r. refl)
              (λ r. (running, running_text)) v),
      )
    where
      running_text : lit "running" ≡ run_as_str running
      running_text = unfold run_as_str in refl

  idle-Kept :
      (now : ℕ) (db db' : Db)
      → IsValid db.runs
      → claim_next_job engine now db ≡ (none, db')
      → Kept idle db db'
  unfolding claim_next_job select_queued
  idle-Kept now db db' v h = go (select_queued engine db) refl h
    where
      go :
          (o : Option RunRow)
          → select_queued engine db ≡ o
          → ◌≡◌ {A = Option Run × Db} (Option.map to_run o, mark_running now db o) (none, db')
          → Kept idle db db'
      go (some row) e q = absurd (cc (ap (λ (t : Option Run × Db). t.0) q))
      go none e q =
          subst (λ (d : Db). Kept idle db d) (ap (λ (t : Option Run × Db). t.1) q)
            (
              (
                λ j r found waiting.
                    let (row, there, _, in_queue) = found_queued db j r v found waiting in
                    let rows = keep (λ (r : RunRow). r.status == lit "queued") db.runs in
                    optional-none (engine.order_by RunRow oldest_first rows) row e (
                      (engine.order_by-mem RunRow oldest_first rows row).1 (
                        (mem-keep (λ (r : RunRow). r.status == lit "queued") row db.runs).1
                          (there, (==_iff row.status (lit "queued")).1 in_queue))),
                λ j. refl,
              ),
              v,
            )

  Step-Kept : {db db' : Db} {op : Op} → IsValid db.runs → Step engine db op db' → Kept op db db'
  Step-Kept {db} v (stores {run} {db'} h) = stored-Kept db db' run v h
  Step-Kept {db} v (refuses {run} {e} h) = refused-Kept db run e v h
  Step-Kept {db} v (writes now id status) = written-Kept now db id status v
  Step-Kept {db} v (claims {now} {run} {db'} h) = claimed-Kept now db db' run v h
  Step-Kept {db} v (finds_none now {db'} h) = idle-Kept now db db' v h

  -- However the queries on runs follow one another, clients see what a table of runs promises: a run is
  -- stored under a new id only, a status is written to one run, a claim gets the oldest queued run and
  -- makes it running, and gets none only if none is queued. At first each id stands in one row at most and
  -- each status is one that the program writes; this stays so.
  pub Steps-Runs :
      {db' db : Db} {ops : List Op}
      → IsValid db.runs
      → Steps engine db' db ops
      → Runs ops (get_run db) (get_run db') × IsValid db'.runs
  Steps-Runs v here = (λ j. refl, v)
  Steps-Runs v (next {db' = between} step steps) =
      let (promised, v') = Step-Kept v step in
      let (rest, v'') = Steps-Runs v' steps in ((get_run between, promised, rest), v'')
