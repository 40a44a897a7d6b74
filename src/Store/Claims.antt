-- ===== src/Store/Claims.antt =====
-- What the agents get from the queue of runs.
pub mod Race
use mathlib.Core.Option
use mathlib.Core.List.{Memᴰ}
use mathlib.Core.List.Memᴰ
use flowz.Prelude.{
  ℕ, ◌≤◌, Str, lit, ◌==◌, ==_iff, ==_refl, Bool, true, false, leb, leb→le, if◌then◌else◌, keep, any,
  find, All, All-mem, All-of_mem, List, [], ◌∷◌, map, Option, none, some, ◌≡◌, ◌≢◌, refl, ap, sym,
  ◌∙◌, subst, ◌↔◌, ◌⊎◌, inl, inr, ⊎_elim, arith, Bool-cases, Option-cases,
}
use flowz.Model.{Run, RunStatus}
use flowz.Store.Status.{run_as_str}
use flowz.Store.Runs.Update.{with_status, get_run-update_run_status}
use flowz.Store.Sql.{Engine, IsOrder, IsSorted}
use flowz.Store.Tables.{RunRow, Db, update, optional, to_run, oldest_first}
use flowz.Store.Runs.{update_run_status, select_queued, mark_running, claim_next_job, get_run}

pub mem-keep :
    {A : Type 0} (p : A → Bool) (a : A) (xs : List A)
    → Memᴰ a (keep p xs) ↔ (Memᴰ a xs × (p a ≡ true))
mem-keep p a [] = (λ m. elim m [ ], λ h. elim (h.0) [ ])
mem-keep p a (x ∷ xs) = elim (Bool-cases (p x)) [
  | inl on ↦ rw on (
    λ m.
        ⊎_elim (λ e. (Memᴰ.head e, rw e on))
          (λ r. let (q, h) = (mem-keep p a xs).0 r in (Memᴰ.tail q, h)) (Memᴰ.cases_cons m),
    λ h.
        ⊎_elim (λ e. Memᴰ.head e) (λ r. Memᴰ.tail ((mem-keep p a xs).1 (r, h.1)))
          (Memᴰ.cases_cons h.0),
  )
  | inr off ↦ rw off (
    λ m. let (q, h) = (mem-keep p a xs).0 m in (Memᴰ.tail q, h),
    λ h.
        ⊎_elim (λ e. absurd (cc (h.1, off, ap p e))) (λ r. (mem-keep p a xs).1 (r, h.1))
          (Memᴰ.cases_cons h.0),
  )
]

oldest_first-IsOrder : IsOrder oldest_first
oldest_first-IsOrder = record { total = λ a b h. ground arith; trans = λ a b c h k. ground arith }

abbrev pub IsQueued : RunRow → Type 0
IsQueued r = r.status ≡ lit "queued"

first_of_sorted :
    {A : Type 0} (le : A → A → Bool) (xs : List A) (a b : A)
    → IsSorted le xs
    → optional xs ≡ some a
    → Memᴰ b xs
    → (a ≡ b) ⊎ (le a b ≡ true)
first_of_sorted le [] a b s e m = elim m [ ]
first_of_sorted le (x ∷ xs) a b s e m =
    let same : x ≡ a = cc in
    ⊎_elim (λ h. inl (sym same ∙ sym h))
      (λ r. inr (rw (← same) (All-mem (λ y. le x y ≡ true) r s.0))) (Memᴰ.cases_cons m)

optional-mem : {A : Type 0} (xs : List A) (a : A) → optional xs ≡ some a → Memᴰ a xs
optional-mem [] a e = absurd (cc)
optional-mem (x ∷ xs) a e = Memᴰ.head (cc)

module _ (engine : Engine) where
  queued_rows : Db → List RunRow
  queued_rows db = keep (λ (r : RunRow). r.status == lit "queued") db.runs

  -- The row that is selected is queued, and no queued row is older.
  pub select_queued-oldest :
      (db : Db) (row : RunRow)
      → select_queued engine db ≡ some row
      → Memᴰ row db.runs
        × IsQueued row
        × ((other : RunRow)
            → Memᴰ other db.runs
            → IsQueued other
            → row.created_at ≤ other.created_at)
  unfolding select_queued queued_rows
  select_queued-oldest db row h =
      let rows = keep (λ (r : RunRow). r.status == lit "queued") db.runs in
      let sorted = engine.order_by-IsSorted RunRow oldest_first oldest_first-IsOrder rows in
      let mem = engine.order_by-mem RunRow oldest_first rows in
      let (in_table, queued) =
        (mem-keep (λ (r : RunRow). r.status == lit "queued") row db.runs).0
          ((mem row).0 (optional-mem _ row h)) in
      (
        in_table,
        (==_iff row.status (lit "queued")).0 queued,
        λ other m q.
            ⊎_elim (λ e. rw e (omega arith)) (λ le. leb→le row.created_at other.created_at le)
              (first_of_sorted oldest_first (engine.order_by RunRow oldest_first rows) row other
                sorted h
                ((mem other).1 (
                  (mem-keep (λ (r : RunRow). r.status == lit "queued") other db.runs).1
                    (m, (==_iff other.status (lit "queued")).1 q)))),
      )

pub mem-update :
    {A : Type 0} (p : A → Bool) (f : A → A) (b : A) (xs : List A)
    → Memᴰ b (update p f xs)
    → (a : A) × Memᴰ a xs × (b ≡ (if p a then f a else a))
unfolding update
mem-update p f b [] m = elim m [ ]
mem-update p f b (x ∷ xs) m =
    ⊎_elim (λ e. (x, Memᴰ.head refl, e))
      (λ r. let (a, q, e) = mem-update p f b xs r in (a, Memᴰ.tail q, e)) (Memᴰ.cases_cons m)

running-ne-queued : ◌≢◌ {A = Str} (lit "running") (lit "queued")
running-ne-queued h = cc

-- No row with the id of the claimed one is queued any more.
pub not-IsQueued-mark_running :
    (now : ℕ) (db : Db) (row other : RunRow)
    → Memᴰ other (mark_running now db (some row)).runs
    → other.id ≡ row.id
    → ¬ IsQueued other
not-IsQueued-mark_running now db row other m same queued =
    let (a, q, e) = mem-update _ _ other db.runs m in
    elim (Bool-cases (a.id == row.id)) [
      | inl on ↦ running-ne-queued (sym (ap (λ (r : RunRow). r.status) (rw on at e)) ∙ queued)
      | inr off ↦
          let whole : other ≡ a = rw off at e in
          cc ((==_iff a.id row.id).1 (sym (ap (λ (r : RunRow). r.id) whole) ∙ same), off)
    ]

module _ (engine : Engine) where
  pub claimed-row :
      (now : ℕ) (db db' : Db) (run : Run)
      → claim_next_job engine now db ≡ (some run, db')
      → (row : RunRow) × (select_queued engine db ≡ some row)
        × (run ≡ to_run row)
        × (db' ≡ mark_running now db (some row))
  unfolding claim_next_job
  claimed-row now db db' run h = go (select_queued engine db) refl h
    where
      go :
          (o : Option RunRow)
          → select_queued engine db ≡ o
          → ◌≡◌ {A = Option Run × Db} (Option.map to_run o, mark_running now db o) (some run, db')
          → (row : RunRow) × (select_queued engine db ≡ some row)
            × (run ≡ to_run row)
            × (db' ≡ mark_running now db (some row))
      go none e q = absurd (cc (ap (λ (t : Option Run × Db). t.0) q))
      go (some row) e q = (
        row,
        e,
        sym (Option.some-injective _ _ (ap (λ (t : Option Run × Db). t.0) q)),
        sym (ap (λ (t : Option Run × Db). t.1) q),
      )

  -- A claim takes a queued run, the oldest that there is, and from then on `get_run` finds that run
  -- running, with a new time of update, and every other run as before.
  pub claim_next_job-oldest :
      (now : ℕ) (db db' : Db) (run : Run)
      → claim_next_job engine now db ≡ (some run, db')
      → (row : RunRow) × Memᴰ row db.runs
        × IsQueued row
        × (run ≡ to_run row)
        × ((other : RunRow)
            → Memᴰ other db.runs
            → IsQueued other
            → row.created_at ≤ other.created_at)
        × ((j : Str)
            → get_run db' j ≡ (
                if run.id == j
                then Option.map (with_status RunStatus.running now) (get_run db j)
                else get_run db j))
  claim_next_job-oldest now db db' run h =
      let (row, e, is_row, after) = claimed-row now db db' run h in
      let (m, q, oldest) = select_queued-oldest engine db row e in
      (
        row,
        m,
        q,
        is_row,
        oldest,
        λ j.
            rw (after, is_row)
              (unfold run_as_str update_run_status in
                get_run-update_run_status now db row.id j RunStatus.running),
      )

  -- Two claims in a row never give the same run.
  pub claim_next_job_twice :
      (now later : ℕ) (db db' db'' : Db) (a b : Run)
      → claim_next_job engine now db ≡ (some a, db')
      → claim_next_job engine later db' ≡ (some b, db'')
      → a.id ≢ b.id
  claim_next_job_twice now later db db' db'' a b h k same =
      let (row, e, is_row, after) = claimed-row now db db' a h in
      let (next, f, is_next, _) = claimed-row later db' db'' b k in
      let (m, q, _) = select_queued-oldest engine db' next f in
      not-IsQueued-mark_running now db row next (subst (λ (d : Db). Memᴰ next d.runs) after m)
        (ap (λ (r : Run). r.id) (sym is_next) ∙ (sym same ∙ ap (λ (r : Run). r.id) is_row)) q
