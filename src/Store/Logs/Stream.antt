-- ===== src/Store/Logs/Stream.antt =====
-- The log of a run, read at once and read in parts.
use flowz.Prelude.{
  ℕ, ◌+◌, ◌≤◌, ◌<◌, Str, ◌==◌, ◌&&◌, ltb, keep, if◌then◌else◌, List, [], ◌∷◌, ◌++◌, map, All,
  All-of_mem, subst, ◌≡◌, refl, ◌∙◌, sym, ap, Result, ok, arith, Bool-cases, inl, inr,
}
use flowz.Store.Tables.{LogLine, Db, DbError, has_run}
use flowz.Store.Logs.{append_log, get_logs_from}

-- The ids grow with the rows, up to the counter.
abbrev pub IdsFrom : ℕ → ℕ → List LogLine → Type 0
IdsFrom low last [] = low ≤ last
IdsFrom low last (l ∷ ls) = (low < l.id) × IdsFrom l.id last ls

abbrev pub IdsGrow : Db → Type 0
IdsGrow db = IdsFrom 0 db.last_log_id db.log_lines

IdsFrom-append :
    (low last : ℕ) (ls : List LogLine) (l : LogLine)
    → IdsFrom low last ls
    → l.id ≡ last + 1
    → IdsFrom low (last + 1) (ls ++ l ∷ [])
IdsFrom-append low last [] l h e = (omega arith, omega arith)
IdsFrom-append low last (k ∷ ls) l h e = (h.0, IdsFrom-append k.id last ls l h.1 e)

-- Where the ids of the lines grow and none is above the counter, they still do after `append_log`,
-- with the new line.
pub append_log-IdsGrow :
    (now : ℕ) (db db' : Db) (run_id step line : Str)
    → IdsGrow db
    → append_log now db run_id step line ≡ ok db'
    → IdsGrow db'
unfolding append_log
append_log-IdsGrow now db db' run_id step line g h = elim (Bool-cases (has_run db run_id)) [
  | inl on ↦
      let same : ◌≡◌ {A = Result DbError Db}
          (ok (record db {
            last_log_id = db.last_log_id + 1;
            log_lines = db.log_lines ++ new_line ∷ [];
          }))
          (ok db') =
        rw on at h in
      subst IdsGrow (ok_injective same)
        (IdsFrom-append 0 db.last_log_id db.log_lines new_line g refl)
  | inr off ↦ absurd (cc (rw off at h))
]
  where
    new_line : LogLine
    new_line = record {
      id = db.last_log_id + 1;
      run_id = run_id;
      step = step;
      line = line;
      created_at = now;
    }

    ok_injective : {a b : Db} → ◌≡◌ {A = Result DbError Db} (ok a) (ok b) → a ≡ b
    ok_injective e = cc

ids_above :
    (low last : ℕ) (ls : List LogLine) → IdsFrom low last ls → All (λ (l : LogLine). low < l.id) ls
ids_above low last [] g = tt
ids_above low last (l ∷ ls) g = (g.0, weaken low l.id ls g.0 (ids_above l.id last ls g.1))
  where
    weaken :
        (a b : ℕ) (xs : List LogLine)
        → a < b
        → All (λ (x : LogLine). b < x.id) xs
        → All (λ (x : LogLine). a < x.id) xs
    weaken a b [] lt h = tt
    weaken a b (x ∷ xs) lt h = (omega arith, weaken a b xs lt h.1)

-- Every id of the second part is greater than every id of the first.
All-above :
    (low last : ℕ) (ls new : List LogLine)
    → IdsFrom low last (ls ++ new)
    → All (λ (n : LogLine). All (λ (l : LogLine). l.id < n.id) ls) new
All-above low last [] new g = All-of_mem (λ n. Unit) new (λ n m. tt)
All-above low last (l ∷ ls) new g =
    both ls new (ids_above l.id last (ls ++ new) g.1) (All-above l.id last ls new g.1)
  where
    second :
        (xs ys : List LogLine)
        → All (λ (x : LogLine). l.id < x.id) (xs ++ ys)
        → All (λ (x : LogLine). l.id < x.id) ys
    second [] ys h = h
    second (x ∷ xs) ys h = second xs ys h.1

    join :
        (xs ys : List LogLine)
        → All (λ (x : LogLine). l.id < x.id) ys
        → All (λ (n : LogLine). All (λ (k : LogLine). k.id < n.id) xs) ys
        → All (λ (n : LogLine). All (λ (k : LogLine). k.id < n.id) (l ∷ xs)) ys
    join xs [] h k = tt
    join xs (y ∷ ys) h k = ((h.0, k.0), join xs ys h.1 k.1)

    both :
        (xs ys : List LogLine)
        → All (λ (x : LogLine). l.id < x.id) (xs ++ ys)
        → All (λ (n : LogLine). All (λ (k : LogLine). k.id < n.id) xs) ys
        → All (λ (n : LogLine). All (λ (k : LogLine). k.id < n.id) (l ∷ xs)) ys
    both xs ys h k = join xs ys (second xs ys h) k

-- `last_id = last_id.max(*id)` for each row of a batch.
unfoldable pub last_after : ℕ → List (ℕ × Str × Str) → ℕ
last_after k [] = k
last_after k ((id, step, line) ∷ rows) = last_after (if ltb k id then id else k) rows

module _ (run_id : Str) where
  abbrev batch : ℕ → List LogLine → List (ℕ × Str × Str)
  batch k ls =
      map (λ (l : LogLine). (l.id, l.step, l.line))
        (keep (λ (l : LogLine). l.run_id == run_id && ltb k l.id) ls)

  batch-append : (k : ℕ) (ls new : List LogLine) → batch k (ls ++ new) ≡ batch k ls ++ batch k new
  batch-append k [] new = refl
  batch-append k (l ∷ ls) new = ground (arith, batch-append k ls new)

  last_after-ge : (k : ℕ) (rows : List (ℕ × Str × Str)) → k ≤ last_after k rows
  unfolding last_after
  last_after-ge k [] = omega arith
  last_after-ge k ((id, step, line) ∷ rows) =
      ground (arith, last_after-ge (if ltb k id then id else k) rows)

  rows-le_last : (k : ℕ) (rows : List (ℕ × Str × Str)) → All (λ r. r.0 ≤ last_after k rows) rows
  unfolding last_after
  rows-le_last k [] = tt
  rows-le_last k ((id, step, line) ∷ rows) = (
    ground (arith, last_after-ge (if ltb k id then id else k) rows),
    rows-le_last (if ltb k id then id else k) rows,
  )

  last_after-lt :
      (k n : ℕ) (rows : List (ℕ × Str × Str))
      → All (λ r. r.0 < n) rows
      → k < n
      → last_after k rows < n
  unfolding last_after
  last_after-lt k n [] h lt = lt
  last_after-lt k n ((id, step, line) ∷ rows) h lt =
      last_after-lt (if ltb k id then id else k) n rows h.1 (ground (arith, h.0))

  -- What was sent is not sent again.
  batch_again :
      (k k' : ℕ) (ls : List LogLine) → k ≤ k' → All (λ r. r.0 ≤ k') (batch k ls) → batch k' ls ≡ []
  batch_again k k' [] le h = refl
  batch_again k k' (l ∷ ls) le h = elim (Bool-cases (l.run_id == run_id && ltb k l.id)) [
    | inl on ↦ let h' = rw on at h in ground (arith, batch_again k k' ls le h'.1, h'.0)
    | inr off ↦ let h' = rw off at h in ground (arith, batch_again k k' ls le h')
  ]

  -- What comes later has a greater id than what was sent.
  batch_later :
      (k : ℕ) (rows : List (ℕ × Str × Str)) (new : List LogLine)
      → All (λ (n : LogLine). All (λ r. r.0 < n.id) rows) new
      → batch (last_after k rows) new ≡ batch k new
  batch_later k rows [] h = refl
  batch_later k rows (n ∷ new) h =
      ground
        (arith, last_after-ge k rows, last_after-lt k n.id rows h.0, batch_later k rows new h.1)

  batch-lt :
      (k n : ℕ) (ls : List LogLine)
      → All (λ (l : LogLine). l.id < n) ls
      → All (λ r. r.0 < n) (batch k ls)
  batch-lt k n [] h = tt
  batch-lt k n (l ∷ ls) h = elim (Bool-cases (l.run_id == run_id && ltb k l.id)) [
    | inl on ↦ rw on (h.0, batch-lt k n ls h.1)
    | inr off ↦ rw off (batch-lt k n ls h.1)
  ]

  -- A stream that sends what is there, and later what was added since, sends what one read at the
  -- end would give: each line once, in order, and none is missed. The ids of the lines grow, and
  -- the new lines stand behind the old ones.
  pub get_logs_from_twice :
      (k : ℕ) (db db' : Db) (new : List LogLine)
      → IdsGrow db'
      → db'.log_lines ≡ db.log_lines ++ new
      → get_logs_from db run_id k
          ++ get_logs_from db' run_id (last_after k (get_logs_from db run_id k))
        ≡ get_logs_from db' run_id k
  unfolding get_logs_from
  get_logs_from_twice k db db' new g e =
      let rows = batch k db.log_lines in
      let apart =
        All-above 0 db'.last_log_id db.log_lines new (subst (IdsFrom 0 db'.last_log_id) e g) in
      let k' = last_after k rows in
      rw e (
        ap (λ x. rows ++ x)
          (batch-append k' db.log_lines new
            ∙ (ap (λ x. x ++ batch k' new)
                  (batch_again k k' db.log_lines (last_after-ge k rows) (rows-le_last k rows))
                ∙ batch_later k rows new (map_All new apart)))
        ∙ sym (batch-append k db.log_lines new))
    where
      map_All :
          (ns : List LogLine)
          → All (λ (n : LogLine). All (λ (l : LogLine). l.id < n.id) db.log_lines) ns
          → All (λ (n : LogLine). All (λ r. r.0 < n.id) (batch k db.log_lines)) ns
      map_All [] h = tt
      map_All (n ∷ ns) h = (batch-lt k n.id db.log_lines h.0, map_All ns h.1)
