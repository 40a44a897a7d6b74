-- ===== src/Store/Artifacts/Retention.antt =====
-- Which runs lose their artifacts.
use mathlib.Core.List.{Memᴰ}
use mathlib.Core.List.Memᴰ
use flowz.Prelude.{
  ℕ, suc, ◌+◌, ◌-◌, ◌≤◌, ◌<◌, Str, true, ◌||◌, ltb, leb, length, List, [], ◌∷◌, map, ◌≡◌, refl, ◌∙◌,
  ap, sym, ◌⊎◌, inl, inr, ⊎_elim, arith, Bool-cases, All-mem,
}
use flowz.Store.Sql.{Engine, IsOrder, IsSorted}
use flowz.Store.Tables.{ArtifactRow, Db}
use flowz.Store.Artifacts.{
  last_of, distinct_runs, latest_artifacts, newest, evict_from, retention, evict_old_artifact_runs,
}

evict_from-length :
    (cutoff i : ℕ) (rows : List (Str × ℕ))
    → length rows ≤ length (evict_from cutoff i rows) + (10 - i)
unfolding evict_from
evict_from-length cutoff i [] = omega arith
evict_from-length cutoff i ((run_id, last) ∷ rows) =
    ground (arith, evict_from-length cutoff (i + 1) rows)

evict_from-old :
    (cutoff i : ℕ) (rows : List (Str × ℕ)) (run_id : Str) (last : ℕ)
    → Memᴰ (run_id, last) rows
    → last < cutoff
    → Memᴰ run_id (evict_from cutoff i rows)
unfolding evict_from
evict_from-old cutoff i [] run_id last m h = elim m [ ]
evict_from-old cutoff i ((r, l) ∷ rows) run_id last (Memᴰ.head e) h =
    let same : last ≡ l = ap (λ (p : Str × ℕ). p.1) e in
    let old : (leb 10 i || ltb l cutoff) ≡ true = ground arith in
    rw old (Memᴰ.head (ap (λ (p : Str × ℕ). p.0) e))
evict_from-old cutoff i ((r, l) ∷ rows) run_id last (Memᴰ.tail m) h =
    elim (Bool-cases (leb 10 i || ltb l cutoff)) [
      | inl on ↦ rw on (Memᴰ.tail (evict_from-old cutoff (i + 1) rows run_id last m h))
      | inr off ↦ rw off (evict_from-old cutoff (i + 1) rows run_id last m h)
    ]

evict_from-why :
    (cutoff i : ℕ) (rows : List (Str × ℕ)) (run_id : Str)
    → Memᴰ run_id (evict_from cutoff i rows)
    → (last : ℕ) × Memᴰ (run_id, last) rows × ((last < cutoff) ⊎ (10 < i + length rows))
unfolding evict_from
evict_from-why cutoff i [] run_id m = elim m [ ]
evict_from-why cutoff i ((r, l) ∷ rows) run_id m = elim (Bool-cases (leb 10 i || ltb l cutoff)) [
  | inl on ↦
      ⊎_elim
        (λ e. (
          l,
          Memᴰ.head (ap {B = Str × ℕ} (λ x. (x, l)) e),
          elim (Bool-cases (ltb l cutoff)) [
            | inl old ↦ inl (ground arith)
            | inr recent ↦ inr (ground arith)
          ],
        ))
        (λ q. later (evict_from-why cutoff (i + 1) rows run_id q)) (Memᴰ.cases_cons (rw on at m))
  | inr off ↦ later (evict_from-why cutoff (i + 1) rows run_id (rw off at m))
]
  where
    later :
        (last : ℕ) × Memᴰ (run_id, last) rows × ((last < cutoff) ⊎ (10 < i + 1 + length rows))
        → (last : ℕ) × Memᴰ (run_id, last) ((r, l) ∷ rows)
          × ((last < cutoff) ⊎ (10 < i + suc (length rows)))
    later (last, q, why) = (last, Memᴰ.tail q, ⊎_elim inl (λ h. inr (omega arith)) why)

evict_from-beyond :
    (cutoff i : ℕ) (rows : List (Str × ℕ)) (run_id : Str) (last : ℕ)
    → Memᴰ (run_id, last) rows
    → 10 ≤ i
    → Memᴰ run_id (evict_from cutoff i rows)
unfolding evict_from
evict_from-beyond cutoff i [] run_id last m h = elim m [ ]
evict_from-beyond cutoff i ((r, l) ∷ rows) run_id last m h =
    let on : (leb 10 i || ltb l cutoff) ≡ true = ground arith in
    rw on (
      ⊎_elim (λ e. Memᴰ.head (ap (λ (p : Str × ℕ). p.0) e))
        (λ q. Memᴰ.tail (evict_from-beyond cutoff (i + 1) rows run_id last q (omega arith)))
        (Memᴰ.cases_cons m))

-- A row of the run that is not newer than any row that stays.
abbrev Older : ℕ → ℕ → List (Str × ℕ) → Str → Type 0
Older cutoff i rows run_id =
    (last : ℕ) × Memᴰ (run_id, last) rows
    × ((s : Str) (kept : ℕ)
        → Memᴰ (s, kept) rows
        → (Memᴰ s (evict_from cutoff i rows) → ⊥)
        → last ≤ kept)

-- Where the first row goes, it is not newer than any that stays: either all go, or it is old.
first_goes :
    (cutoff i : ℕ) (r s : Str) (l kept : ℕ) (rows : List (Str × ℕ))
    → (leb 10 i || ltb l cutoff) ≡ true
    → Memᴰ {A = Str × ℕ} (s, kept) ((r, l) ∷ rows)
    → (Memᴰ s (r ∷ evict_from cutoff (i + 1) rows) → ⊥)
    → l ≤ kept
first_goes cutoff i r s l kept rows on (Memᴰ.head e) stays =
    absurd (stays (Memᴰ.head (ap (λ (p : Str × ℕ). p.0) e)))
first_goes cutoff i r s l kept rows on (Memᴰ.tail m) stays = elim (Bool-cases (leb 10 i)) [
  | inl beyond ↦
      absurd (stays (Memᴰ.tail (evict_from-beyond cutoff (i + 1) rows s kept m (ground arith))))
  | inr within ↦ elim (Bool-cases (ltb kept cutoff)) [
    | inl old ↦
        absurd (stays (Memᴰ.tail (evict_from-old cutoff (i + 1) rows s kept m (ground arith))))
    | inr recent ↦ ground arith
  ]
]

evict_from-Older :
    (cutoff i : ℕ) (rows : List (Str × ℕ)) (run_id : Str)
    → IsSorted newest rows
    → Memᴰ run_id (evict_from cutoff i rows)
    → Older cutoff i rows run_id
unfolding evict_from
evict_from-Older cutoff i [] run_id sorted m = elim m [ ]
evict_from-Older cutoff i ((r, l) ∷ rows) run_id (below, sorted) m =
    elim (Bool-cases (leb 10 i || ltb l cutoff)) [
      | inl on ↦ rw on (
          ⊎_elim
            (λ e. (
              l,
              Memᴰ.head (ap {B = Str × ℕ} (λ x. (x, l)) e),
              λ s kept q stays. first_goes cutoff i r s l kept rows on q stays,
            ))
            (λ q.
              let (last, row, older) = evict_from-Older cutoff (i + 1) rows run_id sorted q in
              (
                last,
                Memᴰ.tail row,
                λ s kept p stays.
                    ⊎_elim (λ e. absurd (stays (Memᴰ.head (ap (λ (p : Str × ℕ). p.0) e))))
                      (λ t. older s kept t (λ k. stays (Memᴰ.tail k))) (Memᴰ.cases_cons p),
              ))
            (Memᴰ.cases_cons (rw on at m)))
      | inr off ↦
          let (last, row, older) =
            evict_from-Older cutoff (i + 1) rows run_id sorted (rw off at m) in
          rw off (
            last,
            Memᴰ.tail row,
            λ s kept p stays.
                ⊎_elim
                  (λ e.
                    let same : kept ≡ l = ap (λ (p : Str × ℕ). p.1) e in
                    let le : leb last l ≡ true = All-mem (λ y. newest (r, l) y ≡ true) row below in
                    ground arith)
                  (λ t. older s kept t stays) (Memᴰ.cases_cons p),
          )
    ]

newest-IsOrder : IsOrder newest
newest-IsOrder = record { total = λ a b h. ground arith; trans = λ a b c h k. ground arith }

length-map : {A B : Type 0} (f : A → B) (xs : List A) → length (map f xs) ≡ length xs
length-map f [] = refl
length-map f (x ∷ xs) = ap suc (length-map f xs)

mem-latest :
    (rows : List ArtifactRow) (ids : List Str) (run_id : Str) (last : ℕ)
    → Memᴰ {A = Str × ℕ} (run_id, last) (map (λ r. (r, last_of r rows)) ids)
    → Memᴰ run_id ids × (last ≡ last_of run_id rows)
mem-latest rows [] run_id last m = elim m [ ]
mem-latest rows (r ∷ ids) run_id last (Memᴰ.head e) =
    let same : run_id ≡ r = ap (λ (p : Str × ℕ). p.0) e in
    (Memᴰ.head same, ap (λ (p : Str × ℕ). p.1) e ∙ ap (λ x. last_of x rows) (sym same))
mem-latest rows (r ∷ ids) run_id last (Memᴰ.tail m) =
    let (q, e) = mem-latest rows ids run_id last m in (Memᴰ.tail q, e)

latest-mem :
    (rows : List ArtifactRow) (ids : List Str) (run_id : Str)
    → Memᴰ run_id ids
    → Memᴰ {A = Str × ℕ} (run_id, last_of run_id rows) (map (λ r. (r, last_of r rows)) ids)
latest-mem rows [] run_id m = elim m [ ]
latest-mem rows (r ∷ ids) run_id (Memᴰ.head e) =
    Memᴰ.head (ap {B = Str × ℕ} (λ x. (x, last_of x rows)) e)
latest-mem rows (r ∷ ids) run_id (Memᴰ.tail m) = Memᴰ.tail (latest-mem rows ids run_id m)

-- What the eviction of artifacts promises, from the time `cutoff` on.
pub record Retains (cutoff : ℕ) (db : Db) (evicted : List Str) : Type 0 where
  pub at_most_ten : length (distinct_runs db.artifacts) ≤ length evicted + 10
  pub old_go :
      (run_id : Str)
      → Memᴰ run_id (distinct_runs db.artifacts)
      → last_of run_id db.artifacts < cutoff
      → Memᴰ run_id evicted
  pub only_these_go :
      (run_id : Str)
      → Memᴰ run_id evicted
      → Memᴰ run_id (distinct_runs db.artifacts)
        × ((last_of run_id db.artifacts < cutoff) ⊎ (10 < length (distinct_runs db.artifacts)))
  pub newest_stay :
      (run_id kept : Str)
      → Memᴰ run_id evicted
      → Memᴰ kept (distinct_runs db.artifacts)
      → (Memᴰ kept evicted → ⊥)
      → last_of run_id db.artifacts ≤ last_of kept db.artifacts

-- At most ten of the runs that have artifacts are not evicted; each run whose newest artifact is more
-- than 30 days old is; an evicted run has artifacts and is that old, or there are more than ten; and
-- the runs that are evicted are the oldest: none has a newer artifact than a run that is not.
pub evict_old_artifact_runs-Retains :
    (engine : Engine) (ticks now : ℕ) (db : Db)
    → Retains (now - retention ticks) db (evict_old_artifact_runs engine ticks now db)
unfolding evict_old_artifact_runs
evict_old_artifact_runs-Retains engine ticks now db =
    let cutoff = now - retention ticks in
    let rows = engine.order_by (Str × ℕ) newest (latest_artifacts db) in
    let size =
      engine.order_by-length (Str × ℕ) newest (latest_artifacts db)
      ∙ length-map (λ r. (r, last_of r db.artifacts)) (distinct_runs db.artifacts) in
    let mem = engine.order_by-mem (Str × ℕ) newest (latest_artifacts db) in
    record {
      at_most_ten = omega (arith, evict_from-length cutoff 0 rows);
      old_go = λ run_id m old.
          evict_from-old cutoff 0 rows run_id (last_of run_id db.artifacts)
            ((mem _).1 (latest-mem db.artifacts _ run_id m)) old;
      only_these_go = λ run_id m.
          let (last, q, why) = evict_from-why cutoff 0 rows run_id m in
          let (r, e) = mem-latest db.artifacts _ run_id last ((mem _).0 q) in
          (r, ⊎_elim (λ old. inl (omega arith)) (λ more. inr (omega arith)) why);
      newest_stay = λ run_id kept m k stays.
          let (last, q, older) =
            evict_from-Older cutoff 0 rows run_id
              (engine.order_by-IsSorted (Str × ℕ) newest newest-IsOrder (latest_artifacts db)) m in
          let (r, e) = mem-latest db.artifacts _ run_id last ((mem _).0 q) in
          rw (← e) (
            older kept (last_of kept db.artifacts) ((mem _).1 (latest-mem db.artifacts _ kept k))
              stays);
    }
