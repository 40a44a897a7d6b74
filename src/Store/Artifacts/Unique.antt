-- ===== src/Store/Artifacts/Unique.antt =====
-- The key of an artifact: its run, step and path.
use flowz.Prelude.{
  ℕ, Str, ◌==◌, ==_iff, Bool, true, false, ◌&&◌, any, find, All, if◌then◌else◌, List, [], ◌∷◌, ◌++◌,
  Option, some, Result, ok, ◌≡◌, refl, ap, arith, Bool-cases, inl, inr, ◌↔◌, or-eq-false, ◌∙◌, ◌⊎◌,
  ⊎_elim,
}
use mathlib.Core.Option
use flowz.Store.Tables.{ArtifactRow, Db, DbError, update, has_run}
use flowz.Store.Artifacts.{same_artifact, insert_artifact}

abbrev pub SameKey : ArtifactRow → ArtifactRow → Type 0
SameKey a b = (a.run_id ≡ b.run_id) × (a.step ≡ b.step) × (a.path ≡ b.path)

abbrev pub KeysDistinct : List ArtifactRow → Type 0
KeysDistinct [] = Unit
KeysDistinct (a ∷ rows) = All (λ b. ¬ SameKey a b) rows × KeysDistinct rows

module _ (run_id step path : Str) (size now : ℕ) where
  abbrev rewrite_row : ArtifactRow → ArtifactRow
  rewrite_row a = record a { size = size; created_at = now }

  All-update :
      (a : ArtifactRow) (p : ArtifactRow → Bool) (rows : List ArtifactRow)
      → All (λ b. ¬ SameKey a b) rows
      → All (λ b. ¬ SameKey a b) (update p rewrite_row rows)
  unfolding update
  All-update a p [] h = tt
  All-update a p (b ∷ rows) h = elim (Bool-cases (p b)) [
    | inl on ↦ rw on (h.0, All-update a p rows h.1)
    | inr off ↦ rw off (h.0, All-update a p rows h.1)
  ]

  KeysDistinct-update :
      (p : ArtifactRow → Bool) (rows : List ArtifactRow)
      → KeysDistinct rows
      → KeysDistinct (update p rewrite_row rows)
  unfolding update
  KeysDistinct-update p [] h = tt
  KeysDistinct-update p (a ∷ rows) h = elim (Bool-cases (p a)) [
    | inl on ↦ rw on (All-update a p rows h.0, KeysDistinct-update p rows h.1)
    | inr off ↦ rw off (All-update a p rows h.0, KeysDistinct-update p rows h.1)
  ]

same_artifact_iff :
    (run_id step path : Str) (a : ArtifactRow)
    → (same_artifact run_id step path a ≡ true)
      ↔ ((a.run_id ≡ run_id) × (a.step ≡ step) × (a.path ≡ path))
same_artifact_iff run_id step path a =
    ground (arith, ==_iff a.run_id run_id, ==_iff a.step step, ==_iff a.path path)

All-concat :
    (a b : ArtifactRow) (rows : List ArtifactRow)
    → All (λ c. ¬ SameKey a c) rows
    → (¬ SameKey a b)
    → All (λ c. ¬ SameKey a c) (rows ++ b ∷ [])
All-concat a b [] h n = (n, tt)
All-concat a b (c ∷ rows) h n = (h.0, All-concat a b rows h.1 n)

KeysDistinct-concat :
    (rows : List ArtifactRow) (b : ArtifactRow)
    → KeysDistinct rows
    → any (same_artifact b.run_id b.step b.path) rows ≡ false
    → KeysDistinct (rows ++ b ∷ [])
KeysDistinct-concat [] b h e = (tt, tt)
KeysDistinct-concat (a ∷ rows) b h e =
    let (here, rest) = or-eq-false (same_artifact b.run_id b.step b.path a) _ e in
    (
      All-concat a b rows h.0 (λ k. cc ((same_artifact_iff b.run_id b.step b.path a).1 k, here)),
      KeysDistinct-concat rows b h.1 rest,
    )

-- What is stored under a key: the size and the time.
abbrev pub content : ArtifactRow → ℕ × ℕ
content a = (a.size, a.created_at)

abbrev pub stored : Db → Str → Str → Str → Option (ℕ × ℕ)
stored db run_id step path = Option.map content (find (same_artifact run_id step path) db.artifacts)

abbrev pub same_key : Str → Str → Str → Str → Str → Str → Bool
same_key r s p r' s' p' = r == r' && s == s' && p == p'

module _ (r s p r' s' p' : Str) (size now : ℕ) where
  abbrev put : ArtifactRow → ArtifactRow
  put a = record a { size = size; created_at = now }

  keys_agree :
      (a : ArtifactRow)
      → same_artifact r s p a ≡ true
      → same_artifact r' s' p' a ≡ same_key r s p r' s' p'
  keys_agree a h = let (e1, e2, e3) = (same_artifact_iff r s p a).0 h in rw (e1, e2, e3)

  same_tests :
      (a : ArtifactRow)
      → same_key r s p r' s' p' ≡ true
      → same_artifact r' s' p' a ≡ same_artifact r s p a
  same_tests a h = ground (
    arith,
    ==_iff r r',
    ==_iff s s',
    ==_iff p p',
    ==_iff a.run_id r,
    ==_iff a.step s,
    ==_iff a.path p,
    ==_iff a.run_id r',
    ==_iff a.step s',
    ==_iff a.path p',
  )

  find-update_other :
      (rows : List ArtifactRow)
      → same_key r s p r' s' p' ≡ false
      → Option.map content (find (same_artifact r' s' p') (update (same_artifact r s p) put rows))
        ≡ Option.map content (find (same_artifact r' s' p') rows)
  unfolding update
  find-update_other [] h = refl
  find-update_other (a ∷ rows) h = elim (Bool-cases (same_artifact r s p a)) [
    | inl on ↦
        let other : same_artifact r' s' p' a ≡ false = keys_agree a on ∙ h in
        rw (on, other) (find-update_other rows h)
    | inr off ↦ elim (Bool-cases (same_artifact r' s' p' a)) [
      | inl found ↦ rw (off, found) refl
      | inr other ↦ rw (off, other) (find-update_other rows h)
    ]
  ]

  find-update_same :
      (rows : List ArtifactRow)
      → same_key r s p r' s' p' ≡ true
      → any (same_artifact r s p) rows ≡ true
      → Option.map content (find (same_artifact r' s' p') (update (same_artifact r s p) put rows))
        ≡ some (size, now)
  unfolding update
  find-update_same [] k h = absurd (cc)
  find-update_same (a ∷ rows) k h = elim (Bool-cases (same_artifact r s p a)) [
    | inl on ↦
        let found : same_artifact r' s' p' a ≡ true = same_tests a k ∙ on in rw (on, found) refl
    | inr off ↦
        let other : same_artifact r' s' p' a ≡ false = same_tests a k ∙ off in
        rw (off, other) (find-update_same rows k (rw off at h))
  ]

  find-concat :
      (new : ArtifactRow) (rows : List ArtifactRow)
      → same_artifact r s p new ≡ true
      → content new ≡ (size, now)
      → any (same_artifact r s p) rows ≡ false
      → Option.map content (find (same_artifact r' s' p') (rows ++ new ∷ [])) ≡ (
          if same_key r s p r' s' p'
          then some (size, now)
          else Option.map content (find (same_artifact r' s' p') rows))
  find-concat new [] k c h = rw (keys_agree new k) (ground (arith, c))
  find-concat new (a ∷ rows) k c h =
      let (here, rest) = or-eq-false (same_artifact r s p a) _ h in
      ground (arith, here, same_tests a, find-concat new rows k c rest)

abbrev fresh_row : Str → ℕ → Str → Str → Str → ℕ → ArtifactRow
fresh_row id now run_id step path size = record {
  id = id;
  run_id = run_id;
  step = step;
  path = path;
  size = size;
  created_at = now;
}

db_of_ok : {a b : Db} → ◌≡◌ {A = Result DbError Db} (ok a) (ok b) → b ≡ a
db_of_ok e = cc

-- An insertion that succeeds overwrites the row of its key, or appends one.
inserted :
    (id : Str) (now : ℕ) (db db' : Db) (run_id step path : Str) (size : ℕ)
    → insert_artifact id now db run_id step path size ≡ ok db'
    → (any (same_artifact run_id step path) db.artifacts ≡ true)
        × (db'.artifacts
            ≡ update
                (same_artifact run_id step path)
                (λ a. record a { size = size; created_at = now })
                db.artifacts)
      ⊎ (any (same_artifact run_id step path) db.artifacts ≡ false)
        × (db'.artifacts ≡ db.artifacts ++ fresh_row id now run_id step path size ∷ [])
unfolding insert_artifact
inserted id now db db' run_id step path size h =
    elim (Bool-cases (any (same_artifact run_id step path) db.artifacts)) [
      | inl old ↦ inl (old, ap (λ (d : Db). d.artifacts) (db_of_ok (rw old at h)))
      | inr new ↦
          let h1 = rw new at h in
          elim (Bool-cases (any (λ (a : ArtifactRow). a.id == id) db.artifacts)) [
            | inl taken ↦ absurd (cc (rw taken at h1))
            | inr free ↦
                let h2 = rw free at h1 in
                elim (Bool-cases (has_run db run_id)) [
                  | inl on ↦ inr (new, ap (λ (d : Db). d.artifacts) (db_of_ok (rw on at h2)))
                  | inr off ↦ absurd (cc (rw off at h2))
                ]
          ]
    ]

-- Where the keys of the artifacts are distinct, an upload that is recorded is what is stored under
-- its run, step and path; what is stored under any other key is unchanged, and the keys stay
-- distinct.
pub insert_artifact-stored :
    (id : Str) (now : ℕ) (db db' : Db) (r s p : Str) (size : ℕ)
    → KeysDistinct db.artifacts
    → insert_artifact id now db r s p size ≡ ok db'
    → KeysDistinct db'.artifacts
      × ((r' s' p' : Str)
          → stored db' r' s' p'
            ≡ (if same_key r s p r' s' p' then some (size, now) else stored db r' s' p'))
insert_artifact-stored id now db db' r s p size distinct h =
    ⊎_elim
      (λ (old, e). (
        rw e (KeysDistinct-update r s p size now (same_artifact r s p) db.artifacts distinct),
        λ r' s' p'. rw e (elim (Bool-cases (same_key r s p r' s' p')) [
          | inl same ↦ rw same (find-update_same r s p r' s' p' size now db.artifacts same old)
          | inr other ↦ rw other (find-update_other r s p r' s' p' size now db.artifacts other)
        ]),
      ))
      (λ (new, e). (
        rw e (KeysDistinct-concat db.artifacts (fresh_row id now r s p size) distinct new),
        λ r' s' p'. rw e (
            find-concat r s p r' s' p' size now (fresh_row id now r s p size) db.artifacts
              ((same_artifact_iff r s p (fresh_row id now r s p size)).1 (refl, refl, refl)) refl
              new),
      ))
      (inserted id now db db' r s p size h)
