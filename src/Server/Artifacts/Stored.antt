-- ===== src/Server/Artifacts/Stored.antt =====
-- An artifact that was uploaded is what is downloaded.
use mathlib.Core.List.{append_assoc}
use flowz.Prelude.{
  ends_with_slash, join_path, ℕ, Str, lit, ==_refl, split, starts_with, contains_char, is_empty,
  Bool, true, false, eqb, [], ◌∷◌, ◌++◌, some, ok, err, ◌≡◌, refl, ap, sym, subst, append_nil, ◌∙◌,
  Bool-cases, inl, inr, arith, or-eq-false,
}
use flowz.Model.{IndexMap}
use flowz.Agent.Env.{put}
use flowz.Agent.Env.Priority.{get-put}
use flowz.Agent.Resolver.{get}
use flowz.Store.Tables.{Db, Query}
use flowz.Server.Artifacts.{
  safe_rel_path, no_content, attachment, last_part, Disk, answer_insert, answer_read, destination,
  upload_artifact, download_artifact,
}

-- A name of a directory: not empty and without a slash.
abbrev pub IsName : Str → Type 0
IsName name = (is_empty name ≡ false) × (contains_char name b'/' ≡ false)

no_slash_at_end : (name : Str) → IsName name → ends_with_slash name ≡ false
unfolding contains_char
no_slash_at_end [] h = absurd (cc h.0)
no_slash_at_end (c ∷ []) h = (or-eq-false (eqb c b'/') false h.1).0
no_slash_at_end (c ∷ d ∷ s) h =
    no_slash_at_end (d ∷ s) (refl, (or-eq-false (eqb c b'/') (contains_char (d ∷ s) b'/') h.1).1)

ends-append : (s : Str) (d : ℕ) (t : Str) → ends_with_slash (s ++ d ∷ t) ≡ ends_with_slash (d ∷ t)
ends-append [] d t = refl
ends-append (c ∷ []) d t = refl
ends-append (c ∷ e ∷ s) d t = ends-append (e ∷ s) d t

is_relative : (name rest : Str) → IsName name → starts_with (name ++ rest) (lit "/") ≡ false
unfolding starts_with contains_char
is_relative [] rest h = absurd (cc h.0)
is_relative (c ∷ s) rest h = rw ((or-eq-false (eqb c b'/') (contains_char s b'/') h.1).0) refl

abbrev glue : Bool → Str → Str → Str
glue true dir path = dir ++ path
glue false dir path = dir ++ b'/' ∷ path

join-glue :
    (dir path : Str)
    → starts_with path (lit "/") ≡ false
    → join_path dir path ≡ glue (ends_with_slash dir) dir path
unfolding join_path
join-glue dir path r = elim (Bool-cases (ends_with_slash dir)) [
  | inl on ↦ rw (r, on, join_path) refl
  | inr off ↦ rw (r, off, join_path) refl
]

glue-ends : (b : Bool) (dir name : Str) → IsName name → ends_with_slash (glue b dir name) ≡ false
glue-ends b dir [] h = absurd (cc h.0)
glue-ends true dir (c ∷ s) h = ends-append dir c s ∙ no_slash_at_end (c ∷ s) h
glue-ends false dir (c ∷ s) h = ends-append dir b'/' (c ∷ s) ∙ no_slash_at_end (c ∷ s) h

glue_assoc : (b : Bool) (dir name path : Str) → glue b dir name ++ path ≡ glue b dir (name ++ path)
glue_assoc true dir name path = append_assoc dir name path
glue_assoc false dir name path = append_assoc dir (b'/' ∷ name) path

-- A name and a path below it can be joined one after the other.
join_path-twice :
    (dir name path : Str)
    → IsName name
    → starts_with path (lit "/") ≡ false
    → join_path (join_path dir name) path ≡ join_path dir (name ++ b'/' ∷ path)
join_path-twice dir name path h r =
    let b = ends_with_slash dir in
    let first =
      join-glue dir name
        (subst (λ n. starts_with n (lit "/") ≡ false) (append_nil name) (is_relative name [] h)) in
    ap (λ d. join_path d path) first
    ∙ join-glue (glue b dir name) path r
    ∙ ap (λ x. glue x (glue b dir name) path) (glue-ends b dir name h)
    ∙ glue_assoc b dir name (b'/' ∷ path)
    ∙ sym (join-glue dir (name ++ b'/' ∷ path) (is_relative name (b'/' ∷ path) h))

safe-relative : (path : Str) → safe_rel_path path ≡ true → starts_with path (lit "/") ≡ false
unfolding safe_rel_path
safe-relative path h = ground arith

get-put_same : (m : IndexMap Str) (k v : Str) → get (put m k v) k ≡ some v
get-put_same m k v = get-put m k v k ∙ rw (==_refl k) refl

answer_insert-no_content :
    (disk : Disk) (q : Query Db)
    → (answer_insert disk q).0 ≡ no_content
    → (answer_insert disk q).1.files ≡ disk.files
answer_insert-no_content disk (ok db) h = refl
answer_insert-no_content disk (err e) h = absurd (cc h)

module _ (artifacts_dir : Str) (can_make can_write : Str → Bool) where
  -- An upload that succeeds made its path safe and stored its body.
  stores :
      (id : Str) (now : ℕ) (run_id step path body : Str) (disk : Disk)
      → (upload_artifact artifacts_dir can_make can_write id now run_id step path body disk).0
        ≡ no_content
      → (safe_rel_path path ≡ true)
        × ((upload_artifact artifacts_dir can_make can_write id now run_id step path body
              disk).1.files
            ≡ put disk.files (destination artifacts_dir can_make can_write run_id step path) body)
  unfolding upload_artifact
  stores id now run_id step path body disk h =
      let dest = destination artifacts_dir can_make can_write run_id step path in
      elim (Bool-cases (safe_rel_path path)) [
        | inr unsafe ↦ absurd (cc (rw (unsafe, upload_artifact) at h))
        | inl safe ↦ elim (Bool-cases (can_make dest)) [
          | inr stuck ↦ absurd (cc (rw (safe, stuck, upload_artifact) at h))
          | inl made ↦ elim (Bool-cases (can_write dest)) [
            | inr full ↦ absurd (cc (rw (safe, made, full, upload_artifact) at h))
            | inl written ↦ (
              safe,
              rw (safe, made, written, upload_artifact)
                  (answer_insert-no_content (record disk { files = put disk.files dest body }) _
                    (rw (safe, made, written, upload_artifact) at h)),
            )
          ]
        ]
      ]

  -- An upload that is answered with success can be downloaded, under its step and path, with the bytes
  -- that were sent. The step is a name, not empty and without a slash, and the path that it makes with
  -- that of the artifact is one that a download accepts.
  pub download-upload_artifact :
      (id : Str) (now : ℕ) (run_id step path body : Str) (disk : Disk)
      → IsName step
      → safe_rel_path (step ++ b'/' ∷ path) ≡ true
      → (upload_artifact artifacts_dir can_make can_write id now run_id step path body disk).0
        ≡ no_content
      → download_artifact artifacts_dir can_make can_write run_id
          (step ++ b'/' ∷ path)
          (upload_artifact artifacts_dir can_make can_write id now run_id step path body disk).1
        ≡ attachment (last_part (split (step ++ b'/' ∷ path) b'/')) body
  unfolding download_artifact
  download-upload_artifact id now run_id step path body disk name safe h =
      let (fine, stored) = stores id now run_id step path body disk h in
      let dest = destination artifacts_dir can_make can_write run_id step path in
      let key = join_path (join_path artifacts_dir run_id) (step ++ b'/' ∷ path) in
      let same : dest ≡ key =
        join_path-twice (join_path artifacts_dir run_id) step path name (safe-relative path fine) in
      rw (safe, download_artifact)
        (ap (answer_read artifacts_dir can_make can_write (step ++ b'/' ∷ path)) (
          ap (λ files. get files key) stored
          ∙ (ap (get (put disk.files dest body)) (sym same) ∙ get-put_same disk.files dest body)))
