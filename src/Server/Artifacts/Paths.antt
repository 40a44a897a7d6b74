-- ===== src/Server/Artifacts/Paths.antt =====
-- Where the path of an artifact leads.
use flowz.Prelude.{
  ℕ, Str, lit, ◌==◌, split, is_empty, Bool, true, false, any, if◌then◌else◌, List, [], ◌∷◌, ◌++◌,
  ok, err, ◌≡◌, refl, ap, sym, ◌∙◌, ◌||◌, ◌⊎◌, Bool-cases, inl, inr, or-eq-false, arith,
}
use flowz.Agent.Env.{put}
use flowz.Store.Tables.{Db, Query}
use flowz.Server.Artifacts.{safe_rel_path, Disk, answer_insert, destination, upload_artifact}

abbrev pub leave : List Str → List Str
leave [] = []
leave (part ∷ dir) = dir

-- The directory that a path leads to from one, both given by their components, those of the directory
-- from the innermost outwards: `..` leaves a directory, `.` and an empty component stay.
abbrev pub walk : List Str → List Str → List Str
walk dir [] = dir
walk dir (part ∷ parts) =
    walk
      (if part == lit ".."
        then leave dir
        else if part == lit "." || is_empty part
        then dir
        else part ∷ dir)
      parts

-- The path stays below wherever it starts.
abbrev pub Stays : Str → Type 0
Stays path = (dir : List Str) → (rest : List Str) × (walk dir (split path b'/') ≡ rest ++ dir)

append_last : (rest dir : List Str) (part : Str) → (rest ++ part ∷ []) ++ dir ≡ rest ++ part ∷ dir
append_last [] dir part = refl
append_last (r ∷ rest) dir part = ap (λ xs. r ∷ xs) (append_last rest dir part)

walk-below :
    (dir parts : List Str)
    → any (λ c. c == lit "..") parts ≡ false
    → (rest : List Str) × (walk dir parts ≡ rest ++ dir)
walk-below dir [] h = ([], refl)
walk-below dir (part ∷ parts) h =
    let (down, none) = or-eq-false (part == lit "..") (any (λ c. c == lit "..") parts) h in
    elim (Bool-cases (part == lit "." || is_empty part)) [
      | inl here ↦ let (rest, e) = walk-below dir parts none in (rest, rw (down, here) e)
      | inr below ↦
          let (rest, e) = walk-below (part ∷ dir) parts none in
          (rest ++ part ∷ [], rw (down, below) e ∙ sym (append_last rest dir part))
    ]

answer_insert-files : (disk : Disk) (q : Query Db) → (answer_insert disk q).1.files ≡ disk.files
answer_insert-files disk (ok db) = refl
answer_insert-files disk (err e) = refl

safe-Stays : (path : Str) → safe_rel_path path ≡ true → Stays path
unfolding safe_rel_path
safe-Stays path h dir = walk-below dir (split path b'/') (ground arith)

-- An upload leaves the files as they are, or it writes its body at one place, and the path that was
-- asked for leads from there to nowhere above the directory of the step.
pub upload_artifact-Stays :
    (artifacts_dir : Str) (can_make can_write : Str → Bool) (id : Str) (now : ℕ)
    (run_id step path body : Str) (disk : Disk)
    → ((upload_artifact artifacts_dir can_make can_write id now run_id step path body disk).1.files
        ≡ disk.files)
      ⊎ (((upload_artifact artifacts_dir can_make can_write id now run_id step path body
              disk).1.files
            ≡ put disk.files (destination artifacts_dir can_make can_write run_id step path) body)
          × Stays path)
unfolding upload_artifact
upload_artifact-Stays artifacts_dir can_make can_write id now run_id step path body disk =
    let dest = destination artifacts_dir can_make can_write run_id step path in
    elim (Bool-cases (safe_rel_path path)) [
      | inr unsafe ↦ inl (rw (unsafe, upload_artifact) refl)
      | inl safe ↦ elim (Bool-cases (can_make dest)) [
        | inr stuck ↦ inl (rw (safe, stuck, upload_artifact) refl)
        | inl made ↦ elim (Bool-cases (can_write dest)) [
          | inr full ↦ inl (rw (safe, made, full, upload_artifact) refl)
          | inl written ↦ inr (
            rw (safe, made, written, upload_artifact)
                (answer_insert-files (record disk { files = put disk.files dest body }) _),
            safe-Stays path safe,
          )
        ]
      ]
    ]
