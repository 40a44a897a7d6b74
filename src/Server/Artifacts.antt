-- ===== src/Server/Artifacts.antt =====
-- src/server/mod.rs: the upload, the download and the list of artifacts. The files of the server are a
-- map from paths to bytes; which directories can be made and which files written are parameters.
pub mod Paths
pub mod Stored
use flowz.Prelude.{
  join_path, ℕ, ◌+◌, Str, lit, ◌==◌, split, starts_with, is_empty, length, Bool, true, false, not,
  ◌&&◌, ◌||◌, eqb, any, if◌then◌else◌, List, [], ◌∷◌, ◌++◌, Option, none, some, Result, ok, err,
}
use flowz.Model.{IndexMap, Artifact}
use flowz.Agent.Env.{put}
use flowz.Agent.Resolver.{get}
use flowz.Store.Sql.{Engine}
use flowz.Store.Tables.{Db, Query}
use flowz.Store.Artifacts.{insert_artifact, list_artifacts}

-- `safe_rel_path`
unfoldable pub safe_rel_path : Str → Bool
safe_rel_path path =
    not (starts_with path (lit "/")) && not (any (λ c. c == lit "..") (split path b'/'))

-- The files that the server keeps, with its database.
pub record Disk : Type 0 where
  pub db : Db
  pub files : IndexMap Str

pub data Response : Type 0 where
  bad_request not_found internal_server_error no_content : Response
  -- the name that is offered, and the bytes
  attachment : Str → Str → Response

-- `rsplit('/').next()`
abbrev pub last_part : List Str → Str
last_part [] = lit "artifact"
last_part (p ∷ []) = p
last_part (p ∷ q ∷ ps) = last_part (q ∷ ps)

abbrev pub answer_insert : Disk → Query Db → Response × Disk
answer_insert disk (ok db) = (no_content, record disk { db = db })
answer_insert disk (err e) = (internal_server_error, disk)

module _ (artifacts_dir : Str) (can_make can_write : Str → Bool) where
  abbrev pub destination : Str → Str → Str → Str
  destination run_id step path = join_path (join_path (join_path artifacts_dir run_id) step) path

  -- `upload_artifact`: a file that was written stays where the row cannot be stored.
  unfoldable pub upload_artifact : Str → ℕ → Str → Str → Str → Str → Disk → Response × Disk
  unfolding join_path safe_rel_path
  upload_artifact id now run_id step path body disk =
      let dest = destination run_id step path in
      let written = record disk { files = put disk.files dest body } in
      if not (safe_rel_path path)
      then (bad_request, disk)
      else if not (can_make dest)
      then (internal_server_error, disk)
      else if not (can_write dest)
      then (internal_server_error, disk)
      else answer_insert written (insert_artifact id now disk.db run_id step path (length body))

  abbrev pub answer_read : Str → Option Str → Response
  answer_read path none = not_found
  answer_read path (some bytes) = attachment (last_part (split path b'/')) bytes

  -- `download_artifact`
  unfoldable pub download_artifact : Str → Str → Disk → Response
  unfolding join_path safe_rel_path
  download_artifact run_id path disk =
      if not (safe_rel_path path)
      then bad_request
      else answer_read path (get disk.files (join_path (join_path artifacts_dir run_id) path))

-- `list_artifacts_api`
abbrev pub list_artifacts_api : Engine → Str → Disk → List Artifact
list_artifacts_api engine run_id disk = list_artifacts engine disk.db run_id
