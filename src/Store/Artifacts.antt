-- ===== src/Store/Artifacts.antt =====
-- The queries on `artifacts`.
pub mod Retention
pub mod Unique
use flowz.Prelude.{
  ℕ, zero, suc, ◌+◌, ◌-◌, ◌*◌, Str, ◌==◌, Bool, not, ◌&&◌, ◌||◌, ltb, leb, any, keep, if◌then◌else◌,
  List, [], ◌∷◌, ◌++◌, map, Result, ok, err,
}
use flowz.Model.{Artifact}
use flowz.Store.Sql.{Engine}
use flowz.Store.Tables.{ArtifactRow, Db, DbError, primary_key, foreign_key, Query, update, has_run}
use flowz.Secrets.{less}

abbrev pub same_artifact : Str → Str → Str → ArtifactRow → Bool
same_artifact run_id step path a = a.run_id == run_id && a.step == step && a.path == path

-- `insert_artifact`, with a fresh `id`: a row of the same run, step and path is overwritten.
unfoldable pub insert_artifact : Str → ℕ → Db → Str → Str → Str → ℕ → Query Db
unfolding update
insert_artifact id now db run_id step path size =
    if any (same_artifact run_id step path) db.artifacts
    then ok (record db {
      artifacts =
          update (same_artifact run_id step path)
            (λ (a : ArtifactRow). record a { size = size; created_at = now }) db.artifacts;
    })
    else if any (λ (a : ArtifactRow). a.id == id) db.artifacts
    then err primary_key
    else if not (has_run db run_id)
    then err foreign_key
    else ok (record db {
      artifacts =
          db.artifacts
          ++ record {
            id = id;
            run_id = run_id;
            step = step;
            path = path;
            size = size;
            created_at = now;
          }
            ∷ [];
    })

abbrev pub to_artifact : ArtifactRow → Artifact
to_artifact a = record {
  run_id = a.run_id;
  step = a.step;
  path = a.path;
  size = a.size;
  created_at = a.created_at;
}

-- `ORDER BY step, path`
abbrev pub by_step_path : ArtifactRow → ArtifactRow → Bool
by_step_path a b = less a.step b.step || (a.step == b.step && not (less b.path a.path))

-- `list_artifacts`
unfoldable pub list_artifacts : Engine → Db → Str → List Artifact
list_artifacts engine db run_id = map to_artifact (
    engine.order_by ArtifactRow by_step_path
      (keep (λ (a : ArtifactRow). a.run_id == run_id) db.artifacts))

-- `delete_artifacts`
unfoldable pub delete_artifacts : Db → Str → Db
delete_artifacts db run_id = record db {
  artifacts = keep (λ (a : ArtifactRow). not (a.run_id == run_id)) db.artifacts;
}

-- `SELECT run_id, MAX(created_at) AS last FROM artifacts GROUP BY run_id`
abbrev pub last_of : Str → List ArtifactRow → ℕ
last_of run_id [] = 0
last_of run_id (a ∷ as_) =
    let rest = last_of run_id as_ in
    if a.run_id == run_id then (if leb rest a.created_at then a.created_at else rest) else rest

abbrev pub distinct_runs : List ArtifactRow → List Str
distinct_runs [] = []
distinct_runs (a ∷ as_) =
    let rest = distinct_runs as_ in
    if any (λ (b : ArtifactRow). b.run_id == a.run_id) as_ then rest else a.run_id ∷ rest

abbrev pub latest_artifacts : Db → List (Str × ℕ)
latest_artifacts db = map (λ r. (r, last_of r db.artifacts)) (distinct_runs db.artifacts)

-- `ORDER BY last DESC`
abbrev pub newest : Str × ℕ → Str × ℕ → Bool
newest p q = leb q.1 p.1

-- The loop over the rows, the first of which has the index `i`.
unfoldable pub evict_from : ℕ → ℕ → List (Str × ℕ) → List Str
evict_from cutoff i [] = []
evict_from cutoff i ((run_id, last) ∷ rows) =
    let rest = evict_from cutoff (i + 1) rows in
    if leb 10 i || ltb last cutoff then run_id ∷ rest else rest

-- 30 days, in ticks of which a second has `ticks`.
abbrev pub retention : ℕ → ℕ
retention ticks = 30 * (24 * (3600 * ticks))

-- `evict_old_artifact_runs`
unfoldable pub evict_old_artifact_runs : Engine → ℕ → ℕ → Db → List Str
unfolding evict_from
evict_old_artifact_runs engine ticks now db =
    evict_from (now - retention ticks) 0 (engine.order_by (Str × ℕ) newest (latest_artifacts db))
