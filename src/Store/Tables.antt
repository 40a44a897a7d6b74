-- ===== src/Store/Tables.antt =====
-- The tables of migrations/0001_init.sql, 0002_repos.sql and 0003_artifacts.sql, with rows in the
-- order of insertion. A time stamp, an RFC 3339 text in the database, is its time.
use flowz.Prelude.{
  ℕ, Str, ◌==◌, Bool, leb, any, if◌then◌else◌, List, [], ◌∷◌, Option, none, some, Result,
}
use flowz.Model.{Run, Repo, StepRecord}
use flowz.Store.Status.{run_from_str, step_from_str}

pub record RunRow : Type 0 where
  pub id : Str
  pub repo : Str
  pub branch : Str
  pub commit : Str
  pub clone_url : Str
  pub status : Str
  pub created_at : ℕ
  pub updated_at : ℕ

pub record StepRow : Type 0 where
  pub run_id : Str
  pub name : Str
  pub status : Str
  pub started_at : Option ℕ
  pub finished_at : Option ℕ

pub record LogLine : Type 0 where
  pub id : ℕ
  pub run_id : Str
  pub step : Str
  pub line : Str
  pub created_at : ℕ

pub record ArtifactRow : Type 0 where
  pub id : Str
  pub run_id : Str
  pub step : Str
  pub path : Str
  pub size : ℕ
  pub created_at : ℕ

-- `last_log_id` is the counter of AUTOINCREMENT.
pub record Db : Type 0 where
  pub runs : List RunRow
  pub steps : List StepRow
  pub log_lines : List LogLine
  pub last_log_id : ℕ
  pub repos : List Repo
  pub artifacts : List ArtifactRow

abbrev pub empty : Db
empty = record {
  runs = [];
  steps = [];
  log_lines = [];
  last_log_id = 0;
  repos = [];
  artifacts = [];
}

-- A statement that breaks a constraint of the schema fails and changes nothing.
pub data DbError : Type 0 where
  primary_key unique foreign_key : DbError

abbrev pub Query : Type 0 → Type 0
Query A = Result DbError A

-- `UPDATE … SET … WHERE …`
unfoldable pub update : {A : Type 0} → (A → Bool) → (A → A) → List A → List A
update p f [] = []
update p f (x ∷ xs) = (if p x then f x else x) ∷ update p f xs

-- `runs(id)` is what other tables refer to.
abbrev pub has_run : Db → Str → Bool
has_run db id = any (λ (r : RunRow). r.id == id) db.runs

abbrev pub optional : {A : Type 0} → List A → Option A
optional [] = none
optional (x ∷ xs) = some x

-- `impl From<RunRow> for Run`
abbrev pub to_run : RunRow → Run
to_run r = record {
  id = r.id;
  repo = r.repo;
  branch = r.branch;
  commit = r.commit;
  clone_url = r.clone_url;
  status = run_from_str r.status;
  created_at = r.created_at;
  updated_at = r.updated_at;
}

-- `impl From<StepRow> for StepRecord`
abbrev pub to_step : StepRow → StepRecord
to_step s = record {
  run_id = s.run_id;
  name = s.name;
  status = step_from_str s.status;
  started_at = s.started_at;
  finished_at = s.finished_at;
}

-- `ORDER BY created_at` and `ORDER BY created_at DESC`
abbrev pub oldest_first : RunRow → RunRow → Bool
oldest_first r s = leb r.created_at s.created_at

abbrev pub newest_first : RunRow → RunRow → Bool
newest_first r s = leb s.created_at r.created_at
