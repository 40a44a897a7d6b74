-- ===== src/Store/Runs.antt =====
-- The queries on `runs`. The clock is the argument `now`.
pub mod Update
use flowz.Prelude.{
  ℕ, Str, ◌==◌, Bool, true, false, not, ◌&&◌, ◌||◌, leb, any, all, keep, find, take, drop, length,
  lit, if◌then◌else◌, List, [], ◌∷◌, ◌++◌, map, Option, none, some, Result, ok, err, flat_map,
}
use mathlib.Core.Option
use flowz.Model.{Run, RunStatus}
use flowz.Store.Status.{run_as_str}
use flowz.Store.Sql.{Engine}
use flowz.Store.Tables.{
  RunRow, Db, DbError, primary_key, Query, update, optional, to_run, oldest_first, newest_first,
}

-- `create_run`
unfoldable pub create_run : Db → Run → Query Db
create_run db run =
    if any (λ (r : RunRow). r.id == run.id) db.runs
    then err primary_key
    else ok (record db {
      runs =
          db.runs
          ++ record {
            id = run.id;
            repo = run.repo;
            branch = run.branch;
            commit = run.commit;
            clone_url = run.clone_url;
            status = run_as_str run.status;
            created_at = run.created_at;
            updated_at = run.updated_at;
          }
            ∷ [];
    })

-- `get_run`
unfoldable pub get_run : Db → Str → Option Run
get_run db id = Option.map to_run (find (λ (r : RunRow). r.id == id) db.runs)

-- `update_run_status`
unfoldable pub update_run_status : ℕ → Db → Str → RunStatus → Db
unfolding update
update_run_status now db id status = record db {
  runs =
      update (λ (r : RunRow). r.id == id)
        (λ r. record r { status = run_as_str status; updated_at = now }) db.runs;
}

-- The partition of a repository is ordered like the whole; its first row has number 1.
abbrev pub of_repo : Db → Str → List RunRow
of_repo db repo = keep (λ (r : RunRow). r.repo == repo) db.runs

-- The repositories of the runs, each once.
abbrev pub distinct_repos : List RunRow → List Str
distinct_repos [] = []
distinct_repos (r ∷ rs) =
    let rest = distinct_repos rs in
    if any (λ (s : RunRow). s.repo == r.repo) rs then rest else r.repo ∷ rest

-- `GROUP BY branch`, with the newest time of each branch.
abbrev pub branch_max : Str → List RunRow → ℕ
branch_max branch [] = 0
branch_max branch (r ∷ rs) =
    let rest = branch_max branch rs in
    if r.branch == branch then (if leb rest r.created_at then r.created_at else rest) else rest

abbrev pub distinct_branches : List RunRow → List Str
distinct_branches [] = []
distinct_branches (r ∷ rs) =
    let rest = distinct_branches rs in
    if any (λ (s : RunRow). s.branch == r.branch) rs then rest else r.branch ∷ rest

abbrev pub on_branch : Option Str → RunRow → Bool
on_branch none r = true
on_branch (some branch) r = r.branch == branch

abbrev pub mark_running : ℕ → Db → Option RunRow → Db
mark_running now db none = db
mark_running now db (some row) = record db {
  runs =
      update (λ (r : RunRow). r.id == row.id)
        (λ r. record r { status = lit "running"; updated_at = now }) db.runs;
}

module _ (engine : Engine) where
  -- `list_runs`
  unfoldable pub list_runs : Db → ℕ → List Run
  list_runs db limit = map to_run (take limit (engine.order_by RunRow newest_first db.runs))

  abbrev pub latest_of : Db → Str → List (RunRow × ℕ)
  latest_of db repo =
      map (λ r. (r, length (of_repo db repo)))
        (take 1 (engine.order_by RunRow newest_first (of_repo db repo)))

  -- `list_projects`: the latest run of each repository and its number of runs.
  unfoldable pub list_projects : Db → List (Run × ℕ)
  list_projects db =
      map (λ e. (to_run e.0, e.1))
        (engine.order_by (RunRow × ℕ) (λ p q. newest_first p.0 q.0)
          (flat_map (latest_of db) (distinct_repos db.runs)))

  -- `list_project_branches`
  unfoldable pub list_project_branches : Db → Str → List Str
  list_project_branches db repo =
      let rows = of_repo db repo in
      engine.order_by Str (λ a b. leb (branch_max b rows) (branch_max a rows))
        (distinct_branches rows)

  -- `list_project_runs`
  unfoldable pub list_project_runs : Db → Str → Option Str → ℕ → ℕ → List Run
  list_project_runs db repo branch limit offset = map to_run (
      take limit (
        drop offset (
          engine.order_by RunRow newest_first
            (keep (λ (r : RunRow). r.repo == repo && on_branch branch r) db.runs))))

  -- The two statements of `claim_next_job`.
  unfoldable pub select_queued : Db → Option RunRow
  select_queued db = optional (
      engine.order_by RunRow oldest_first (keep (λ (r : RunRow). r.status == lit "queued") db.runs))

  -- `claim_next_job`
  unfoldable pub claim_next_job : ℕ → Db → Option Run × Db
  unfolding select_queued update
  claim_next_job now db =
      let row = select_queued db in (Option.map to_run row, mark_running now db row)
