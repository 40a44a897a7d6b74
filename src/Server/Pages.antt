-- ===== src/Server/Pages.antt =====
-- src/server/mod.rs: what the pages show. The texts of times, the encoding of links and the templates are
-- parameters or left out; a time is a number of ticks, of which a second has `ticks`.
pub mod Project
pub mod Log
mod Tests
use mathlib.Core.Option
use flowz.Prelude.{
  first_bytes, ℕ, zero, suc, ◌+◌, ◌-◌, ◌*◌, ◌/◌, ◌%◌, ◌^◌, Str, lit, ◌==◌, Bool, true, false, not,
  ◌&&◌, all, ltb, eqb, if◌then◌else◌, length, find, take, List, [], ◌∷◌, ◌++◌, map, Option, none,
  some, is_empty,
}
use flowz.Model.{Run, RunStatus, StepStatus, Repo, StepRecord}
use flowz.Agent.Events.{decimal}
use flowz.Agent.Resolver.{get}
use flowz.Secrets.{less}
use flowz.Store.Sql.{Engine}
use flowz.Store.Tables.{Db}
use flowz.Store.Runs.{get_run, list_projects, list_project_branches, list_project_runs}
use flowz.Store.Steps.{list_steps}
use flowz.Store.Logs.{get_logs}
use flowz.Store.Repos.{list_repos}
use flowz.Server.Urls.{project_href, web_url}

-- `human_duration` and `human_ago`, of seconds.
abbrev pub human_duration : ℕ → Str
human_duration secs =
    if not (ltb secs 3600)
    then decimal (secs / 3600)
      ++ (lit "h "
          ++ (decimal (secs % 3600 / 60) ++ (lit "m " ++ (decimal (secs % 60) ++ lit "s"))))
    else if not (ltb secs 60)
    then decimal (secs / 60) ++ (lit "m " ++ (decimal (secs % 60) ++ lit "s"))
    else decimal secs ++ lit "s"

abbrev pub human_ago : ℕ → Str
human_ago secs =
    if ltb secs 60
    then lit "just now"
    else if ltb secs 3600
    then decimal (secs / 60) ++ lit " min ago"
    else if ltb secs 86400
    then decimal (secs / 3600) ++ lit " h ago"
    else decimal (secs / 86400) ++ lit " d ago"

-- `RunRow` of src/server/mod.rs; the short texts are `none` where making the row panics.
pub record RunView : Type 0 where
  pub id : Str
  pub id_short : Option Str
  pub repo : Str
  pub branch : Str
  pub commit_short : Option Str
  pub status : Str
  pub created_at : Str
  pub ago : Str
  pub duration : Str
  pub project_href : Str

abbrev pub run_status_str : RunStatus → Str
run_status_str RunStatus.queued = lit "queued"
run_status_str RunStatus.running = lit "running"
run_status_str RunStatus.success = lit "success"
run_status_str RunStatus.failure = lit "failure"
run_status_str RunStatus.cancelled = lit "cancelled"

abbrev pub has_ended : RunStatus → Bool
has_ended RunStatus.queued = false
has_ended RunStatus.running = false
has_ended RunStatus.success = true
has_ended RunStatus.failure = true
has_ended RunStatus.cancelled = true

-- What the pages take from elsewhere: `urlencoding::encode`, the ticks of a second, the time, and the
-- text of a time.
pub record Display : Type 0 where
  pub encode : Str → Str
  pub ticks : ℕ
  pub now : ℕ
  pub format : ℕ → Str

-- `impl From<&Run> for RunRow`
abbrev pub run_view : Display → Run → RunView
run_view d r = record {
  id = r.id;
  id_short = first_bytes 8 r.id;
  repo = r.repo;
  branch = r.branch;
  commit_short = first_bytes 7 r.commit;
  status = run_status_str r.status;
  created_at = d.format r.created_at;
  ago = human_ago ((d.now - r.created_at) / d.ticks);
  duration =
      if has_ended r.status then human_duration ((r.updated_at - r.created_at) / d.ticks) else [];
  project_href = project_href d.encode r.repo none 1;
}

-- Whether making the row does not panic.
abbrev pub is_cut : Option Str → Bool
is_cut none = false
is_cut (some s) = true

abbrev pub is_made : RunView → Bool
is_made v = is_cut v.id_short && is_cut v.commit_short

pub record ProjectRow : Type 0 where
  pub repo : Str
  pub href : Str
  pub last : Option RunView
  pub runs : ℕ
  pub clone_url : Str
  pub build_branch : Str

-- The last of some repositories, put before the others.
abbrev pub last_first : List Repo → List Repo
last_first [] = []
last_first (r ∷ repos) = place r (last_first repos)
  where
    place : Repo → List Repo → List Repo
    place r [] = r ∷ []
    place r (last ∷ rest) = last ∷ r ∷ rest

-- `position` and `swap_remove`: the first repository of a name, and the others, of which the last takes
-- its place.
abbrev pub swap_remove : Str → List Repo → Option (Repo × List Repo)
swap_remove name [] = none
swap_remove name (r ∷ repos) =
    let later = swap_remove name repos in
    if r.name == name then some (r, last_first repos) else keep_front r later
  where
    keep_front : Repo → Option (Repo × List Repo) → Option (Repo × List Repo)
    keep_front r none = none
    keep_front r (some (found, rest)) = some (found, r ∷ rest)

-- `repos.sort_by(|a, b| a.name.cmp(&b.name))`
abbrev pub insert_repo : Repo → List Repo → List Repo
insert_repo r [] = r ∷ []
insert_repo r (s ∷ repos) =
    let later = insert_repo r repos in if less s.name r.name then s ∷ later else r ∷ s ∷ repos

abbrev pub sort_repos : List Repo → List Repo
sort_repos [] = []
sort_repos (r ∷ repos) = insert_repo r (sort_repos repos)

abbrev pub built_row : Display → Run × ℕ → Str × Str → ProjectRow
built_row d (run, runs) (clone_url, build_branch) = record {
  repo = run.repo;
  href = project_href d.encode run.repo none 1;
  last = some (run_view d run);
  runs = runs;
  clone_url = clone_url;
  build_branch = build_branch;
}

abbrev pub unbuilt_row : Display → Repo → ProjectRow
unbuilt_row d r = record {
  repo = r.name;
  href = project_href d.encode r.name none 1;
  last = none;
  runs = 0;
  clone_url = r.clone_url;
  build_branch = r.branch;
}

abbrev pub add_row :
    Display
    → Run × ℕ
    → List Repo
    → (List Repo → List ProjectRow)
    → Option (Repo × List Repo)
    → List ProjectRow
add_row d (run, runs) repos rest none =
    built_row d (run, runs) (run.clone_url, run.branch) ∷ rest repos
add_row d (run, runs) repos rest (some (r, others)) =
    built_row d (run, runs) (r.clone_url, r.branch) ∷ rest others

-- The rows of `ui_projects`: the projects that were built, with the settings of the repository where it is
-- registered, and then the registered ones that are left.
abbrev pub project_rows : Display → List (Run × ℕ) → List Repo → List ProjectRow
project_rows d [] repos = map (unbuilt_row d) (sort_repos repos)
project_rows d ((run, runs) ∷ projects) repos =
    add_row d (run, runs) repos (project_rows d projects) (swap_remove run.repo repos)

-- No page where making a row panics.
abbrev pub last_made : Option RunView → Bool
last_made none = true
last_made (some v) = is_made v

abbrev pub ui_projects : Engine → Display → Db → Option (List ProjectRow)
ui_projects engine d db =
    let rows = project_rows d (list_projects engine db) (list_repos engine db) in
    if all (λ (r : ProjectRow). last_made r.last) rows then some rows else none
