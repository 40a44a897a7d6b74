-- ===== src/Server/Pages/Project.antt =====
-- src/server/mod.rs: the page of a project. A page is an `i64`; its numbers are those of 64 bits.
pub mod Turning
use flowz.Prelude.{
  ℕ, suc, ◌+◌, ◌-◌, ◌*◌, ◌%◌, ◌^◌, Str, lit, ◌==◌, Bool, true, false, not, ltb, eqb, if◌then◌else◌,
  is_empty, all, length, find, take, List, [], ◌∷◌, map, Option, none, some,
}
use mathlib.Core.Option
use flowz.Model.{Run, Repo}
use flowz.Store.Sql.{Engine}
use flowz.Store.Tables.{Db}
use flowz.Store.Runs.{list_project_branches, list_project_runs}
use flowz.Store.Repos.{list_repos}
use flowz.Server.Jobs.{unwrap_or}
use flowz.Server.Urls.{project_href, web_url}
use flowz.Server.Pages.{RunView, Display, run_view, is_made}

-- `negsuc n` is -(n + 1).
pub data ℤ : Type 0 where
  pos : ℕ → ℤ
  negsuc : ℕ → ℤ

-- `page.unwrap_or(1).max(1)`
abbrev pub page_number : Option ℤ → ℕ
page_number none = 1
page_number (some (pos n)) = if ltb n 1 then 1 else n
page_number (some (negsuc n)) = 1

abbrev pub page_size : ℕ
page_size = 50

-- The offset of a page as the database takes it: the product wraps around, and a negative offset
-- counts as none.
abbrev pub i64_offset : ℕ → ℕ
i64_offset product = let w = product % 2 ^ 64 in if ltb w (2 ^ 63) then w else 0

pub record BranchLink : Type 0 where
  pub name : Str
  pub href : Str
  pub active : Bool

pub record ProjectPage : Type 0 where
  pub web_url : Str
  pub build_branch : Str
  pub clone_url : Str
  pub repo_id : Str
  pub all_href : Str
  pub all_active : Bool
  pub branches : List BranchLink
  pub runs : List RunView
  pub page : ℕ
  pub prev_href : Str
  pub next_href : Str
  pub repo : Str

pub data Answer : Type 0 where
  not_found panicked : Answer
  shown : ProjectPage → Answer

abbrev pub not_blank : Option Str → Option Str
not_blank none = none
not_blank (some []) = none
not_blank (some (c ∷ s)) = some (c ∷ s)

abbrev pub is_branch : Option Str → Str → Bool
is_branch none name = false
is_branch (some b) name = b == name

abbrev pub repo_id_of : Option Repo → Str
repo_id_of none = []
repo_id_of (some r) = r.id

-- The address and the branch of the latest run, empty texts where there is none.
abbrev pub of_latest : List Run → Str × Str
of_latest [] = ([], [])
of_latest (r ∷ rs) = (r.clone_url, r.branch)

-- No page where making the row of a run panics.
abbrev pub answer_page : ProjectPage → Answer
answer_page p = if all is_made p.runs then shown p else panicked

module _ (engine : Engine) (d : Display) (db : Db) (repo : Str) where
  abbrev pub settings : Option Repo → Str × Str
  settings none = of_latest (list_project_runs engine db repo none 1 0)
  settings (some r) = (r.clone_url, r.branch)

  abbrev pub link : Option Str → Str → BranchLink
  link branch name = record {
    name = name;
    href = project_href d.encode repo (some name) 1;
    active = is_branch branch name;
  }

  -- The page, from the rows that were read: one more than is shown. The number of the next page wraps
  -- around too; a link with a number below 2 names no page.
  abbrev pub project_page :
      Option Str → ℕ → Option Repo → List Str → Str × Str → List Run → ProjectPage
  project_page branch page configured branches (clone_url, default_branch) runs = record {
    web_url = unwrap_or (web_url clone_url) [];
    build_branch = unwrap_or branch default_branch;
    clone_url = clone_url;
    repo_id = repo_id_of configured;
    all_href = project_href d.encode repo none 1;
    all_active = not_active branch;
    branches = map (link branch) branches;
    runs = map (run_view d) (take page_size runs);
    page = page;
    prev_href = if ltb 1 page then project_href d.encode repo branch (page - 1) else [];
    next_href =
        if ltb page_size (length runs)
        then project_href d.encode repo branch ((page + 1) % 2 ^ 63)
        else [];
    repo = repo;
  }
    where
      not_active : Option Str → Bool
      not_active none = true
      not_active (some b) = false

  abbrev pub with_branches : Option Str → ℕ → Option Repo → List Str → Answer
  with_branches branch page none [] = not_found
  with_branches branch page configured branches = answer_page (
      project_page branch page configured branches (settings configured) (
        list_project_runs engine db repo branch (suc page_size)
          (i64_offset ((page - 1) * page_size))))

  -- `ui_project`
  unfoldable pub ui_project : Option Str → Option ℤ → Answer
  ui_project branch page =
      with_branches (not_blank branch) (page_number page)
        (find (λ (r : Repo). r.name == repo) (list_repos engine db))
        (list_project_branches engine db repo)
