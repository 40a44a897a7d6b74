-- ===== src/Server/Pages/Tests.antt =====
-- The theorems on the pages at a concrete database.
use flowz.Prelude.{
  ℕ, utf8_len, ltb, if◌then◌else◌, true, ◌*◌, ◌≤◌, ◌<◌, Str, lit, ◌==◌, is_empty, length, false,
  flat_map, take, [], ◌∷◌, map, none, All, ◌≡◌, ◌↔◌, refl, arith,
}
use flowz.Model.{running}
use flowz.Store.Status.{run_from_str}
use flowz.Store.Sql.Insertion.{insertion_sort}
use flowz.Store.Tables.{RunRow, Db, empty}
use flowz.Store.Runs.{get_run, list_project_branches, list_project_runs}
use flowz.Store.Repos.{list_repos}
use flowz.Store.Steps.{list_steps}
use flowz.Store.Logs.{get_logs}
use flowz.Server.Pages.{Display, is_made}
use flowz.Server.Pages.Project.{shown, page_size, ProjectPage, settings, project_page, ui_project}
use flowz.Server.Pages.Project.Turning.{
  runs_of, view, runs_on, prev_of, next_of, link_to, turn, pages, ui_project-pages,
}
use flowz.Server.Pages.Log.{RunPage, run_page, ui_run}
use flowz.Server.Pages.Log
use flowz.Server.Pages.Log.Groups.{entries_of, Alternates, IsGroup, ui_run-log_groups}

abbrev row : RunRow
row = record {
  id = lit "a";
  repo = lit "o/r";
  branch = lit "main";
  commit = lit "c";
  clone_url = lit "u";
  status = lit "running";
  created_at = 1;
  updated_at = 1;
}

-- One run, with a line of each of two steps.
abbrev db : Db
db = record empty {
  runs = row ∷ [];
  log_lines =
      record { id = 1; run_id = lit "a"; step = lit "s"; line = lit "x"; created_at = 2 }
      ∷ record { id = 2; run_id = lit "a"; step = lit "t"; line = lit "y"; created_at = 3 }
      ∷ [];
  last_log_id = 2;
}

abbrev display : Display
display = record { encode = λ s. s; ticks = 1; now = 5; format = λ t. lit "t" }

abbrev first_page : ProjectPage
first_page =
    project_page insertion_sort display db (lit "o/r") none 1 none (lit "main" ∷ [])
      (settings insertion_sort display db (lit "o/r") none)
      (list_project_runs insertion_sort db (lit "o/r") none 51 0)

known : ui_project insertion_sort display db (lit "o/r") none none ≡ shown first_page
unfolding ui_project list_repos list_project_branches list_project_runs ◌==◌ utf8_len
known = refl

made :
    All
      (λ row. is_made (view insertion_sort display db (lit "o/r") none row) ≡ true)
      (runs_of insertion_sort display db (lit "o/r") none)
unfolding ◌==◌ utf8_len
made = (refl, tt)

ui_project-pages_example :
    (pages insertion_sort display db (lit "o/r") none 1
      ≡ map
          (view insertion_sort display db (lit "o/r") none)
          (take (1 * page_size) (runs_of insertion_sort display db (lit "o/r") none)))
    × (length (runs_on (turn insertion_sort display db (lit "o/r") none 1)) ≤ page_size)
    × (prev_of (turn insertion_sort display db (lit "o/r") none 1)
        ≡ (if ltb 0 0 then link_to insertion_sort display db (lit "o/r") none 0 else []))
    × (next_of (turn insertion_sort display db (lit "o/r") none 1) ≡ (
        if ltb (1 * page_size) (length (runs_of insertion_sort display db (lit "o/r") none))
        then link_to insertion_sort display db (lit "o/r") none 2
        else []))
    × ((is_empty (next_of (turn insertion_sort display db (lit "o/r") none 1)) ≡ false)
        ↔ (1 * page_size < length (runs_of insertion_sort display db (lit "o/r") none)))
ui_project-pages_example =
    ui_project-pages insertion_sort display db (lit "o/r") none made 0 first_page (omega arith)
      known

abbrev texts : ℕ → Str
texts t = lit "t"

abbrev page : RunPage
page = run_page insertion_sort display texts texts db (lit "a") (record {
  id = lit "a";
  repo = lit "o/r";
  branch = lit "main";
  commit = lit "c";
  clone_url = lit "u";
  status = running;
  created_at = 1;
  updated_at = 1;
})

on_page : ui_run insertion_sort display texts texts db (lit "a") ≡ Log.shown page
unfolding utf8_len ui_run get_run ◌==◌ run_from_str
on_page = refl

ui_run-log_groups_example :
    (flat_map entries_of page.log_groups ≡ get_logs db (lit "a"))
    × Alternates page.log_groups
    × All (IsGroup (list_steps db (lit "a"))) page.log_groups
ui_run-log_groups_example =
    ui_run-log_groups insertion_sort display texts texts db (lit "a") page on_page
