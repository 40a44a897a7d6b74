-- ===== src/Server/Pages/Log.antt =====
-- src/server/mod.rs: the page of a run, with the lines of its log in groups. The text of a size is a
-- parameter; the page is made of what the queries return.
pub mod Groups
use mathlib.Core.Option
use flowz.Prelude.{
  ℕ, Str, lit, ◌==◌, Bool, true, false, if◌then◌else◌, List, [], ◌∷◌, ◌++◌, map, Option, none, some,
}
use flowz.Model.{Run, Artifact, StepRecord, StepStatus}
use flowz.Store.Sql.{Engine}
use flowz.Store.Tables.{Db}
use flowz.Store.Runs.{get_run}
use flowz.Store.Steps.{list_steps}
use flowz.Store.Logs.{get_logs}
use flowz.Store.Artifacts.{list_artifacts}
use flowz.Server.Jobs.{unwrap_or}
use flowz.Server.Pages.{RunView, Display, run_view, is_made}

abbrev pub step_status_str : StepStatus → Str
step_status_str StepStatus.pending = lit "pending"
step_status_str StepStatus.running = lit "running"
step_status_str StepStatus.success = lit "success"
step_status_str StepStatus.failure = lit "failure"
step_status_str StepStatus.skipped = lit "skipped"

pub record StepView : Type 0 where
  pub name : Str
  pub status : Str
  pub started_at : Str
  pub finished_at : Str

-- `impl From<&StepRecord> for StepRow`; `format_clock` is the text of a time.
abbrev pub step_view : (ℕ → Str) → StepRecord → StepView
step_view format_clock s = record {
  name = s.name;
  status = step_status_str s.status;
  started_at = unwrap_or (Option.map format_clock s.started_at) [];
  finished_at = unwrap_or (Option.map format_clock s.finished_at) [];
}

pub record LogGroup : Type 0 where
  pub step : Str
  pub status : Str
  pub lines : List Str

abbrev pub step_status_of : Option Str → StepRecord → Str → Option Str
step_status_of (some status) s name = some status
step_status_of none s name = if s.name == name then some (step_status_str s.status) else none

-- `step_status_map`, where a later step replaces an earlier one of the same name.
abbrev pub status_map : List StepRecord → Str → Option Str
status_map [] name = none
status_map (s ∷ steps) name = step_status_of (status_map steps name) s name

abbrev pub new_group : List StepRecord → Str → Str → LogGroup
new_group steps step line = record {
  step = step;
  status = unwrap_or (status_map steps step) [];
  lines = line ∷ [];
}

abbrev pub push_line : LogGroup → Str → LogGroup
push_line g line = record g { lines = g.lines ++ line ∷ [] }

-- One round of the loop: the line goes to the last group, or begins another.
abbrev pub add_line : List StepRecord → List LogGroup → Str × Str → List LogGroup
add_line steps [] (step, line) = new_group steps step line ∷ []
add_line steps (g ∷ []) (step, line) =
    if g.step == step then push_line g line ∷ [] else g ∷ new_group steps step line ∷ []
add_line steps (g ∷ h ∷ groups) entry = g ∷ add_line steps (h ∷ groups) entry

unfoldable pub log_groups : List StepRecord → List LogGroup → List (Str × Str) → List LogGroup
log_groups steps groups [] = groups
log_groups steps groups (entry ∷ entries) = log_groups steps (add_line steps groups entry) entries

pub record ArtifactView : Type 0 where
  pub step : Str
  pub path : Str
  pub size_human : Str
  pub href : Str

abbrev pub artifact_view : (ℕ → Str) → Str → Artifact → ArtifactView
artifact_view human_size run_id a = record {
  step = a.step;
  path = a.path;
  size_human = human_size a.size;
  href = lit "/api/runs/" ++ (run_id ++ (lit "/artifacts/" ++ (a.step ++ b'/' ∷ a.path)));
}

pub record RunPage : Type 0 where
  pub run : RunView
  pub steps : List StepView
  pub log_groups : List LogGroup
  pub artifacts : List ArtifactView

-- There is no run, or making its row panics, or there is a page.
pub data Answer : Type 0 where
  not_found panicked : Answer
  shown : RunPage → Answer

abbrev pub answer_page : RunPage → Answer
answer_page p = if is_made p.run then shown p else panicked

module _ (engine : Engine) (d : Display) (format_clock human_size : ℕ → Str) (db : Db)
    (run_id : Str) where
  abbrev pub run_page : Run → RunPage
  run_page run = record {
    run = run_view d run;
    steps = map (step_view format_clock) (list_steps db run_id);
    log_groups = log_groups (list_steps db run_id) [] (get_logs db run_id);
    artifacts = map (artifact_view human_size run_id) (list_artifacts engine db run_id);
  }

  abbrev pub answer_run : Option Run → Answer
  answer_run none = not_found
  answer_run (some run) = answer_page (run_page run)

  -- `ui_run`
  unfoldable pub ui_run : Answer
  ui_run = answer_run (get_run db run_id)
