-- ===== src/Store/Steps.antt =====
-- The queries on `steps`.
use flowz.Prelude.{
  ℕ, Str, ◌==◌, not, ◌&&◌, any, keep, if◌then◌else◌, List, [], ◌∷◌, ◌++◌, map, none, some, ok, err,
}
use flowz.Model.{StepRecord, StepStatus}
use flowz.Store.Status.{step_as_str}
use flowz.Store.Tables.{StepRow, Db, primary_key, foreign_key, Query, update, has_run, to_step}

-- `create_step`
unfoldable pub create_step : Db → StepRecord → Query Db
create_step db step =
    if any (λ (s : StepRow). s.run_id == step.run_id && s.name == step.name) db.steps
    then err primary_key
    else if not (has_run db step.run_id)
    then err foreign_key
    else ok (record db {
      steps =
          db.steps
          ++ record {
            run_id = step.run_id;
            name = step.name;
            status = step_as_str step.status;
            started_at = none;
            finished_at = none;
          }
            ∷ [];
    })

-- `list_steps`
unfoldable pub list_steps : Db → Str → List StepRecord
list_steps db run_id = map to_step (keep (λ (s : StepRow). s.run_id == run_id) db.steps)

-- What `update_step_status` writes into the row.
abbrev pub stamp : ℕ → StepStatus → StepRow → StepRow
stamp now StepStatus.running s = record s {
  status = step_as_str StepStatus.running;
  started_at = some now;
}
stamp now StepStatus.pending s = record s { status = step_as_str StepStatus.pending }
stamp now status s = record s { status = step_as_str status; finished_at = some now }

-- `update_step_status`
unfoldable pub update_step_status : ℕ → Db → Str → Str → StepStatus → Db
unfolding update
update_step_status now db run_id step status = record db {
  steps =
      update (λ (s : StepRow). s.run_id == run_id && s.name == step) (stamp now status) db.steps;
}
