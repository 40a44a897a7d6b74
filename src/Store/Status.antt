-- ===== src/Store/Status.antt =====
-- The texts that stand for statuses in the database and in the messages of the agent.
use flowz.Prelude.{Str, lit, ◌==◌, if◌then◌else◌, ◌≡◌, refl}
use flowz.Model.{RunStatus, StepStatus}

-- `RunStatus::as_str`
unfoldable pub run_as_str : RunStatus → Str
run_as_str RunStatus.queued = lit "queued"
run_as_str RunStatus.running = lit "running"
run_as_str RunStatus.success = lit "success"
run_as_str RunStatus.failure = lit "failure"
run_as_str RunStatus.cancelled = lit "cancelled"

-- `RunStatus::from_str`
unfoldable pub run_from_str : Str → RunStatus
unfolding ◌==◌
run_from_str s =
    if s == lit "running"
    then RunStatus.running
    else if s == lit "success"
    then RunStatus.success
    else if s == lit "failure"
    then RunStatus.failure
    else if s == lit "cancelled"
    then RunStatus.cancelled
    else RunStatus.queued

-- `StepStatus::as_str`
unfoldable pub step_as_str : StepStatus → Str
step_as_str StepStatus.pending = lit "pending"
step_as_str StepStatus.running = lit "running"
step_as_str StepStatus.success = lit "success"
step_as_str StepStatus.failure = lit "failure"
step_as_str StepStatus.skipped = lit "skipped"

-- `StepStatus::from_str`
unfoldable pub step_from_str : Str → StepStatus
unfolding ◌==◌
step_from_str s =
    if s == lit "running"
    then StepStatus.running
    else if s == lit "success"
    then StepStatus.success
    else if s == lit "failure"
    then StepStatus.failure
    else if s == lit "skipped"
    then StepStatus.skipped
    else StepStatus.pending

run_round_trip : (r : RunStatus) → run_from_str (run_as_str r) ≡ r
unfolding run_as_str run_from_str
run_round_trip RunStatus.queued = refl
run_round_trip RunStatus.running = refl
run_round_trip RunStatus.success = refl
run_round_trip RunStatus.failure = refl
run_round_trip RunStatus.cancelled = refl

step_round_trip : (s : StepStatus) → step_from_str (step_as_str s) ≡ s
unfolding step_as_str step_from_str
step_round_trip StepStatus.pending = refl
step_round_trip StepStatus.running = refl
step_round_trip StepStatus.success = refl
step_round_trip StepStatus.failure = refl
step_round_trip StepStatus.skipped = refl

-- A status that was written to the database, of a run or of a step, is read back as it was.
pub status_round_trip :
    ((r : RunStatus) → run_from_str (run_as_str r) ≡ r)
    × ((s : StepStatus) → step_from_str (step_as_str s) ≡ s)
status_round_trip = (run_round_trip, step_round_trip)
