-- ===== src/Agent/Events.antt =====
-- src/agent/mod.rs: what the agent sends and does, in order. All requests name the same run.
pub mod Kept
pub mod Status
use flowz.Prelude.{
  ℕ, zero, suc, ◌+◌, ◌/◌, ◌%◌, Str, lit, Bool, true, false, ltb, if◌then◌else◌, List, [], ◌∷◌, ◌++◌,
  Option, none, some,
}
use flowz.Model.{RunStatus, StepStatus}
use flowz.Executor.{HostEvent}

pub data Event : Type 0 where
  -- `workspace::prepare`, `attach_caches` and `finish`
  prepare attach_caches : Event
  finish : Bool → Event
  -- `provider.fetch`, with the configuration
  fetch : Str → Event
  -- `post_logs`, with the step and the lines
  post_logs : Str → List Str → Event
  -- the post of a status: that of the run in its body, and the step with its status where there is one
  post_body : RunStatus → Option (Str × StepStatus) → Event
  -- `post_commit_status`, with the token and whether the run succeeded
  post_commit_status : Str → Bool → Event
  -- what a step does on the host
  host : Str → HostEvent → Event
  -- the upload of a file, by its path in the workspace
  upload : Str → Str → Event

-- `post_step_status`, whose body also has the run's status, and `post_run_status`.
abbrev pub post_step_status : Str → StepStatus → Event
post_step_status step status = post_body RunStatus.running (some (step, status))

abbrev pub post_run_status : RunStatus → Event
post_run_status status = post_body status none

-- The `Display` of a number.
abbrev digits : ℕ → ℕ → Str
digits zero n = []
digits (suc fuel) n =
    if ltb n 10 then (b'0' + n) ∷ [] else digits fuel (n / 10) ++ (b'0' + n % 10) ∷ []

abbrev pub decimal : ℕ → Str
decimal n = digits (suc n) n
