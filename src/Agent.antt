-- ===== src/Agent.antt =====
-- src/agent/mod.rs: how the agent executes a run. Events are the model's own form, `Resolver` and
-- `Env` the secrets and the environment of a step, `Steps` the loop, and `Run` the whole of it.
mod Tests
pub mod Events
pub mod Resolver
pub mod Env
pub mod Steps
pub mod Run
