-- ===== src/Workspace.antt =====
-- src/agent/workspace.rs: the workspace of a run. Machine has the commands, Prepare what is done before a
-- run and Finish what is done after it.
mod Tests
pub mod Machine
pub mod Prepare
pub mod Finish
pub mod Datasets
pub mod Names
pub mod Caches
pub mod Discarded
