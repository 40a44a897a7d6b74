-- ===== src/Store.antt =====
-- src/store/mod.rs: the tables of migrations/, and each query as a function of them.
mod Tests
pub mod Status
pub mod Sql
pub mod Tables
pub mod Runs
pub mod Steps
pub mod Logs
pub mod Repos
pub mod Artifacts
pub mod Claims
pub mod Table
