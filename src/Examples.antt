-- ===== src/Examples.antt =====
-- Tests, and each theorem at a concrete input.
pub mod Fixtures
pub mod Gate
pub mod Writer
pub mod Columns
pub mod Orchestration
pub mod Migrations
pub mod Sessions
pub mod Audit
