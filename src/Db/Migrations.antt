-- ===== src/Db/Migrations.antt =====
-- The migration runner: backend/src/db/migrationRunner.ts.
pub mod Names
pub mod Split
pub mod Load
pub mod Connection
pub mod Run
