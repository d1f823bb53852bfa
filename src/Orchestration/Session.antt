-- ===== src/Orchestration/Session.antt =====
-- The session log and its cache: backend/src/orchestration/sessionPersistence.ts.
pub mod State
pub mod Cache
pub mod Store
pub mod Log
pub mod Replay
pub mod Purge
pub mod Open
