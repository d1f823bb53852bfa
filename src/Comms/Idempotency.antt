-- ===== src/Comms/Idempotency.antt =====
-- The idempotency gate: backend/src/comms/idempotencyChecker.
pub mod Plan
pub mod Keys
pub mod World
pub mod Gate
pub mod Link
pub mod Trace
