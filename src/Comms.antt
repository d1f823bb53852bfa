-- ===== src/Comms.antt =====
-- The communications layer: backend/src/comms.
pub mod Effects
pub mod ContentHash
pub mod Idempotency
pub mod CommsLogWriter
