-- ===== src/Comms/CommsLogWriter.antt =====
-- backend/src/comms/commsLogWriter.
pub mod Record
pub mod Table
pub mod Store
