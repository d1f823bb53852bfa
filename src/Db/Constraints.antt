-- ===== src/Db/Constraints.antt =====
-- The constraints that the data layer enforces: backend/src/db/mapping/dalConstraints.ts.
pub mod Dedup
pub mod Expiry
pub mod Device
pub mod Identifiers
