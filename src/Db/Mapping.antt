-- ===== src/Db/Mapping.antt =====
-- The row and domain mappers of backend/src/db/mapping.
pub mod CommsLog
pub mod IdempotencyKeys
pub mod ThreadMappings
pub mod PollingState
pub mod Contacts
pub mod RoundTrip
