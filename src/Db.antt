-- ===== src/Db.antt =====
-- The data layer: backend/src/db.
pub mod Vocabulary
pub mod Serializers
pub mod Constraints
pub mod Mapping
pub mod Migrations
