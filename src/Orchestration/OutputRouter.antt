-- ===== src/Orchestration/OutputRouter.antt =====
-- backend/src/orchestration/outputRouter.ts.
pub mod Segments
pub mod Route
pub mod Push
pub mod Entry
pub mod Delivery
