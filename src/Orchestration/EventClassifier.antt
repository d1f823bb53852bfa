-- ===== src/Orchestration/EventClassifier.antt =====
-- backend/src/orchestration/eventClassifier.ts, with the event types of
-- backend/src/orchestration/types.ts. `new Date()` is the argument `now`, in milliseconds since 1970.
pub mod Input
pub mod Classify
pub mod Accepts
