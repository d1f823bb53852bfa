-- ===== src/Orchestration.antt =====
-- The orchestration layer: backend/src/orchestration.
pub mod Narrowing
pub mod EventClassifier
pub mod OutputRouter
pub mod ApprovalGate
pub mod Session
pub mod Formatters
pub mod ModelAudit
pub mod PoSequence
