-- ===== src/Orchestration/ModelAudit.antt =====
-- The model audit: backend/src/orchestration/modelAudit.ts.
pub mod Response
pub mod Prompt
pub mod Run
