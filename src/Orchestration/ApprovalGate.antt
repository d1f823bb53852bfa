-- ===== src/Orchestration/ApprovalGate.antt =====
-- backend/src/orchestration/approvalGate: the decision waiter of pure.ts, and the gate of index.ts.
pub mod Waiter
pub mod Decided
