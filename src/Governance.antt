-- ===== src/Governance.antt =====
-- buffdata/governance.
pub mod Access
pub mod Contract
pub mod AuditStore
