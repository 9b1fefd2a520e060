-- ===== src/Runs.antt =====
-- buffdata/runs: managed runs, their specification and the store of their history.
pub mod Models
pub mod Tables
pub mod Store
pub mod Lifecycle
pub mod Sessions
pub mod Service
pub mod Runner
