-- ===== src/Security.antt =====
-- buffdata/security: what crosses the boundaries of an execution.
pub mod Frames
pub mod Network
pub mod Paths
