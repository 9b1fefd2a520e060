-- ===== src/Engine.antt =====
-- buffdata/engine.
pub mod Validator
pub mod Pipeline
pub mod Limiter
