-- ===== src/Optimizers.antt =====
-- buffdata/optimizers: the steps of the pipeline that need no model provider.
pub mod Dedup
pub mod GatedGenerator
