-- ===== src/Integrations.antt =====
-- buffdata/integrations: what hands a dataset to other executors.
pub mod Sharding
