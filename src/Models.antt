-- ===== src/Models.antt =====
-- buffdata/models: the records of a dataset.
pub mod Item
pub mod Edit
pub mod Codec
