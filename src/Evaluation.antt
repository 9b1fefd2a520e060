-- ===== src/Evaluation.antt =====
-- buffdata/evaluation: the gate that measures whether a candidate dataset trains a better classifier.
pub mod AccuracyGate
