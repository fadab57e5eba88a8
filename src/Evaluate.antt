-- ===== src/Evaluate.antt =====
-- src/evaluate: the percentile and the threshold rules of both run modes.
pub mod Percentile
pub mod Threshold
pub mod Hot
pub mod Cold
