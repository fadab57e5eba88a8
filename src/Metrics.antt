-- ===== src/Metrics.antt =====
-- src/metrics: the derivation of the evaluated series and the batch requests.
pub mod Derive
pub mod Batch
