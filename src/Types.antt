-- ===== src/Types.antt =====
-- src/resource_types: a row of Resource Graph becomes a `Resource`, and each type says which of its
-- resources a run leaves out.
pub mod Row
pub mod Compute
pub mod Sql
pub mod Data
pub mod Capacity
pub mod Subnets
pub mod Gateway
pub mod States
pub mod Registry
pub mod Addresses
