-- ===== src/Recommend.antt =====
-- src/recommend: the downsizing rules.
pub mod Ladder
pub mod Family
pub mod Sql
pub mod Units
pub mod Account
pub mod Redis
pub mod Targets
pub mod UnitTargets
pub mod Nodes
pub mod Plans
pub mod Prices
pub mod PlanTargets
pub mod NodeTargets
