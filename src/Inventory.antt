-- ===== src/Inventory.antt =====
-- src/inventory: the pages of Resource Graph and the filters behind them.
pub mod Filters
pub mod Graph
