-- ===== src/Inventory.antt =====
-- Stock balances, allocation, costing and physical counts (src/modules/inventory/domain).
pub mod Movement
pub mod Balance
pub mod BalanceLaws
pub mod Fefo
pub mod Costing
pub mod Fifo
pub mod Average
pub mod Count
pub mod CountHistory
pub mod CountAdjusted
mod CountTests
mod Tests
