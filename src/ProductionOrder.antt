-- ===== src/ProductionOrder.antt =====
-- The production-order aggregate and its value objects (src/modules/production-order/domain).
pub mod Quantity
pub mod Money
pub mod Policies
pub mod Bom
pub mod BomBounds
pub mod Status
pub mod Order
mod Tests
