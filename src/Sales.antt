-- ===== src/Sales.antt =====
-- src/modules/sales: the sales order and its delivery notes.
pub mod Order
pub mod DeliveryNote
pub mod Shipping
pub mod Tests
