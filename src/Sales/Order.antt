-- ===== src/Sales/Order.antt =====
-- sales-order.ts: its state, its methods, and what holds of them.
pub mod State
pub mod Methods
pub mod Delivery
pub mod Posted
pub mod Invariant
pub mod Created
pub mod Lifecycle
pub mod History
pub mod Credit
