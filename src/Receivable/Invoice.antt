-- ===== src/Receivable/Invoice.antt =====
-- sales-invoice.ts: its state, its methods, and what holds of them.
pub mod State
pub mod Methods
pub mod Settlement
pub mod Lifecycle
