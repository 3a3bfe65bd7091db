-- ===== src/Payable.antt =====
-- src/modules/finance/payable: the invoices of vendors, their match, and the payments.
pub mod Match
pub mod Invoice
pub mod Settlement
pub mod Lifecycle
pub mod Wht
pub mod WhtBounds
pub mod Certificate
pub mod Voucher
pub mod Batch
pub mod Paying
pub mod Paid
pub mod Withheld
mod Tests
mod PayTests
