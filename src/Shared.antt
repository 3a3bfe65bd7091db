-- ===== src/Shared.antt =====
-- The value objects that the priced documents share (src/shared/domain).
pub mod Money
pub mod Rounding
pub mod Line
pub mod LineAmounts
pub mod Totals
pub mod Built
pub mod Settled
mod Tests
pub mod IsoDate
