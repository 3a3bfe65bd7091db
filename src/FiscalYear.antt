-- ===== src/FiscalYear.antt =====
-- The fiscal years of a company (src/modules/master-data/finance/domain/fiscal-year.ts) and their
-- close (src/modules/finance/ledger/application/period.use-cases.ts).
pub mod Year
pub mod Close
pub mod Periods
pub mod History
mod Tests
