-- ===== src/Ledger.antt =====
-- The general ledger: journal entries, posting rules and reports (src/modules/finance/ledger/domain).
pub mod Lines
pub mod Journal
pub mod Posting
pub mod Compact
pub mod CompactLaws
pub mod Accepted
pub mod Reversal
pub mod Lifecycle
pub mod Reports
mod Tests
