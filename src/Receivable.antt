-- ===== src/Receivable.antt =====
-- src/modules/finance/receivable: the invoices of customers and the receipts that settle them.
pub mod Invoice
pub mod Receipt
pub mod Posting
pub mod RoundTrip
pub mod AutoMatch
pub mod Proposal
pub mod Proposed
pub mod Tests
