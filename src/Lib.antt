-- ===== src/Lib.antt =====
-- The domain logic of an ERP back end: production orders, documents with money and tax, stock and
-- its costing and counting, approvals, the general ledger with its reports and its fiscal years, sales
-- orders, receivables and payables.
--
-- The parts. Each module of the program has a domain layer of pure classes and functions, which its
-- application layer loads from a database, calls and stores. The domain layers of the
-- modules below are modelled, with the use cases that join several of them.
-- - ProductionOrder (src/modules/production-order/domain): Quantity, Money, Policies, Bom and Status
--   are the value objects, policies and tables of the files of the same names. Order.State is the
--   aggregate `ProductionOrder` with its errors and events, Order.Methods its methods (draft, submit,
--   recall, approve, release, reportProgress, cancel). A method takes the order and returns the
--   order afterwards, with the value or the error thrown, so what is written before a throw stays.
--   Order.Commands lists the calls, and Order.History runs sequences of them.
-- - Shared (src/shared/domain): Money and Line are money.ts and document-line.ts, on which the
--   documents of sales and purchase stand, and IsoDate is isIsoDate of iso-date.ts.
-- - Inventory (src/modules/inventory/domain): Movement, Balance and Costing are the files of the same
--   names. `applyMovement` changes a balance, `allocateFefo` picks stock from sorted candidates,
--   `consumeFifo` draws on cost layers, and the moving average uses `roundDiv` of Shared.Money.
--   Count is physical-count.ts, whose calls are the relation of CountHistory, with the movement that
--   postAdjustments of application/physical-count.use-cases.ts asks for a line.
-- - Approval (src/modules/approval/domain): Policy and Request are approval-policy.ts and
--   approval-request.ts. The applicable steps of a policy become the steps of a request.
-- - Ledger (src/modules/finance/ledger/domain): Lines and Journal are journal-entry.ts, Posting is
--   posting-rules.ts with the keys of account-mapping.ts, and Compact is compactKeyedLines and
--   resolveKeyedLines of that file. The calls on an entry are the relation of Lifecycle. Accepted puts
--   the parts together, from what a sub-ledger posts to the check of an entry. Reports is
--   reports.ts: Reports.Trial, Reports.Statements and Reports.Closing are `buildTrialBalance`,
--   `buildProfitAndLoss` with `buildBalanceSheet`, and `buildClosingLines`, which read the sums by
--   account through the map of `index`; the lines of a close go to the check of Ledger.Lines.
--   AccountSums, Balanced, BalancedSheet and Closable are about that map and what stands on it.
-- - FiscalYear: Year is src/modules/master-data/finance/domain/fiscal-year.ts, and Close the last steps
--   of `CloseFiscalYearUseCase.execute` (src/modules/finance/ledger/application/period.use-cases.ts), in
--   which the open periods are locked and the year is closed. History lists the calls on a year.
-- - Sales (src/modules/sales/sales-order/domain/sales-order.ts): Order.State is the record with its
--   statuses and errors, Order.Methods and Order.Delivery are the methods of `SalesOrder`, which build
--   their lines by Shared.Line. The calls on an order are the relation of Order.Lifecycle.
--   DeliveryNote is domain/delivery-note.ts beside it, and Shipping the use case in which a note is
--   shipped and posted to its order (application/delivery-note.use-cases.ts).
-- - Receivable (src/modules/finance/receivable): Invoice.State and Invoice.Methods are
--   domain/sales-invoice.ts, whose calls are the relation of Invoice.Lifecycle, Receipt is
--   domain/receipt.ts, AutoMatch is domain/auto-match.ts, and Posting is the posting and the voiding
--   of a receipt in application/receipt.use-cases.ts over a map of the stored invoices, where an error
--   rolls the transaction back. What a repository saves has the next version.
-- - Payable (src/modules/finance/payable): Match is domain/three-way-match.ts, and Invoice
--   domain/vendor-invoice.ts, whose calls are the relation of Lifecycle. Voucher and Batch are
--   domain/payment.ts, Wht is what is withheld of a payment (`computeWhtMinor`, `proratedBase`,
--   `whtBases`, `whtLinesFor`), Certificate is `buildCertificateLines` of domain/wht-certificate.ts.
--   Paying is the allocation, the posting and the voiding of vouchers, and the posting of a batch, in
--   application/payment.use-cases.ts, over a map of the stored invoices as in Receivable. What the
--   gate of the posting period answers is a Boolean argument. The ledger, the events, the numbers of
--   documents and the mark of a certificate as void are left out.
-- - Prelude: results of calls that may throw, signed integers with their laws, lists, texts, and maps
--   with text keys in the order of insertion.
--
-- How values are modelled. A bigint is a signed integer of Prelude.Int without bound, and division
-- truncates towards zero. A number of type `number` that has to be an integer is Prelude.Text.Number.
-- A Date is its number of milliseconds, an id is a text, null and undefined are `none`. The length of
-- a text counts UTF-16 units. `toUpperCase` and `localeCompare` depend on the Unicode tables of the
-- runtime and are a parameter, the record Prelude.Text.Unicode, and so is the arithmetic of `Date`,
-- the records Calendar of Receivable.Invoice.State and of Payable.Invoice and the record Months of
-- FiscalYear.Year. Errors keep what they say about the case and drop the message.
--
-- Loops are structural recursions over the lists that they walk, so no fuel is needed. Where a loop
-- breaks early, the recursion stops there.
--
-- Not modelled: the branded constructors of ids, JSON and database forms, the rest of the application
-- layers, controllers and repositories, lots, serial numbers and transfers of stock, quotations, and
-- the domains of tax, purchase, master data other than fiscal years, and notification.
pub mod Prelude
pub mod ProductionOrder
pub mod Shared
pub mod Inventory
pub mod Approval
pub mod Ledger
pub mod Sales
pub mod Receivable
pub mod Payable
pub mod FiscalYear
