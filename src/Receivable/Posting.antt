-- ===== src/Receivable/Posting.antt =====
-- receipt.use-cases.ts: the posting and the voiding of a receipt, over the invoices that are stored.
-- Whether the period is open is what the gate answers. The events and the ledger are left out.
use nestjs_api_template.Prelude.Maps
use nestjs_api_template.Prelude.{
  Bool, List, Option, Result, String, [], err, false, map_err, none, not, ok, some, suc, throw_if,
  true, ℕ, ◌==◌, ◌>>=◌, ◌>>◌, ◌∷◌,
}
use nestjs_api_template.Prelude.Int.{ℤ}
use nestjs_api_template.Receivable.Invoice.Methods.{apply_settlement, reverse_settlement}
use nestjs_api_template.Receivable.Invoice.State.{InvoiceError, SalesInvoice}
use nestjs_api_template.Receivable.Receipt.{
  Allocation, Receipt, ReceiptError, ReceiptStatus, post_receipt, posted, void_receipt,
}

pub data ArError : Type 0 where
  invoice_failed : InvoiceError → ArError
  receipt_failed : ReceiptError → ArError
  invoice_not_found : String → ArError
  ar_version_conflict : String → ℕ → ℕ → ArError
  posting_period_closed : ArError

abbrev pub Invoices : Type 0
Invoices = List (String × SalesInvoice)

-- `assertVersion`
unfoldable pub assert_version : Receipt → Option ℕ → Result ArError (Unit {0})
assert_version r none = ok tt
assert_version r (some expected) =
    throw_if (not (expected == r.version)) (ar_version_conflict r.id expected r.version)

-- What `save` of the repositories stores and returns.
abbrev pub saved_invoice : SalesInvoice → SalesInvoice
saved_invoice s = record s { version = suc s.version }

abbrev pub saved_receipt : Receipt → Receipt
saved_receipt r = record r { version = suc r.version }

-- One round of the loops: an invoice is loaded, changed by the amount and saved.
unfoldable pub update_invoice :
    (SalesInvoice → ℤ → Result InvoiceError SalesInvoice)
    → Invoices
    → Allocation
    → Result ArError Invoices
update_invoice f invoices a = elim (Maps.get a.invoice_id invoices) [
  | none ↦ err (invoice_not_found a.invoice_id)
  | some inv ↦ map_err invoice_failed (f inv a.amount_minor) >>= λ t.
      ok (Maps.put a.invoice_id (saved_invoice t) invoices)
]

-- The loop over the allocations.
unfoldable pub update_invoices :
    (SalesInvoice → ℤ → Result InvoiceError SalesInvoice)
    → Invoices
    → List Allocation
    → Result ArError Invoices
update_invoices f invoices [] = ok invoices
update_invoices f invoices (a ∷ rest) =
    update_invoice f invoices a >>= λ next. update_invoices f next rest

-- `PostReceiptUseCase.execute`, of the receipt that was found.
unfoldable pub execute_post :
    Bool → Invoices → Receipt → Option ℕ → ℕ → Result ArError (Invoices × Receipt)
execute_post gate_open invoices r expected_version now = do
  assert_version r expected_version
  throw_if (not gate_open) posting_period_closed
  settled ← update_invoices (λ inv amount. apply_settlement inv amount now) invoices r.allocations
  done ← map_err receipt_failed (post_receipt r now)
  ok (settled, saved_receipt done)

abbrev pub is_posted : ReceiptStatus → Bool
is_posted posted = true
is_posted _ = false

-- What is done to the invoices if the receipt was posted.
unfoldable pub give_back : Bool → Bool → Invoices → Receipt → ℕ → Result ArError Invoices
give_back false gate_open invoices r now = ok invoices
give_back true gate_open invoices r now =
    throw_if (not gate_open) posting_period_closed
    >> update_invoices (λ inv amount. reverse_settlement inv amount now) invoices r.allocations

-- `VoidReceiptUseCase.execute`, of the receipt that was found.
unfoldable pub execute_void :
    Bool → Invoices → Receipt → Option ℕ → ℕ → Result ArError (Invoices × Receipt)
execute_void gate_open invoices r expected_version now = do
  assert_version r expected_version
  reversed ← give_back (is_posted r.status) gate_open invoices r now
  done ← map_err receipt_failed (void_receipt r now)
  ok (reversed, saved_receipt done)
