-- ===== src/Payable/Paying.antt =====
-- payment.use-cases.ts: the allocations of a voucher, and the posting and the voiding of vouchers and
-- batches over the invoices that are stored. Whether the period is open is what the gate answers. The
-- ledger, the events and the numbers of documents are left out.
use nestjs_api_template.Prelude.Maps
use nestjs_api_template.Payable.Batch.{BatchError, PaymentBatch, post_batch}
use nestjs_api_template.Payable.Certificate.{Certificate, build_certificate_lines}
use nestjs_api_template.Payable.Invoice.{
  VendorInvoice, VendorInvoiceError, apply_settlement, is_open, reverse_settlement,
}
use nestjs_api_template.Payable.Voucher.{
  PaymentAllocation, PaymentVoucher, VoucherError, VoucherStatus, invalid_voucher, is_draft,
  post_voucher, void_voucher,
}
use nestjs_api_template.Payable.Wht.{WhtLineInput, wht_lines_for}
use nestjs_api_template.Prelude.{
  Bool, List, Option, Result, String, [], err, false, if◌then◌else◌, map_err, none, not, ok,
  or_else, some, suc, throw_if, true, ℕ, ◌++◌, ◌==◌, ◌>>=◌, ◌>>◌, ◌||◌, ◌∷◌,
}
use nestjs_api_template.Prelude.Int.{leb_ℤ, ltb_ℤ, pos, ℤ}
use nestjs_api_template.Prelude.Lists.{sum_by}
use nestjs_api_template.Prelude.Text.{is_empty, str_eq}
use nestjs_api_template.Shared.Money.{MoneyError}

pub data PayError : Type 0 where
  invoice_failed : VendorInvoiceError → PayError
  voucher_failed : VoucherError → PayError
  batch_failed : BatchError → PayError
  wht_failed : MoneyError → PayError
  vendor_invoice_not_found : String → PayError
  ap_version_conflict : String → ℕ → ℕ → PayError
  ap_posting_period_closed : PayError

abbrev pub Invoices : Type 0
Invoices = List (String × VendorInvoice)

-- What `save` of the repositories stores and returns.
abbrev pub saved_invoice : VendorInvoice → VendorInvoice
saved_invoice s = record s { version = suc s.version }

abbrev pub saved_voucher : PaymentVoucher → PaymentVoucher
saved_voucher v = record v { version = suc v.version }

abbrev pub saved_batch : PaymentBatch → PaymentBatch
saved_batch b = record b { version = suc b.version }

-- `assertVersion`
unfoldable pub assert_version : String → ℕ → Option ℕ → Result PayError (Unit {0})
assert_version id version none = ok tt
assert_version id version (some expected) =
    throw_if (not (expected == version)) (ap_version_conflict id expected version)

unfoldable pub find_invoice : String → Invoices → Result PayError VendorInvoice
find_invoice id invoices = elim (Maps.get id invoices) [
  | none ↦ err (vendor_invoice_not_found id)
  | some inv ↦ ok inv
]

-- What the caller asks to settle of an invoice: an amount, or all that is open.
pub record Pick : Type 0 where
  pub allocation_id : String
  pub invoice_id : String
  pub amount_minor : Option ℤ

-- One round of the loop of `CreatePaymentVoucherUseCase.execute`.
unfoldable pub allocate : String → Invoices → Pick → Result PayError PaymentAllocation
unfolding find_invoice
allocate vendor_id invoices p = do
  inv ← find_invoice p.invoice_id invoices
  throw_if (not (str_eq inv.vendor_id vendor_id)) (voucher_failed invalid_voucher)
  let amount = or_else p.amount_minor inv.balance_minor
  throw_if (not (is_open inv) || leb_ℤ amount (pos 0) || ltb_ℤ inv.balance_minor amount)
      (voucher_failed invalid_voucher)
  lines ← map_err wht_failed (wht_lines_for inv amount)
  ok (record {
    id = p.allocation_id;
    invoice_id = inv.id;
    amount_minor = amount;
    wht_minor = sum_by (λ l. l.tax_minor) lines;
  })

unfoldable pub allocate_all :
    String → Invoices → List Pick → Result PayError (List PaymentAllocation)
unfolding allocate
allocate_all vendor_id invoices [] = ok []
allocate_all vendor_id invoices (p ∷ rest) = do
  a ← allocate vendor_id invoices p
  allocations ← allocate_all vendor_id invoices rest
  ok (a ∷ allocations)

-- One round of the loop of `VoucherPoster.post`: the invoices and the tax lines afterwards.
unfoldable pub settle_one :
    ℕ
    → Invoices × List WhtLineInput
    → PaymentAllocation
    → Result PayError (Invoices × List WhtLineInput)
unfolding find_invoice
settle_one now (invoices, wht) a = do
  inv ← find_invoice a.invoice_id invoices
  lines ← map_err wht_failed (wht_lines_for inv a.amount_minor)
  t ← map_err invoice_failed (apply_settlement inv a.amount_minor now)
  ok (Maps.put a.invoice_id (saved_invoice t) invoices, wht ++ lines)

unfoldable pub settle_all :
    ℕ
    → Invoices × List WhtLineInput
    → List PaymentAllocation
    → Result PayError (Invoices × List WhtLineInput)
unfolding settle_one
settle_all now st [] = ok st
settle_all now st (a ∷ rest) = settle_one now st a >>= λ next. settle_all now next rest

-- The certificate, if anything is withheld.
abbrev pub certificate_for : PaymentVoucher → List WhtLineInput → (ℕ → String) → Option Certificate
certificate_for v wht new_id =
    if ltb_ℤ (pos 0) v.wht_minor then some (build_certificate_lines wht new_id) else none

-- `VoucherPoster.post`
unfoldable pub post_payment :
    Bool
    → Invoices
    → PaymentVoucher
    → (ℕ → String)
    → ℕ
    → Result PayError (Invoices × PaymentVoucher × Option Certificate)
unfolding settle_all
post_payment gate_open invoices v new_id now = do
  throw_if (not gate_open) ap_posting_period_closed
  (settled, wht) ← settle_all now (invoices, []) v.allocations
  done ← map_err voucher_failed (post_voucher v now)
  ok (settled, saved_voucher done, certificate_for v wht new_id)

-- The loop of `VoucherPoster.void`.
unfoldable pub give_back_all : ℕ → Invoices → List PaymentAllocation → Result PayError Invoices
unfolding find_invoice
give_back_all now invoices [] = ok invoices
give_back_all now invoices (a ∷ rest) = do
  inv ← find_invoice a.invoice_id invoices
  t ← map_err invoice_failed (reverse_settlement inv a.amount_minor now)
  give_back_all now (Maps.put a.invoice_id (saved_invoice t) invoices) rest

abbrev pub is_posted : VoucherStatus → Bool
is_posted VoucherStatus.posted = true
is_posted _ = false

-- What is done to the invoices if the voucher was posted.
unfoldable pub give_back : Bool → Bool → Invoices → PaymentVoucher → ℕ → Result PayError Invoices
unfolding give_back_all
give_back false gate_open invoices v now = ok invoices
give_back true gate_open invoices v now =
    throw_if (not gate_open) ap_posting_period_closed >> give_back_all now invoices v.allocations

-- `VoucherPoster.void`, but for the certificate, which is marked void.
unfoldable pub void_payment :
    Bool → Invoices → PaymentVoucher → ℕ → Result PayError (Invoices × PaymentVoucher)
unfolding give_back
void_payment gate_open invoices v now = do
  reversed ← give_back (is_posted v.status) gate_open invoices v now
  done ← map_err voucher_failed (void_voucher v now)
  ok (reversed, saved_voucher done)

abbrev pub is_batched : Option String → Bool
is_batched none = false
is_batched (some id) = not (is_empty id)

-- `PostPaymentVoucherUseCase.execute`, of the voucher that was found.
unfoldable pub execute_post_voucher :
    Bool
    → Invoices
    → PaymentVoucher
    → Option ℕ
    → (ℕ → String)
    → ℕ
    → Result PayError (Invoices × PaymentVoucher × Option Certificate)
unfolding assert_version post_payment
execute_post_voucher gate_open invoices v expected_version new_id now = do
  assert_version v.id v.version expected_version
  throw_if (is_batched v.batch_id) (voucher_failed invalid_voucher)
  post_payment gate_open invoices v new_id now

-- `VoidPaymentVoucherUseCase.execute`, of the voucher that was found.
unfoldable pub execute_void_voucher :
    Bool → Invoices → PaymentVoucher → Option ℕ → ℕ → Result PayError (Invoices × PaymentVoucher)
unfolding assert_version void_payment
execute_void_voucher gate_open invoices v expected_version now = do
  assert_version v.id v.version expected_version
  void_payment gate_open invoices v now

-- One round of the loop of `PostPaymentBatchUseCase.execute`.
unfoldable pub post_if_draft :
    Bool
    → (ℕ → String)
    → ℕ
    → Invoices
    → PaymentVoucher
    → Result PayError (Invoices × PaymentVoucher)
unfolding post_payment
post_if_draft gate_open new_id now invoices v =
    let posting = post_payment gate_open invoices v new_id now >>= λ (next, done, certificate).
    ok (next, done) in
    if is_draft v.status then posting else ok (invoices, v)

-- The loop: `gate` answers for each voucher, and the ids of a certificate are those for its voucher.
unfoldable pub post_drafts :
    (PaymentVoucher → Bool)
    → (PaymentVoucher → ℕ → String)
    → ℕ
    → Invoices
    → List PaymentVoucher
    → Result PayError (Invoices × List PaymentVoucher)
unfolding post_if_draft
post_drafts gate new_id now invoices [] = ok (invoices, [])
post_drafts gate new_id now invoices (v ∷ rest) = do
  (next, done) ← post_if_draft (gate v) (new_id v) now invoices v
  (end, vouchers) ← post_drafts gate new_id now next rest
  ok (end, done ∷ vouchers)

-- `PostPaymentBatchUseCase.execute`, of the batch that was found and its vouchers.
unfoldable pub execute_post_batch :
    (PaymentVoucher → Bool)
    → (PaymentVoucher → ℕ → String)
    → Invoices
    → PaymentBatch
    → List PaymentVoucher
    → Option ℕ
    → ℕ
    → Result PayError (Invoices × List PaymentVoucher × PaymentBatch)
unfolding assert_version post_drafts
execute_post_batch gate new_id invoices b vouchers expected_version now = do
  assert_version b.id b.version expected_version
  (settled, done) ← post_drafts gate new_id now invoices vouchers
  batch ← map_err batch_failed (post_batch b now)
  ok (settled, done, saved_batch batch)
