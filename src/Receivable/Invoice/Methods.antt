-- ===== src/Receivable/Invoice/Methods.antt =====
-- sales-invoice.ts: `class SalesInvoice`. The methods return a new invoice and leave the old one.
use nestjs_api_template.Shared.Money
use nestjs_api_template.Prelude.Maps
use nestjs_api_template.Prelude.{
  Bool, List, Option, Result, String, [], false, if◌then◌else◌, ltb, map, map_err, none, not, ok,
  or_else, some, throw_if, true, ℕ, ◌&&◌, ◌==◌, ◌>>=◌, ◌>>◌, ◌||◌, ◌∷◌,
}
use nestjs_api_template.Prelude.Int.{eqb_ℤ, leb_ℤ, ltb_ℤ, pos, ℤ, ◌+ℤ◌, ◌-ℤ◌}
use nestjs_api_template.Prelude.Lists.{any, length}
use nestjs_api_template.Prelude.Text.{
  Number, Unicode, integer, is_empty, not_integer, or_empty, text_length, trim,
}
use nestjs_api_template.Receivable.Invoice.State.{
  Calendar, CreateInvoiceProps, InvoiceError, InvoiceHeaderPatch, InvoiceStatus, InvoiceType,
  NoteReason, SalesInvoice, SalesInvoiceLine, SalesInvoiceLineInput, applied, credit_note,
  debit_note, draft, illegal_invoice_transition, invalid_invoice, invoice, invoice_document,
  invoice_money, invoice_not_editable, issued, paid, partially_paid, settlement_exceeds_balance,
  void,
}
use nestjs_api_template.Shared.IsoDate.{is_iso_date}
use nestjs_api_template.Shared.Line.{
  DocumentLineInput, DocumentLineSnapshot, build_document_lines, compute_document_totals,
}
use nestjs_api_template.Shared.Money.{Money}

abbrev pub max_payment_terms_days : ℤ
max_payment_terms_days = pos 365

abbrev pub status_eq : InvoiceStatus → InvoiceStatus → Bool
status_eq draft draft = true
status_eq issued issued = true
status_eq partially_paid partially_paid = true
status_eq paid paid = true
status_eq applied applied = true
status_eq void void = true
status_eq _ _ = false

abbrev pub open_statuses : List InvoiceStatus
open_statuses = issued ∷ partially_paid ∷ []

abbrev pub is_open : SalesInvoice → Bool
is_open s = any (status_eq s.status) open_statuses

-- `byId`
abbrev pub order_lines : List SalesInvoiceLineInput → List (String × Option String)
order_lines inputs = Maps.from_entries [] (map (λ l. (l.id, l.sales_order_line_id)) inputs)

unfoldable pub with_order_line :
    List DocumentLineSnapshot → List SalesInvoiceLineInput → List SalesInvoiceLine
with_order_line lines inputs =
    map
      (λ l. record {
        line = l;
        sales_order_line_id = or_else (Maps.get l.id (order_lines inputs)) none;
      })
      lines

unfoldable pub normalise : Option String → ℕ → Result InvoiceError (Option String)
normalise v max = do
  let t = trim (or_empty v)
  throw_if (ltb max (text_length t)) invalid_invoice
  ok (if text_length t == 0 then none else some t)

-- The test of `paymentTermsDays`.
abbrev pub terms_are_wrong : Number → Bool
terms_are_wrong not_integer = true
terms_are_wrong (integer days) = ltb_ℤ days (pos 0) || ltb_ℤ max_payment_terms_days days

-- `!v` of a text that may be null.
abbrev pub is_missing : Option String → Bool
is_missing none = true
is_missing (some t) = is_empty t

abbrev pub has_reason : Option NoteReason → Bool
has_reason none = false
has_reason (some r) = true

-- What a note needs and an invoice does not.
unfoldable pub check_note :
    InvoiceType → Option String → Option NoteReason → Result InvoiceError (Unit {0})
check_note invoice original reason = ok tt
check_note credit_note original reason =
    throw_if (is_missing original) invalid_invoice
    >> throw_if (not (has_reason reason)) invalid_invoice
check_note debit_note original reason =
    throw_if (is_missing original) invalid_invoice
    >> throw_if (not (has_reason reason)) invalid_invoice

abbrev pub inputs_of : List SalesInvoiceLineInput → List DocumentLineInput
inputs_of = map (λ l. l.input)

unfoldable pub create_invoice :
    ⦃u : Unicode⦄ ⦃k : Calendar⦄ → CreateInvoiceProps → Result InvoiceError SalesInvoice
create_invoice ⦃u⦄ ⦃k⦄ props = do
  nothing ← map_err invoice_money (Money.zero_of props.currency)
  let type = or_else props.type invoice
  throw_if (not (is_iso_date props.invoice_date)) invalid_invoice
  throw_if (terms_are_wrong props.payment_terms_days) invalid_invoice
  check_note type props.original_invoice_id props.reason
  let customer_name = trim props.customer.customer_name
  throw_if (is_empty customer_name) invalid_invoice
  built ← map_err invoice_document (build_document_lines (inputs_of props.lines) nothing.currency)
  totals ← map_err invoice_document (compute_document_totals built nothing.currency)
  reason_text ← normalise props.reason_text 500
  tax_id ← normalise props.customer.customer_tax_id 20
  branch_number ← normalise props.customer.customer_branch_number 5
  address ← normalise props.customer.billing_address 500
  notes ← normalise props.notes 2000
  ok (record {
    id = props.id;
    tenant_id = props.tenant_id;
    company_id = props.company_id;
    branch_id = props.branch_id;
    number = none;
    type = type;
    original_invoice_id = props.original_invoice_id;
    reason = props.reason;
    reason_text = reason_text;
    customer = record {
      customer_id = props.customer.customer_id;
      customer_name = customer_name;
      customer_tax_id = tax_id;
      customer_branch_number = branch_number;
      billing_address = address;
    };
    sales_order_id = props.sales_order_id;
    currency = nothing.currency;
    invoice_date = props.invoice_date;
    due_date = k.add_days props.invoice_date props.payment_terms_days;
    payment_terms_days = props.payment_terms_days;
    status = draft;
    totals = totals;
    settled_minor = pos 0;
    balance_minor = totals.total_minor;
    notes = notes;
    version = 0;
    created_by = props.created_by;
    issued_at = none;
    voided_at = none;
    void_reason = none;
    lines = with_order_line built props.lines;
    created_at = props.now;
    updated_at = props.now;
  })

unfoldable pub assert_editable : SalesInvoice → Result InvoiceError (Unit {0})
assert_editable s = throw_if (not (status_eq s.status draft)) (invoice_not_editable s.id s.status)

-- The notes after a patch.
unfoldable pub patched_notes :
    Option (Option String) → Option String → Result InvoiceError (Option String)
patched_notes none old = ok old
patched_notes (some n) old = normalise n 2000

unfoldable pub update_header :
    ⦃k : Calendar⦄ → SalesInvoice → InvoiceHeaderPatch → ℕ → Result InvoiceError SalesInvoice
update_header ⦃k⦄ s patch now = do
  assert_editable s
  let invoice_date = or_else patch.invoice_date s.invoice_date
  let terms = or_else patch.payment_terms_days s.payment_terms_days
  throw_if (not (is_iso_date invoice_date)) invalid_invoice
  throw_if (terms_are_wrong terms) invalid_invoice
  notes ← patched_notes patch.notes s.notes
  ok (record s {
    invoice_date = invoice_date;
    payment_terms_days = terms;
    due_date = k.add_days invoice_date terms;
    notes = notes;
    updated_at = now;
  })

unfoldable pub replace_lines :
    ⦃u : Unicode⦄ → SalesInvoice → List SalesInvoiceLineInput → ℕ → Result InvoiceError SalesInvoice
replace_lines s inputs now = do
  assert_editable s
  built ← map_err invoice_document (build_document_lines (inputs_of inputs) s.currency)
  totals ← map_err invoice_document (compute_document_totals built s.currency)
  ok (record s {
    lines = with_order_line built inputs;
    totals = totals;
    balance_minor = totals.total_minor -ℤ s.settled_minor;
    updated_at = now;
  })

unfoldable pub issue : SalesInvoice → String → ℕ → Result InvoiceError SalesInvoice
issue s number now = do
  throw_if (not (status_eq s.status draft)) (illegal_invoice_transition s.id s.status issued)
  throw_if (length s.lines == 0) invalid_invoice
  throw_if (leb_ℤ s.totals.total_minor (pos 0)) invalid_invoice
  throw_if (is_empty (trim number)) invalid_invoice
  ok (record s {
    number = some (trim number);
    status = issued;
    issued_at = some now;
    updated_at = now;
  })

unfoldable pub apply_settlement : SalesInvoice → ℤ → ℕ → Result InvoiceError SalesInvoice
apply_settlement s amount_minor now = do
  throw_if (not (is_open s)) (illegal_invoice_transition s.id s.status partially_paid)
  throw_if (leb_ℤ amount_minor (pos 0)) invalid_invoice
  throw_if (ltb_ℤ s.balance_minor amount_minor)
      (settlement_exceeds_balance s.id s.balance_minor amount_minor)
  let settled = s.settled_minor +ℤ amount_minor
  let balance = s.totals.total_minor -ℤ settled
  ok (record s {
    settled_minor = settled;
    balance_minor = balance;
    status = if eqb_ℤ balance (pos 0) then paid else partially_paid;
    updated_at = now;
  })

unfoldable pub reverse_settlement : SalesInvoice → ℤ → ℕ → Result InvoiceError SalesInvoice
reverse_settlement s amount_minor now = do
  throw_if (not (status_eq s.status paid) && not (status_eq s.status partially_paid))
      (illegal_invoice_transition s.id s.status issued)
  throw_if (leb_ℤ amount_minor (pos 0) || ltb_ℤ s.settled_minor amount_minor) invalid_invoice
  let settled = s.settled_minor -ℤ amount_minor
  ok (record s {
    settled_minor = settled;
    balance_minor = s.totals.total_minor -ℤ settled;
    status = if eqb_ℤ settled (pos 0) then issued else partially_paid;
    updated_at = now;
  })

abbrev pub is_credit_note : InvoiceType → Bool
is_credit_note credit_note = true
is_credit_note _ = false

unfoldable pub mark_applied : SalesInvoice → ℕ → Result InvoiceError SalesInvoice
mark_applied s now = do
  throw_if (not (is_credit_note s.type) || not (status_eq s.status issued))
      (illegal_invoice_transition s.id s.status applied)
  ok (record s {
    status = applied;
    settled_minor = s.totals.total_minor;
    balance_minor = pos 0;
    updated_at = now;
  })

unfoldable pub void_invoice : SalesInvoice → String → ℕ → Result InvoiceError SalesInvoice
void_invoice s reason now = do
  throw_if (not (status_eq s.status draft) && not (status_eq s.status issued))
      (illegal_invoice_transition s.id s.status void)
  let r = trim reason
  throw_if (text_length r == 0 || ltb 500 (text_length r)) invalid_invoice
  ok (record s {
    status = void;
    balance_minor = pos 0;
    voided_at = some now;
    void_reason = some r;
    updated_at = now;
  })
