-- ===== src/Payable/Invoice.antt =====
-- vendor-invoice.ts: `class VendorInvoice`. The methods return a new invoice and leave the old one.
use nestjs_api_template.Shared.Money
use nestjs_api_template.Prelude.Maps
use nestjs_api_template.Payable.Match.{MatchIssue, MatchResult, MatchStatus, matched}
use nestjs_api_template.Prelude.{
  Bool, List, Option, Result, String, [], false, if◌then◌else◌, ltb, map, map_err, none, not, ok,
  some, throw_if, true, ℕ, ◌&&◌, ◌==◌, ◌>>=◌, ◌>>◌, ◌||◌, ◌∷◌,
}
use nestjs_api_template.Prelude.Int.{eqb_ℤ, leb_ℤ, ltb_ℤ, pos, ℤ, ◌+ℤ◌, ◌-ℤ◌}
use nestjs_api_template.Prelude.Lists.{any, length}
use nestjs_api_template.Prelude.Text.{
  Number, Unicode, integer, is_empty, not_integer, or_empty, text_length, trim,
}
use nestjs_api_template.Shared.IsoDate.{is_iso_date}
use nestjs_api_template.Shared.Line.{
  DocumentError, DocumentLineInput, DocumentLineSnapshot, DocumentTotals, build_document_lines,
  compute_document_totals,
}
use nestjs_api_template.Shared.Money.{Money, MoneyError}

pub data VendorInvoiceStatus : Type 0 where
  draft : VendorInvoiceStatus
  open_status : VendorInvoiceStatus
  partially_paid : VendorInvoiceStatus
  paid : VendorInvoiceStatus
  void : VendorInvoiceStatus

pub data VendorInvoiceError : Type 0 where
  illegal_vendor_invoice_transition :
      String → VendorInvoiceStatus → VendorInvoiceStatus → VendorInvoiceError
  invalid_vendor_invoice : VendorInvoiceError
  match_variance : String → List MatchIssue → VendorInvoiceError
  ap_settlement_exceeds_balance : String → ℤ → ℤ → VendorInvoiceError
  vendor_invoice_money : MoneyError → VendorInvoiceError
  vendor_invoice_document : DocumentError → VendorInvoiceError

-- `WhtInfo`, with the type of its rate: any number in an input, an integer in an invoice.
pub record WhtInfo (Rate : Type 0) : Type 0 where
  pub wht_tax_code_id : Option String
  pub wht_tax_code : Option String
  pub wht_rate_bp : Rate
  pub wht_pnd_form : Option String
  pub wht_income_type : Option String

pub record VendorInvoiceLineInput : Type 0 where
  pub input : DocumentLineInput
  pub open input use *
  pub wht : WhtInfo Number
  pub purchase_order_line_id : Option String

pub record VendorInvoiceLine : Type 0 where
  pub line : DocumentLineSnapshot
  pub open line use *
  pub wht : WhtInfo ℤ
  pub purchase_order_line_id : Option String

pub record VendorInvoice : Type 0 where
  pub id : String
  pub tenant_id : String
  pub company_id : String
  pub number : String
  pub vendor_invoice_number : String
  pub vendor_id : String
  pub vendor_name : String
  pub vendor_tax_id : Option String
  pub purchase_order_id : Option String
  pub currency : String
  pub invoice_date : String
  pub due_date : String
  pub payment_terms_days : Number
  pub status : VendorInvoiceStatus
  pub match_status : MatchStatus
  pub match_issues : List MatchIssue
  pub totals : DocumentTotals
  pub settled_minor : ℤ
  pub balance_minor : ℤ
  pub notes : Option String
  pub version : ℕ
  pub created_by : String
  pub posted_at : Option ℕ
  pub voided_at : Option ℕ
  pub void_reason : Option String
  pub lines : List VendorInvoiceLine
  pub created_at : ℕ
  pub updated_at : ℕ

pub record CreateVendorInvoiceProps : Type 0 where
  pub id : String
  pub tenant_id : String
  pub company_id : String
  pub number : String
  pub vendor_invoice_number : String
  pub vendor_id : String
  pub vendor_name : String
  pub vendor_tax_id : Option String
  pub purchase_order_id : Option String
  pub currency : String
  pub invoice_date : String
  pub payment_terms_days : Number
  pub notes : Option String
  pub created_by : String
  pub lines : List VendorInvoiceLineInput
  pub match_result : MatchResult
  pub now : ℕ

-- What `Date` of the runtime computes: the ISO date a number of days after another.
pub record Calendar : Type 0 where
  pub add_days : String → Number → String

abbrev pub status_eq : VendorInvoiceStatus → VendorInvoiceStatus → Bool
status_eq draft draft = true
status_eq open_status open_status = true
status_eq partially_paid partially_paid = true
status_eq paid paid = true
status_eq void void = true
status_eq _ _ = false

abbrev pub ap_open_statuses : List VendorInvoiceStatus
ap_open_statuses = open_status ∷ partially_paid ∷ []

abbrev pub is_open : VendorInvoice → Bool
is_open s = any (status_eq s.status) ap_open_statuses

-- A number that is no integer, or is outside of zero to the bound.
abbrev pub is_outside : ℤ → Number → Bool
is_outside bound not_integer = true
is_outside bound (integer n) = ltb_ℤ n (pos 0) || ltb_ℤ bound n

-- The rate of an input that has passed the test.
abbrev pub rate_of : Number → ℤ
rate_of not_integer = pos 0
rate_of (integer n) = n

abbrev pub no_wht : WhtInfo ℤ
no_wht = record {
  wht_tax_code_id = none;
  wht_tax_code = none;
  wht_rate_bp = pos 0;
  wht_pnd_form = none;
  wht_income_type = none;
}

abbrev pub checked_wht : WhtInfo Number → WhtInfo ℤ
checked_wht w = record {
  wht_tax_code_id = w.wht_tax_code_id;
  wht_tax_code = w.wht_tax_code;
  wht_rate_bp = rate_of w.wht_rate_bp;
  wht_pnd_form = w.wht_pnd_form;
  wht_income_type = w.wht_income_type;
}

-- What a line gets from the input of its id.
unfoldable pub decorated : DocumentLineSnapshot → Option VendorInvoiceLineInput → VendorInvoiceLine
decorated l none = record { line = l; wht = no_wht; purchase_order_line_id = none }
decorated l (some i) = record {
  line = l;
  wht = checked_wht i.wht;
  purchase_order_line_id = i.purchase_order_line_id;
}

unfoldable pub decorate :
    List DocumentLineSnapshot → List VendorInvoiceLineInput → List VendorInvoiceLine
unfolding decorated
decorate lines inputs =
    let by_id = Maps.from_entries [] (map (λ l. (l.id, l)) inputs) in
    map (λ l. decorated l (Maps.get l.id by_id)) lines

abbrev pub line_inputs : List VendorInvoiceLineInput → List DocumentLineInput
line_inputs = map (λ l. l.input)

abbrev pub or_null : String → Option String
or_null t = if is_empty t then none else some t

unfoldable pub create_vendor_invoice :
    ⦃u : Unicode⦄ ⦃k : Calendar⦄
    → CreateVendorInvoiceProps
    → Result VendorInvoiceError VendorInvoice
create_vendor_invoice ⦃u⦄ ⦃k⦄ props = do
  nothing ← map_err vendor_invoice_money (Money.zero_of props.currency)
  throw_if (not (is_iso_date props.invoice_date)) invalid_vendor_invoice
  throw_if (is_outside (pos 365) props.payment_terms_days) invalid_vendor_invoice
  let vendor_invoice_number = trim props.vendor_invoice_number
  throw_if (is_empty vendor_invoice_number || ltb 64 (text_length vendor_invoice_number))
      invalid_vendor_invoice
  throw_if (any (λ l. is_outside (pos 10000) l.wht.wht_rate_bp) props.lines) invalid_vendor_invoice
  built ←
      map_err vendor_invoice_document
        (build_document_lines (line_inputs props.lines) nothing.currency)
  totals ← map_err vendor_invoice_document (compute_document_totals built nothing.currency)
  ok (record {
    id = props.id;
    tenant_id = props.tenant_id;
    company_id = props.company_id;
    number = props.number;
    vendor_invoice_number = vendor_invoice_number;
    vendor_id = props.vendor_id;
    vendor_name = trim props.vendor_name;
    vendor_tax_id = props.vendor_tax_id;
    purchase_order_id = props.purchase_order_id;
    currency = nothing.currency;
    invoice_date = props.invoice_date;
    due_date = k.add_days props.invoice_date props.payment_terms_days;
    payment_terms_days = props.payment_terms_days;
    status = draft;
    match_status = props.match_result.status;
    match_issues = props.match_result.issues;
    totals = totals;
    settled_minor = pos 0;
    balance_minor = totals.total_minor;
    notes = or_null (trim (or_empty props.notes));
    version = 0;
    created_by = props.created_by;
    posted_at = none;
    voided_at = none;
    void_reason = none;
    lines = decorate built props.lines;
    created_at = props.now;
    updated_at = props.now;
  })

abbrev pub is_matched : MatchStatus → Bool
is_matched matched = true
is_matched _ = false

unfoldable pub post_invoice : VendorInvoice → ℕ → Bool → Result VendorInvoiceError VendorInvoice
post_invoice s now accept_variance = do
  throw_if (not (status_eq s.status draft))
      (illegal_vendor_invoice_transition s.id s.status open_status)
  throw_if (length s.lines == 0 || leb_ℤ s.totals.total_minor (pos 0)) invalid_vendor_invoice
  throw_if (not (is_matched s.match_status) && not accept_variance)
      (match_variance s.id s.match_issues)
  ok (record s { status = open_status; posted_at = some now; updated_at = now })

unfoldable pub apply_settlement : VendorInvoice → ℤ → ℕ → Result VendorInvoiceError VendorInvoice
apply_settlement s amount_minor now = do
  throw_if (not (is_open s)) (illegal_vendor_invoice_transition s.id s.status partially_paid)
  throw_if (leb_ℤ amount_minor (pos 0)) invalid_vendor_invoice
  throw_if (ltb_ℤ s.balance_minor amount_minor)
      (ap_settlement_exceeds_balance s.id s.balance_minor amount_minor)
  let settled = s.settled_minor +ℤ amount_minor
  let balance = s.totals.total_minor -ℤ settled
  ok (record s {
    settled_minor = settled;
    balance_minor = balance;
    status = if eqb_ℤ balance (pos 0) then paid else partially_paid;
    updated_at = now;
  })

unfoldable pub reverse_settlement : VendorInvoice → ℤ → ℕ → Result VendorInvoiceError VendorInvoice
reverse_settlement s amount_minor now = do
  throw_if (not (status_eq s.status paid) && not (status_eq s.status partially_paid))
      (illegal_vendor_invoice_transition s.id s.status open_status)
  throw_if (leb_ℤ amount_minor (pos 0) || ltb_ℤ s.settled_minor amount_minor) invalid_vendor_invoice
  let settled = s.settled_minor -ℤ amount_minor
  ok (record s {
    settled_minor = settled;
    balance_minor = s.totals.total_minor -ℤ settled;
    status = if eqb_ℤ settled (pos 0) then open_status else partially_paid;
    updated_at = now;
  })

unfoldable pub void_invoice : VendorInvoice → String → ℕ → Result VendorInvoiceError VendorInvoice
void_invoice s reason now = do
  throw_if (not (status_eq s.status draft) && not (status_eq s.status open_status))
      (illegal_vendor_invoice_transition s.id s.status void)
  let r = trim reason
  throw_if (text_length r == 0 || ltb 500 (text_length r)) invalid_vendor_invoice
  ok (record s {
    status = void;
    balance_minor = pos 0;
    voided_at = some now;
    void_reason = some r;
    updated_at = now;
  })
