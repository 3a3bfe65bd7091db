-- ===== src/Sales/Order/Methods.antt =====
-- sales-order.ts: `class SalesOrder`. The methods return a new order and leave the old one.
use nestjs_api_template.Shared.Money
use nestjs_api_template.Prelude.Maps
use nestjs_api_template.Prelude.{
  Bool, List, Option, Result, String, [], err, false, if◌then◌else◌, ltb, map, map_err, none, not,
  ok, or_else, some, throw_if, true, ℕ, ◌&&◌, ◌==◌, ◌>>=◌, ◌>>◌, ◌||◌, ◌∷◌,
}
use nestjs_api_template.Prelude.Int.{ltb_ℤ, pos, ℤ}
use nestjs_api_template.Prelude.Lists.{any, length}
use nestjs_api_template.Prelude.Text.{
  Number, Unicode, integer, is_empty, not_integer, or_empty, text_length, text_lt, trim,
}
use nestjs_api_template.Sales.Order.State.{
  ApprovalOutcome, CreateSalesOrderProps, CreditCheck, CreditStatus, SalesOrder, SalesOrderError,
  SalesOrderHeaderPatch, SalesOrderLine, SalesOrderStatus, SubmitApproval, SubmitOutcome,
  approval_pending, approved_at_once, approvers_must_act, can_transition, cancelled, confirmed,
  credit_limit_exceeded, draft, exceeded, illegal_transition, invalid_sales_order, not_checked,
  not_editable, order_document, order_has_deliveries, order_money, outcome_approved,
  outcome_cancelled, outcome_none, outcome_pending, outcome_rejected, pending_approval, rejected,
  status_eq,
}
use nestjs_api_template.Shared.IsoDate.{is_iso_date}
use nestjs_api_template.Shared.Line.{
  DocumentLineInput, DocumentLineSnapshot, build_document_lines, compute_document_totals,
}
use nestjs_api_template.Shared.Money.{Money}

abbrev pub max_payment_terms_days : ℤ
max_payment_terms_days = pos 365

abbrev pub max_notes_length : ℕ
max_notes_length = 2000

-- The check of the requested date against the order date.
unfoldable pub check_requested_date : String → Option String → Result SalesOrderError (Unit {0})
check_requested_date order_date none = ok tt
check_requested_date order_date (some requested) = do
  throw_if (not (is_iso_date requested)) invalid_sales_order
  throw_if (text_lt requested order_date) invalid_sales_order

-- The test of `paymentTermsDays`.
abbrev pub terms_are_wrong : Number → Bool
terms_are_wrong not_integer = true
terms_are_wrong (integer days) = ltb_ℤ days (pos 0) || ltb_ℤ max_payment_terms_days days

abbrev pub notes_length : Option String → ℕ
notes_length none = 0
notes_length (some t) = text_length t

unfoldable pub validate_header :
    String → Option String → Number → Option String → Result SalesOrderError (Unit {0})
unfolding check_requested_date
validate_header order_date requested terms notes = do
  throw_if (not (is_iso_date order_date)) invalid_sales_order
  check_requested_date order_date requested
  throw_if (terms_are_wrong terms) invalid_sales_order
  throw_if (ltb max_notes_length (notes_length notes)) invalid_sales_order

unfoldable pub normalise_notes : Option String → Option String
normalise_notes notes = let t = trim (or_empty notes) in if text_length t == 0 then none else some t

unfoldable pub with_delivered : List (String × ℤ) → List DocumentLineSnapshot → List SalesOrderLine
with_delivered delivered_by [] = []
with_delivered delivered_by (l ∷ ls) =
    record { line = l; delivered_qty = or_else (Maps.get l.id delivered_by) (pos 0) }
    ∷ with_delivered delivered_by ls

-- The lines as lines of a document.
abbrev pub documents : List SalesOrderLine → List DocumentLineSnapshot
documents = map (λ l. l.line)

unfoldable pub create_order :
    ⦃u : Unicode⦄ → CreateSalesOrderProps → Result SalesOrderError SalesOrder
unfolding validate_header normalise_notes with_delivered
create_order props = do
  nothing ← map_err order_money (Money.zero_of props.currency)
  let notes = normalise_notes props.notes
  validate_header props.order_date props.requested_delivery_date props.payment_terms_days notes
  throw_if (is_empty (trim props.number)) invalid_sales_order
  built ← map_err order_document (build_document_lines props.lines nothing.currency)
  let lines = with_delivered [] built
  totals ← map_err order_document (compute_document_totals (documents lines) nothing.currency)
  ok (record {
    id = props.id;
    tenant_id = props.tenant_id;
    company_id = props.company_id;
    number = trim props.number;
    quotation_id = props.quotation_id;
    customer_id = props.customer_id;
    currency = nothing.currency;
    order_date = props.order_date;
    requested_delivery_date = props.requested_delivery_date;
    status = draft;
    payment_terms_days = props.payment_terms_days;
    notes = notes;
    totals = totals;
    credit_status = not_checked;
    credit_exposure_minor = pos 0;
    approval_request_id = none;
    version = 0;
    created_by = props.created_by;
    submitted_at = none;
    confirmed_at = none;
    resolved_at = none;
    cancel_reason = none;
    lines = lines;
    created_at = props.now;
    updated_at = props.now;
  })

abbrev pub has_deliveries : List SalesOrderLine → Bool
has_deliveries = any (λ l. ltb_ℤ (pos 0) l.delivered_qty)

unfoldable pub assert_editable : SalesOrder → Result SalesOrderError (Unit {0})
assert_editable s = throw_if (not (status_eq s.status draft)) (not_editable s.id s.status)

-- The patch is applied to the order first, and what it may not set is overwritten.
unfoldable pub transition :
    SalesOrder → SalesOrderStatus → ℕ → SalesOrder → Result SalesOrderError SalesOrder
transition s to now patched = do
  throw_if (not (can_transition s.status to)) (illegal_transition s.id s.status to)
  ok (record patched { status = to; updated_at = now })

abbrev pub patched_notes : Option (Option String) → Option String → Option String
patched_notes none old = old
patched_notes (some n) old = normalise_notes n

unfoldable pub update_header :
    SalesOrder → SalesOrderHeaderPatch → ℕ → Result SalesOrderError SalesOrder
unfolding assert_editable validate_header normalise_notes
update_header s patch now = do
  assert_editable s
  let requested = or_else patch.requested_delivery_date s.requested_delivery_date
  let terms = or_else patch.payment_terms_days s.payment_terms_days
  let notes = patched_notes patch.notes s.notes
  validate_header s.order_date requested terms notes
  ok (record s {
    requested_delivery_date = requested;
    payment_terms_days = terms;
    notes = notes;
    updated_at = now;
  })

unfoldable pub replace_lines :
    ⦃u : Unicode⦄ → SalesOrder → List DocumentLineInput → ℕ → Result SalesOrderError SalesOrder
unfolding assert_editable with_delivered
replace_lines s inputs now = do
  assert_editable s
  built ← map_err order_document (build_document_lines inputs s.currency)
  let lines = with_delivered [] built
  totals ← map_err order_document (compute_document_totals (documents lines) s.currency)
  ok (record s { lines = lines; totals = totals; updated_at = now })

abbrev pub is_exceeded : CreditStatus → Bool
is_exceeded exceeded = true
is_exceeded _ = false

abbrev pub is_approved : SubmitApproval → Bool
is_approved approved_at_once = true
is_approved approvers_must_act = false

unfoldable pub submit :
    SalesOrder → CreditCheck → SubmitOutcome → ℤ → ℕ → Result SalesOrderError SalesOrder
unfolding transition
submit s credit outcome credit_limit_minor now = do
  throw_if (length s.lines == 0) invalid_sales_order
  throw_if (is_exceeded credit.status && is_approved outcome.approval)
      (credit_limit_exceeded s.customer_id credit.exposure_minor credit_limit_minor)
  let patched = record s {
    credit_status = credit.status;
    credit_exposure_minor = credit.exposure_minor;
    approval_request_id = some outcome.approval_request_id;
    submitted_at = some now;
  }
  elim (outcome.approval) [
    | approved_at_once ↦ transition s confirmed now (record patched { confirmed_at = some now })
    | approvers_must_act ↦ transition s pending_approval now patched
  ]

-- The answers after which the order is a draft again.
abbrev pub withdraw : SalesOrder → ℕ → Result SalesOrderError SalesOrder
withdraw s now =
    transition s draft now (record s { approval_request_id = none; submitted_at = none })

unfoldable pub apply_approval_outcome :
    SalesOrder → ApprovalOutcome → ℕ → Result SalesOrderError SalesOrder
unfolding transition
apply_approval_outcome s outcome now =
    throw_if (not (status_eq s.status pending_approval))
      (illegal_transition s.id s.status confirmed)
    >> elim outcome [
      | outcome_approved ↦ transition s confirmed now (record s { confirmed_at = some now })
      | outcome_rejected ↦ transition s rejected now (record s { resolved_at = some now })
      | outcome_cancelled ↦ withdraw s now
      | outcome_none ↦ withdraw s now
      | outcome_pending ↦ err (approval_pending s.id s.approval_request_id)
    ]

unfoldable pub reopen : SalesOrder → ℕ → Result SalesOrderError SalesOrder
unfolding transition
reopen s now = transition s draft now (record s {
  approval_request_id = none;
  submitted_at = none;
  resolved_at = none;
  credit_status = not_checked;
  credit_exposure_minor = pos 0;
})

unfoldable pub cancel : SalesOrder → Option String → ℕ → Result SalesOrderError SalesOrder
unfolding transition
cancel s reason now = do
  let r = trim (or_empty reason)
  throw_if (ltb 500 (text_length r)) invalid_sales_order
  throw_if (has_deliveries s.lines) (order_has_deliveries s.id)
  transition s cancelled now (record s {
    resolved_at = some now;
    cancel_reason = if text_length r == 0 then none else some r;
  })
