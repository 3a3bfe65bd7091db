-- ===== src/Sales/Tests.antt =====
-- Sales orders at concrete values, on which the theorems apply.
use nestjs_api_template.Shared.Money
use nestjs_api_template.Prelude.Maps
use nestjs_api_template.Prelude.{
  List, [], arith, err, map, none, ok, refl, some, suc, ℕ, ◌↔◌, ◌∷◌, ◌≡◌, ◌≤◌,
}
use nestjs_api_template.Prelude.Int.{neg, pos, ℤ, ◌*ℤ◌, ◌+ℤ◌, ◌-ℤ◌}
use nestjs_api_template.Prelude.Lists.{All, length}
use nestjs_api_template.Prelude.Text.{Unicode, integer, text_length, text_lt, trim}
use nestjs_api_template.Sales.DeliveryNote.{
  DeliveryNote, DeliveryNoteStatus, illegal_note_transition, note_transition, ship,
}
use nestjs_api_template.Sales.Order.Credit.{HasApproval, exceeded_needs_approval}
use nestjs_api_template.Sales.Order.Delivery.{
  add_posting, add_postings, record_delivery, updated, with_lines,
}
use nestjs_api_template.Sales.Order.History.{TotalsOfLines, created_history-IsValid}
use nestjs_api_template.Sales.Order.Invariant.{
  Deliverable, FitsIn, IsValid, order_with, record_delivery_iff,
}
use nestjs_api_template.Sales.Order.Lifecycle.{answered, delivers, onward, submits, unchanged, ◌⇒*◌}
use nestjs_api_template.Sales.Order.Methods.{
  apply_approval_outcome, check_requested_date, create_order, normalise_notes, submit, transition,
  validate_header, with_delivered,
}
use nestjs_api_template.Sales.Order.Posted.{Named}
use nestjs_api_template.Sales.Order.State.{
  CreateSalesOrderProps, CreditCheck, DeliveryPosting, SalesOrder, SalesOrderLine, SubmitOutcome,
  approvers_must_act, can_transition, confirmed, draft, exceeded, not_checked, outcome_approved,
  partially_delivered, pending_approval, transitions,
}
use nestjs_api_template.Sales.Shipping.{
  assert_expected_version, execute_ship, execute_ship_lem, note_failed, postings_of, saved_order,
  shipped_line,
}
use nestjs_api_template.Shared.IsoDate.{is_iso_date}
use nestjs_api_template.Shared.Line.{
  DocumentLineInput, build_document_lines, check_unique_ids, compute_document_line,
  compute_document_totals, manual, map_lines, whole_bp,
}
use nestjs_api_template.Shared.Money.{Money}

abbrev upper : Unicode
upper = record { to_upper_case = λ s. s; locale_compare = λ a b. pos 0 }

abbrev bolts : DocumentLineInput
bolts = record {
  id = "L1";
  item_id = "I1";
  item_sku = "SKU";
  description = "bolt";
  uom_code = "PCS";
  quantity = pos 3;
  unit_price_minor = pos 333;
  price_source = manual;
  price_list_id = none;
  discount_bp = integer (pos 500);
  tax_code_id = "V";
  tax_code = "VAT7";
  tax_rate_bp = integer (pos 700);
}

abbrev props : CreateSalesOrderProps
props = record {
  id = "S";
  tenant_id = "T";
  company_id = "C";
  number = "SO-1";
  quotation_id = none;
  customer_id = "C1";
  currency = "THB";
  order_date = "2024-02-28";
  requested_delivery_date = some "2024-02-29";
  payment_terms_days = integer (pos 30);
  notes = some " ";
  created_by = "ann";
  lines = bolts ∷ [];
  now = 1;
}

abbrev bolt_line : ℤ → SalesOrderLine
bolt_line sent = record {
  line = record {
    input = bolts;
    line_no = 1;
    discount_minor = pos 50;
    net_minor = pos 949;
    tax_minor = pos 66;
    total_minor = pos 1015;
  };
  delivered_qty = sent;
}

abbrev order : SalesOrder
order = record {
  id = "S";
  tenant_id = "T";
  company_id = "C";
  number = "SO-1";
  quotation_id = none;
  customer_id = "C1";
  currency = "THB";
  order_date = "2024-02-28";
  requested_delivery_date = some "2024-02-29";
  status = draft;
  payment_terms_days = integer (pos 30);
  notes = none;
  totals = record {
    subtotal_minor = pos 999;
    discount_minor = pos 50;
    tax_minor = pos 66;
    total_minor = pos 1015;
  };
  credit_status = not_checked;
  credit_exposure_minor = pos 0;
  approval_request_id = none;
  version = 0;
  created_by = "ann";
  submitted_at = none;
  confirmed_at = none;
  resolved_at = none;
  cancel_reason = none;
  lines = bolt_line (pos 0) ∷ [];
  created_at = 1;
  updated_at = 1;
}

order_is_created : create_order ⦃u = upper⦄ props ≡ ok order
unfolding create_order validate_header check_requested_date normalise_notes with_delivered Maps.get
    is_iso_date text_lt trim text_length build_document_lines check_unique_ids map_lines
    compute_document_line whole_bp compute_document_totals Money.zero_of Money.of
    Money.is_currency_code Money.percent Money.round_div Money.subtract Money.multiply Money.add
    Money.sum_money Money.sum_money_from Money.same neg ◌*ℤ◌ ◌-ℤ◌ ◌+ℤ◌
order_is_created = refl

abbrev credit : CreditCheck
credit = record { status = exceeded; exposure_minor = pos 5000 }

abbrev to_approvers : SubmitOutcome
to_approvers = record { approval_request_id = "R"; approval = approvers_must_act }

abbrev pending : SalesOrder
pending = record order {
  status = pending_approval;
  credit_status = exceeded;
  credit_exposure_minor = pos 5000;
  approval_request_id = some "R";
  submitted_at = some 2;
  updated_at = 2;
}

abbrev confirmed_order : SalesOrder
confirmed_order = record pending { status = confirmed; confirmed_at = some 3; updated_at = 3 }

abbrev two_bolts : List DeliveryPosting
two_bolts = record { sales_order_line_id = "L1"; quantity = pos 2 } ∷ []

abbrev sent_order : SalesOrder
sent_order = record confirmed_order {
  status = partially_delivered;
  lines = bolt_line (pos 2) ∷ [];
  updated_at = 4;
}

order_is_submitted : submit order credit to_approvers (pos 100) 2 ≡ ok pending
unfolding submit transition can_transition transitions
order_is_submitted = refl

order_is_approved : apply_approval_outcome pending outcome_approved 3 ≡ ok confirmed_order
unfolding apply_approval_outcome transition can_transition transitions
order_is_approved = refl

order_is_sent : record_delivery confirmed_order two_bolts 4 ≡ ok sent_order
unfolding record_delivery add_postings add_posting with_lines transition can_transition transitions
    updated Maps.from_entries Maps.get Maps.put ◌-ℤ◌ ◌+ℤ◌
order_is_sent = refl

-- Its life from creation to the delivery.
order_history : ◌⇒*◌ ⦃u = upper⦄ order sent_order
order_history = onward (submits credit to_approvers (pos 100) 2 order_is_submitted) (
    onward (answered outcome_approved 3 order_is_approved)
      (onward (delivers two_bolts 4 order_is_sent) unchanged))

confirmed_IsValid : IsValid confirmed_order
confirmed_IsValid = record {
  distinct = (tt, tt);
  within = ((omega arith, omega arith, omega arith), tt);
  progress = refl;
}

created_history-IsValid_example : IsValid sent_order × TotalsOfLines ⦃u = upper⦄ sent_order
created_history-IsValid_example =
    created_history-IsValid ⦃u = upper⦄ props order_is_created order_history

exceeded_needs_approval_example : HasApproval ⦃u = upper⦄ order_history
exceeded_needs_approval_example =
    exceeded_needs_approval ⦃u = upper⦄ props order_history order_is_created refl refl

record_delivery_iff_example : (record_delivery confirmed_order two_bolts 4 ≡ ok sent_order) ↔ (
    Deliverable confirmed
    × (1 ≤ length two_bolts)
    × Named confirmed_order.lines two_bolts
    × All (FitsIn two_bolts) confirmed_order.lines
    × (sent_order ≡ order_with confirmed_order two_bolts 4))
record_delivery_iff_example = record_delivery_iff confirmed_order two_bolts 4 confirmed_IsValid

abbrev note : DeliveryNote
note = record {
  id = "N";
  tenant_id = "T";
  sales_order_id = "S";
  number = "DN-1";
  status = DeliveryNoteStatus.draft;
  delivery_date = "2024-02-29";
  warehouse_id = none;
  ship_to_address = none;
  notes = none;
  version = 0;
  created_by = "ann";
  shipped_at = none;
  lines =
      record {
        input = record {
          id = "N1";
          sales_order_line_id = "L1";
          item_id = "I1";
          item_sku = "SKU";
          uom_code = "PCS";
          quantity = pos 2;
        };
        line_no = 1;
      }
      ∷ [];
  created_at = 1;
  updated_at = 1;
}

abbrev shipped_note : DeliveryNote
shipped_note = record note {
  status = DeliveryNoteStatus.shipped;
  shipped_at = some 4;
  updated_at = 4;
  version = 1;
}

note_is_shipped :
    execute_ship note confirmed_order (some 0) 4 ≡ ok (shipped_note, saved_order sent_order)
unfolding execute_ship assert_expected_version ship note_transition postings_of record_delivery
    add_postings add_posting with_lines transition can_transition transitions updated
    Maps.from_entries Maps.get Maps.put ◌-ℤ◌ ◌+ℤ◌
note_is_shipped = refl

execute_ship_lem_example :
    IsValid (saved_order sent_order)
    × (sent_order.lines ≡ map (shipped_line note.lines) confirmed_order.lines)
    × ((saved_order sent_order).version ≡ suc confirmed_order.version)
    × (shipped_note ≡ record note {
      status = DeliveryNoteStatus.shipped;
      shipped_at = some 4;
      updated_at = 4;
      version = 1;
    })
    × ((other : SalesOrder) (later : ℕ)
        → execute_ship shipped_note other none later
          ≡ err (
              note_failed (
                illegal_note_transition "N" DeliveryNoteStatus.shipped DeliveryNoteStatus.shipped)))
execute_ship_lem_example =
    execute_ship_lem note confirmed_order (some 0) 4 confirmed_IsValid note_is_shipped
