-- ===== src/Receivable/Tests.antt =====
-- Invoices at concrete values, on which the theorems apply.
use nestjs_api_template.Shared.Money
use nestjs_api_template.Prelude.Maps
use nestjs_api_template.Prelude.{List, String, [], arith, map, none, ok, refl, some, true, ◌∷◌, ◌≡◌}
use nestjs_api_template.Prelude.Int.{neg, pos, ◌*ℤ◌, ◌+ℤ◌, ◌-ℤ◌, ◌<ℤ◌}
use nestjs_api_template.Prelude.Lists.{All}
use nestjs_api_template.Prelude.Text.{
  Unicode, includes, integer, starts_with, text_length, text_lt, trim,
}
use nestjs_api_template.Receivable.AutoMatch.{
  OpenInvoiceRef, by_due_date, by_reference, insert_due, match_due, match_exact, match_reference,
  propose_allocations, sort_due, take_from, take_only,
}
use nestjs_api_template.Receivable.Invoice.Lifecycle.{
  created_invoice-IsValid, issues, onward, settles, unchanged,
}
use nestjs_api_template.Receivable.Invoice.Methods.{
  apply_settlement, check_note, create_invoice, issue, normalise, reverse_settlement,
  with_order_line,
}
use nestjs_api_template.Receivable.Invoice.Settlement.{IsValid, reverse_settlement-apply_settlement}
use nestjs_api_template.Receivable.Invoice.State.{
  Calendar, CreateInvoiceProps, SalesInvoice, draft, invoice, issued, partially_paid,
}
use nestjs_api_template.Receivable.Posting.{
  Invoices, assert_version, execute_post, execute_void, update_invoice, update_invoices,
}
use nestjs_api_template.Receivable.Proposal.{IsCovered, proposed}
use nestjs_api_template.Receivable.Proposed.{proposal_is_accepted, with_id}
use nestjs_api_template.Receivable.Receipt.{
  Receipt, ReceiptStatus, cash, check_allocations, post_receipt, posted, settlement_minor,
  validate_allocations,
}
use nestjs_api_template.Receivable.RoundTrip.{Elsewhere, GivenBack, execute_void-execute_post}
use nestjs_api_template.Shared.IsoDate.{is_iso_date}
use nestjs_api_template.Shared.Line.{
  DocumentLineInput, build_document_lines, check_unique_ids, compute_document_line,
  compute_document_totals, manual, map_lines, whole_bp,
}
use nestjs_api_template.Shared.Money.{Money}

abbrev upper : Unicode
upper = record { to_upper_case = λ s. s; locale_compare = λ a b. pos 0 }

abbrev bolts : DocumentLineInput
bolts = record {
  id = "L1";
  item_id = "I1";
  item_sku = "SKU";
  description = "bolt";
  uom_code = "PCS";
  quantity = pos 3;
  unit_price_minor = pos 333;
  price_source = manual;
  price_list_id = none;
  discount_bp = integer (pos 500);
  tax_code_id = "V";
  tax_code = "VAT7";
  tax_rate_bp = integer (pos 700);
}

abbrev same_day : Calendar
same_day = record { add_days = λ day n. day }

abbrev props : CreateInvoiceProps
props = record {
  id = "I";
  tenant_id = "T";
  company_id = "C";
  branch_id = "B";
  type = none;
  original_invoice_id = none;
  reason = none;
  reason_text = none;
  customer = record {
    customer_id = "C1";
    customer_name = " Acme ";
    customer_tax_id = none;
    customer_branch_number = some "00000";
    billing_address = none;
  };
  sales_order_id = some "S";
  currency = "THB";
  invoice_date = "2024-02-29";
  payment_terms_days = integer (pos 0);
  notes = none;
  created_by = "ann";
  lines = record { input = bolts; sales_order_line_id = some "L9" } ∷ [];
  now = 1;
}

abbrev drafted : SalesInvoice
drafted = record {
  id = "I";
  tenant_id = "T";
  company_id = "C";
  branch_id = "B";
  number = none;
  type = invoice;
  original_invoice_id = none;
  reason = none;
  reason_text = none;
  customer = record {
    customer_id = "C1";
    customer_name = "Acme";
    customer_tax_id = none;
    customer_branch_number = some "00000";
    billing_address = none;
  };
  sales_order_id = some "S";
  currency = "THB";
  invoice_date = "2024-02-29";
  due_date = "2024-02-29";
  payment_terms_days = integer (pos 0);
  status = draft;
  totals = record {
    subtotal_minor = pos 999;
    discount_minor = pos 50;
    tax_minor = pos 66;
    total_minor = pos 1015;
  };
  settled_minor = pos 0;
  balance_minor = pos 1015;
  notes = none;
  version = 0;
  created_by = "ann";
  issued_at = none;
  voided_at = none;
  void_reason = none;
  lines =
      record {
        line = record {
          input = bolts;
          line_no = 1;
          discount_minor = pos 50;
          net_minor = pos 949;
          tax_minor = pos 66;
          total_minor = pos 1015;
        };
        sales_order_line_id = some "L9";
      }
      ∷ [];
  created_at = 1;
  updated_at = 1;
}

invoice_is_created : create_invoice ⦃u = upper⦄ ⦃k = same_day⦄ props ≡ ok drafted
unfolding create_invoice check_note normalise with_order_line Maps.get Maps.put Maps.from_entries
    is_iso_date trim text_length build_document_lines check_unique_ids map_lines
    compute_document_line whole_bp compute_document_totals Money.zero_of Money.of
    Money.is_currency_code Money.percent Money.round_div Money.subtract Money.multiply Money.add
    Money.sum_money Money.sum_money_from Money.same neg ◌*ℤ◌ ◌-ℤ◌ ◌+ℤ◌
invoice_is_created = refl

abbrev sent : SalesInvoice
sent = record drafted { number = some "IV-1"; status = issued; issued_at = some 2; updated_at = 2 }

abbrev part_paid : SalesInvoice
part_paid = record sent {
  status = partially_paid;
  settled_minor = pos 1000;
  balance_minor = pos 15;
  updated_at = 3;
}

invoice_is_issued : issue drafted "IV-1" 2 ≡ ok sent
unfolding issue trim
invoice_is_issued = refl

invoice_is_settled : apply_settlement sent (pos 1000) 3 ≡ ok part_paid
unfolding apply_settlement ◌-ℤ◌ ◌+ℤ◌
invoice_is_settled = refl

sent-IsValid : IsValid sent
sent-IsValid = (refl, refl, omega arith)

created_invoice-IsValid_example : IsValid part_paid
created_invoice-IsValid_example =
    created_invoice-IsValid ⦃u = upper⦄ ⦃k = same_day⦄ props invoice_is_created (
      onward (issues "IV-1" 2 invoice_is_issued)
        (onward (settles (pos 1000) 3 invoice_is_settled) unchanged))

reverse_settlement-apply_settlement_example :
    reverse_settlement part_paid (pos 1000) 4 ≡ ok (record sent { updated_at = 4 })
reverse_settlement-apply_settlement_example =
    reverse_settlement-apply_settlement sent (pos 1000) 3 4 sent-IsValid invoice_is_settled

abbrev stored : Invoices
stored = ("I", sent) ∷ []

abbrev money_in : Receipt
money_in = record {
  id = "R";
  tenant_id = "T";
  company_id = "C";
  number = "RC-1";
  customer_id = "C1";
  currency = "THB";
  receipt_date = "2024-02-29";
  method = cash;
  amount_minor = pos 1000;
  wht_minor = pos 30;
  reference = none;
  cheque_number = none;
  cheque_bank = none;
  cheque_date = none;
  notes = none;
  status = ReceiptStatus.draft;
  allocations = record { id = "A"; invoice_id = "I"; amount_minor = pos 1000 } ∷ [];
  version = 0;
  created_by = "ann";
  posted_at = none;
  voided_at = none;
  created_at = 1;
  updated_at = 1;
}

abbrev after_posting : Invoices × Receipt
after_posting = (
  ("I", record part_paid { version = 1 }) ∷ [],
  record money_in { status = posted; posted_at = some 3; updated_at = 3; version = 1 },
)

receipt_is_posted : execute_post true stored money_in (some 0) 3 ≡ ok after_posting
unfolding execute_post assert_version update_invoices update_invoice post_receipt apply_settlement
    Maps.get Maps.put ◌-ℤ◌ ◌+ℤ◌
receipt_is_posted = refl

money_in_allocations : validate_allocations money_in.allocations (settlement_minor money_in) ≡ ok tt
unfolding validate_allocations check_allocations settlement_minor ◌+ℤ◌
money_in_allocations = refl

execute_void-execute_post_example :
    (back : Invoices × Receipt) × (execute_void true after_posting.0 after_posting.1 none 4
      ≡ ok back)
    × All (GivenBack 4 stored back.0) money_in.allocations
    × ((k : String) → Elsewhere k money_in.allocations → Maps.get k back.0 ≡ Maps.get k stored)
execute_void-execute_post_example =
    execute_void-execute_post true stored money_in (some 0) 3 4 money_in_allocations
      (sent-IsValid, tt) receipt_is_posted

abbrev open_refs : List OpenInvoiceRef
open_refs =
    record {
      invoice_id = "I";
      number = some "IV-1";
      due_date = "2024-03-01";
      balance_minor = pos 700;
    }
    ∷ record {
      invoice_id = "J";
      number = some "IV-2";
      due_date = "2024-02-01";
      balance_minor = pos 500;
    }
    ∷ []

proposal_is_accepted_example :
    (validate_allocations
        (map
          (with_id (λ a. a.invoice_id))
          (propose_allocations ⦃u = upper⦄ (pos 1000) (some "PAY IV-1") open_refs).allocations)
        (pos 1000)
      ≡ ok tt)
    × (proposed (propose_allocations ⦃u = upper⦄ (pos 1000) (some "PAY IV-1") open_refs).allocations
          +ℤ (propose_allocations ⦃u = upper⦄
              (pos 1000)
              (some "PAY IV-1")
              open_refs).unapplied_minor
        ≡ pos 1000)
    × All
        (IsCovered (λ i. pos 0 <ℤ i.balance_minor))
        (propose_allocations ⦃u = upper⦄ (pos 1000) (some "PAY IV-1") open_refs).allocations
proposal_is_accepted_example =
    proposal_is_accepted ⦃u = upper⦄ (λ i. pos 0 <ℤ i.balance_minor) (λ a. a.invoice_id) (pos 1000)
      (some "PAY IV-1") open_refs (omega arith) (omega arith, (omega arith, tt))

-- The quoted invoice is paid first, the other takes the rest.
quoted_first : propose_allocations ⦃u = upper⦄ (pos 1000) (some "PAY IV-1") open_refs ≡ record {
  allocations =
      record { invoice_id = "I"; amount_minor = pos 700; rule = by_reference }
      ∷ record { invoice_id = "J"; amount_minor = pos 300; rule = by_due_date }
      ∷ [];
  unapplied_minor = pos 0;
}
unfolding propose_allocations match_reference includes starts_with take_from match_exact take_only
    sort_due insert_due match_due text_lt ◌-ℤ◌
quoted_first = refl
