-- ===== src/Payable/Tests.antt =====
-- Vendor invoices at concrete values, on which the theorems apply.
use nestjs_api_template.Prelude.Maps
use nestjs_api_template.Shared.Money
use nestjs_api_template.Payable.Invoice.{
  Calendar, CreateVendorInvoiceProps, VendorInvoice, VendorInvoiceStatus, apply_settlement,
  create_vendor_invoice, decorate, decorated, open_status, partially_paid, post_invoice,
}
use nestjs_api_template.Payable.Lifecycle.{
  created_invoice_in_force, is_in_force, onward, posts, settles, some_accepts, unchanged, ◌⇒*◌,
}
use nestjs_api_template.Payable.Match.{
  AllFit, MatchLineInput, PurchaseLine, is_tied, line_issues, match_loop, matched, no_order,
  three_way_match, three_way_match_iff, unmatched,
}
use nestjs_api_template.Payable.Settlement.{IsValid}
use nestjs_api_template.Payable.Wht.{WhtBase, WhtLineInput, wht_line}
use nestjs_api_template.Payable.WhtBounds.{wht_line_bounds}
use nestjs_api_template.Prelude.{
  List, [], arith, false, none, ok, refl, some, true, ◌++◌, ◌↔◌, ◌∷◌, ◌≡◌, ◌⊎◌,
}
use nestjs_api_template.Prelude.Int.{neg, pos, ◌*ℤ◌, ◌+ℤ◌, ◌-ℤ◌, ◌/ℤ◌, ◌<ℤ◌, ◌≤ℤ◌}
use nestjs_api_template.Prelude.Lists.{any}
use nestjs_api_template.Prelude.Text.{Unicode, integer, text_length, trim}
use nestjs_api_template.Shared.IsoDate.{is_iso_date}
use nestjs_api_template.Shared.Line.{
  DocumentLineInput, build_document_lines, check_unique_ids, compute_document_line,
  compute_document_totals, manual, map_lines, whole_bp,
}
use nestjs_api_template.Shared.Money.{Money}

abbrev pub upper : Unicode
upper = record { to_upper_case = λ s. s; locale_compare = λ a b. pos 0 }

abbrev same_day : Calendar
same_day = record { add_days = λ day n. day }

abbrev ordered : PurchaseLine
ordered = record {
  ordered_qty = pos 10;
  unit_price_minor = pos 1000;
  received_qty = pos 8;
  already_invoiced_qty = pos 3;
}

-- Five of five that are open, at a price one per cent too high.
abbrev billed : List MatchLineInput
billed =
    record {
      line_ref = "1";
      invoiced_qty = pos 5;
      invoiced_unit_price_minor = pos 1010;
      po = some ordered;
    }
    ∷ []

three_way_match_iff_example :
    (((three_way_match billed (pos 100)).status ≡ matched)
      ↔ ((any is_tied billed ≡ true) × AllFit (pos 100) billed))
    × (((three_way_match billed (pos 100)).status ≡ unmatched) ↔ (any is_tied billed ≡ false))
three_way_match_iff_example = three_way_match_iff billed (pos 100)

-- Two lines that bill the same five; each is looked at by itself.
same_five_twice :
    three_way_match (billed ++ billed) (pos 100) ≡ record { status = matched; issues = [] }
unfolding three_way_match match_loop line_issues ◌*ℤ◌ ◌-ℤ◌ ◌/ℤ◌
same_five_twice = refl

abbrev advice : DocumentLineInput
advice = record {
  id = "L1";
  item_id = "I1";
  item_sku = "SKU";
  description = "advice";
  uom_code = "HRS";
  quantity = pos 10;
  unit_price_minor = pos 1000;
  price_source = manual;
  price_list_id = none;
  discount_bp = integer (pos 0);
  tax_code_id = "V";
  tax_code = "VAT7";
  tax_rate_bp = integer (pos 700);
}

abbrev props : CreateVendorInvoiceProps
props = record {
  id = "I";
  tenant_id = "T";
  company_id = "C";
  number = "AP-1";
  vendor_invoice_number = " 77 ";
  vendor_id = "V1";
  vendor_name = "Acme";
  vendor_tax_id = none;
  purchase_order_id = none;
  currency = "THB";
  invoice_date = "2024-02-29";
  payment_terms_days = integer (pos 30);
  notes = none;
  created_by = "ann";
  lines =
      record {
        input = advice;
        wht = record {
          wht_tax_code_id = some "W";
          wht_tax_code = some "WHT3";
          wht_rate_bp = integer (pos 300);
          wht_pnd_form = none;
          wht_income_type = none;
        };
        purchase_order_line_id = none;
      }
      ∷ [];
  match_result = record { status = unmatched; issues = no_order ∷ [] };
  now = 1;
}

abbrev drafted : VendorInvoice
drafted = record {
  id = "I";
  tenant_id = "T";
  company_id = "C";
  number = "AP-1";
  vendor_invoice_number = "77";
  vendor_id = "V1";
  vendor_name = "Acme";
  vendor_tax_id = none;
  purchase_order_id = none;
  currency = "THB";
  invoice_date = "2024-02-29";
  due_date = "2024-02-29";
  payment_terms_days = integer (pos 30);
  status = VendorInvoiceStatus.draft;
  match_status = unmatched;
  match_issues = no_order ∷ [];
  totals = record {
    subtotal_minor = pos 10000;
    discount_minor = pos 0;
    tax_minor = pos 700;
    total_minor = pos 10700;
  };
  settled_minor = pos 0;
  balance_minor = pos 10700;
  notes = none;
  version = 0;
  created_by = "ann";
  posted_at = none;
  voided_at = none;
  void_reason = none;
  lines =
      record {
        line = record {
          input = advice;
          line_no = 1;
          discount_minor = pos 0;
          net_minor = pos 10000;
          tax_minor = pos 700;
          total_minor = pos 10700;
        };
        wht = record {
          wht_tax_code_id = some "W";
          wht_tax_code = some "WHT3";
          wht_rate_bp = pos 300;
          wht_pnd_form = none;
          wht_income_type = none;
        };
        purchase_order_line_id = none;
      }
      ∷ [];
  created_at = 1;
  updated_at = 1;
}

vendor_invoice_is_created : create_vendor_invoice ⦃u = upper⦄ ⦃k = same_day⦄ props ≡ ok drafted
unfolding create_vendor_invoice decorate decorated Maps.get Maps.put Maps.from_entries is_iso_date
    trim text_length build_document_lines check_unique_ids map_lines compute_document_line whole_bp
    compute_document_totals Money.zero_of Money.of Money.is_currency_code Money.percent
    Money.round_div Money.subtract Money.multiply Money.add Money.sum_money Money.sum_money_from
    Money.same neg ◌*ℤ◌ ◌-ℤ◌ ◌+ℤ◌
vendor_invoice_is_created = refl

abbrev pub owed : VendorInvoice
owed = record drafted { status = open_status; posted_at = some 2; updated_at = 2 }

abbrev pub half_paid : VendorInvoice
half_paid = record owed {
  status = partially_paid;
  settled_minor = pos 5350;
  balance_minor = pos 5350;
  updated_at = 3;
}

vendor_invoice_is_posted : post_invoice drafted 2 true ≡ ok owed
unfolding post_invoice
vendor_invoice_is_posted = refl

vendor_invoice_is_settled : apply_settlement owed (pos 5350) 3 ≡ ok half_paid
unfolding apply_settlement ◌-ℤ◌ ◌+ℤ◌
vendor_invoice_is_settled = refl

abbrev story : drafted ⇒* half_paid
story =
    onward (posts 2 true vendor_invoice_is_posted)
      (onward (settles (pos 5350) 3 vendor_invoice_is_settled) unchanged)

created_invoice_in_force_example :
    IsValid half_paid
    × ((is_in_force half_paid.status ≡ false)
        ⊎ ((props.match_result.status ≡ matched) ⊎ (some_accepts story ≡ true)))
created_invoice_in_force_example =
    created_invoice_in_force ⦃u = upper⦄ ⦃k = same_day⦄ props vendor_invoice_is_created story

abbrev wht_base : WhtBase
wht_base = record {
  tax_code = "WHT3";
  rate_bp = pos 300;
  pnd_form = none;
  income_type = none;
  base_minor = pos 10000;
}

wht_line_bounds_example :
    (l : WhtLineInput) × (wht_line (pos 5350) (pos 10700) wht_base ≡ ok l)
    × (pos 0 ≤ℤ l.tax_minor)
    × (l.tax_minor ≤ℤ l.base_minor)
    × (l.base_minor ≤ℤ pos 10000)
    × (l.tax_minor ≤ℤ pos 5350)
    × ((pos 5350 <ℤ pos 10700) ⊎ (l.base_minor ≡ pos 10000))
wht_line_bounds_example =
    wht_line_bounds (pos 5350) (pos 10700) wht_base (omega arith) (omega arith) (omega arith)
      (omega arith) (omega arith) (omega arith)
