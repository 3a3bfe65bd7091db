-- ===== src/Payable/PayTests.antt =====
-- Payments at concrete values, on which the theorems apply.
use nestjs_api_template.Prelude.Maps
use nestjs_api_template.Shared.Money
use nestjs_api_template.Payable.Batch.{BatchStatus, PaymentBatch, invalid_batch, post_batch}
use nestjs_api_template.Payable.Certificate.{
  Certificate, build_certificate_lines, certificate_lines, group_lines, grouped_with,
}
use nestjs_api_template.Payable.Invoice.{VendorInvoice, apply_settlement}
use nestjs_api_template.Payable.Paid.{
  AllValid, draft_gross, execute_post_batch_lem, open_balance, posted_now,
}
use nestjs_api_template.Payable.Paying.{
  Invoices, Pick, allocate, allocate_all, assert_version, execute_post_batch, find_invoice,
  post_drafts, post_if_draft, post_payment, settle_all, settle_one,
}
use nestjs_api_template.Payable.Tests.{half_paid, owed, upper}
use nestjs_api_template.Payable.Voucher.{
  CreateVoucherProps, PaymentAllocation, PaymentVoucher, VoucherStatus, add_allocations, cash,
  check_allocation, check_cheque, clean_text, create_voucher, post_voucher,
}
use nestjs_api_template.Payable.Wht.{
  add_base, base_loop, compute_wht_minor, prorated_base, wht_bases, wht_line, wht_lines_for,
  wht_lines_of,
}
use nestjs_api_template.Payable.Withheld.{certificate_is_withheld}
use nestjs_api_template.Prelude.{[], arith, err, map, none, ok, refl, some, true, ◌∷◌, ◌≡◌, ◌⊎◌}
use nestjs_api_template.Prelude.Int.{pos, ◌*ℤ◌, ◌+ℤ◌, ◌-ℤ◌, ◌<ℤ◌}
use nestjs_api_template.Prelude.Text.{text_length, trim}
use nestjs_api_template.Shared.IsoDate.{is_iso_date}
use nestjs_api_template.Shared.Money.{Money}

abbrev stored : Invoices
stored = ("I", owed) ∷ []

abbrev half : Pick
half = record { allocation_id = "A"; invoice_id = "I"; amount_minor = some (pos 5350) }

abbrev allocation : PaymentAllocation
allocation = record { id = "A"; invoice_id = "I"; amount_minor = pos 5350; wht_minor = pos 150 }

abbrev voucher_props : CreateVoucherProps
voucher_props = record {
  id = "PV";
  tenant_id = "T";
  company_id = "C";
  number = "PV-1";
  vendor_id = "V1";
  batch_id = none;
  currency = "THB";
  payment_date = "2024-02-29";
  method = cash;
  reference = none;
  cheque_number = none;
  cheque_bank = none;
  cheque_date = none;
  notes = none;
  created_by = "ann";
  allocations = allocation ∷ [];
  now = 1;
}

abbrev voucher : PaymentVoucher
voucher = record {
  id = "PV";
  tenant_id = "T";
  company_id = "C";
  number = "PV-1";
  vendor_id = "V1";
  batch_id = none;
  currency = "THB";
  payment_date = "2024-02-29";
  method = cash;
  gross_minor = pos 5350;
  wht_minor = pos 150;
  net_paid_minor = pos 5200;
  reference = none;
  cheque_number = none;
  cheque_bank = none;
  cheque_date = none;
  notes = none;
  status = VoucherStatus.draft;
  allocations = allocation ∷ [];
  version = 0;
  created_by = "ann";
  posted_at = none;
  voided_at = none;
  created_at = 1;
  updated_at = 1;
}

abbrev paid_voucher : PaymentVoucher
paid_voucher = record voucher {
  status = VoucherStatus.posted;
  posted_at = some 3;
  updated_at = 3;
  version = 1;
}

abbrev settled_invoice : VendorInvoice
settled_invoice = record half_paid { version = 1 }

abbrev certified : Certificate
certified = record {
  lines =
      record {
        id = "W";
        line_no = 1;
        tax_code = "WHT3";
        income_type = "WHT3";
        rate_bp = pos 300;
        base_minor = pos 5000;
        tax_minor = pos 150;
      }
      ∷ [];
  pnd_form = "PND53";
  total_base_minor = pos 5000;
  total_tax_minor = pos 150;
}

voucher_is_created : create_voucher ⦃u = upper⦄ voucher_props ≡ ok voucher
unfolding create_voucher add_allocations check_allocation clean_text check_cheque is_iso_date trim
    text_length ◌-ℤ◌ ◌+ℤ◌
voucher_is_created = refl

half_is_allocated : allocate_all "V1" stored (half ∷ []) ≡ ok voucher.allocations
unfolding allocate_all allocate find_invoice wht_lines_for wht_lines_of wht_line wht_bases base_loop
    add_base prorated_base compute_wht_minor Money.round_div Maps.get Maps.put ◌*ℤ◌ ◌+ℤ◌
half_is_allocated = refl

voucher_is_posted :
    post_payment true stored voucher (λ n. "W") 3
    ≡ ok (("I", settled_invoice) ∷ [], paid_voucher, some certified)
unfolding post_payment settle_all settle_one find_invoice wht_lines_for wht_lines_of wht_line
    wht_bases base_loop add_base prorated_base compute_wht_minor Money.round_div apply_settlement
    post_voucher build_certificate_lines group_lines grouped_with certificate_lines Maps.get
    Maps.put ◌*ℤ◌ ◌-ℤ◌ ◌+ℤ◌
voucher_is_posted = refl

certificate_is_withheld_example :
    ((pos 150 ≡ pos 0) × (some certified ≡ none))
    ⊎ ((c : Certificate) × (pos 0 <ℤ pos 150)
        × (some certified ≡ some c)
        × (c.total_tax_minor ≡ pos 150))
certificate_is_withheld_example =
    certificate_is_withheld ⦃u = upper⦄ true "V1" stored (half ∷ []) voucher_props (λ n. "W") 3
      ((refl, (omega arith, ((omega arith, omega arith), tt))), tt) voucher_is_created
      half_is_allocated voucher_is_posted

abbrev batch : PaymentBatch
batch = record {
  id = "PB";
  tenant_id = "T";
  company_id = "C";
  number = "PB-1";
  payment_date = "2024-02-29";
  method = cash;
  currency = "THB";
  status = BatchStatus.draft;
  voucher_count = 1;
  total_net_minor = pos 5200;
  total_wht_minor = pos 150;
  version = 0;
  created_by = "ann";
  posted_at = none;
  created_at = 1;
  updated_at = 1;
}

abbrev paid_batch : PaymentBatch
paid_batch = record batch {
  status = BatchStatus.posted;
  posted_at = some 3;
  updated_at = 3;
  version = 1;
}

batch_is_posted :
    execute_post_batch (λ v. true) (λ v n. "W") stored batch (voucher ∷ []) (some 0) 3
    ≡ ok (("I", settled_invoice) ∷ [], paid_voucher ∷ [], paid_batch)
unfolding execute_post_batch assert_version post_drafts post_if_draft post_batch
batch_is_posted = rw voucher_is_posted refl

execute_post_batch_lem_example :
    AllValid (("I", settled_invoice) ∷ [])
    × (open_balance (("I", settled_invoice) ∷ []) +ℤ draft_gross (voucher ∷ [])
        ≡ open_balance stored)
    × (paid_voucher ∷ [] ≡ map (posted_now 3) (voucher ∷ []))
    × (post_batch paid_batch 4 ≡ err invalid_batch)
execute_post_batch_lem_example =
    execute_post_batch_lem (λ v. true) (λ v n. "W") stored batch (voucher ∷ []) (some 0) 3 4
      ((refl, refl, omega arith), tt) batch_is_posted
