-- ===== src/Shared/Tests.antt =====
-- Documents at concrete values, on which the theorems apply.
use nestjs_api_template.Shared.Money
use nestjs_api_template.Prelude.{[], arith, none, ok, refl, true, ◌*◌, ◌+◌, ◌<◌, ◌∷◌, ◌≡◌, ◌≤◌, ◌⊎◌}
use nestjs_api_template.Prelude.Int.{abs, is_neg, negsuc, pos, ℤ, ◌*ℤ◌, ◌+ℤ◌, ◌-ℤ◌}
use nestjs_api_template.Prelude.Text.{Unicode, integer, text_length, trim}
use nestjs_api_template.Shared.Built.{AreFresh, Zip, build_document_lines-Zip}
use nestjs_api_template.Shared.Line.{
  DocumentLineInput, DocumentLineSnapshot, DocumentTotals, build_document_lines, check_unique_ids,
  compute_document_line, compute_document_totals, manual, map_lines, whole_bp,
}
use nestjs_api_template.Shared.LineAmounts.{Amounts, compute_document_line-Amounts}
use nestjs_api_template.Shared.Money.{Money}
use nestjs_api_template.Shared.Rounding.{round_div_nearest}

-- Tables under which a text in capitals stays as it is.
abbrev ascii : Unicode
ascii = record { to_upper_case = λ s. s; locale_compare = λ a b. pos 0 }

abbrev line_input : DocumentLineInput
line_input = record {
  id = "L1";
  item_id = "I1";
  item_sku = "SKU";
  description = "bolt";
  uom_code = "PCS";
  quantity = pos 3;
  unit_price_minor = pos 333;
  price_source = manual;
  price_list_id = none;
  discount_bp = integer (pos 500);
  tax_code_id = "V";
  tax_code = "VAT7";
  tax_rate_bp = integer (pos 700);
}

abbrev line : DocumentLineSnapshot
line = record {
  input = line_input;
  line_no = 1;
  discount_minor = pos 50;
  net_minor = pos 949;
  tax_minor = pos 66;
  total_minor = pos 1015;
}

abbrev totals : DocumentTotals
totals = record {
  subtotal_minor = pos 999;
  discount_minor = pos 50;
  tax_minor = pos 66;
  total_minor = pos 1015;
}

abbrev no_money : Money
no_money = record { amount = pos 0; currency = "THB" }

thb_is_valid : Money.zero_of ⦃u = ascii⦄ "THB" ≡ ok no_money
unfolding Money.zero_of Money.of Money.is_currency_code trim
thb_is_valid = refl

line_is_computed : compute_document_line ⦃u = ascii⦄ line_input "THB" 1 ≡ ok line
unfolding compute_document_line Money.zero_of Money.of Money.is_currency_code trim whole_bp
    text_length Money.percent Money.round_div Money.subtract Money.multiply Money.add ◌*ℤ◌ ◌-ℤ◌ ◌+ℤ◌
line_is_computed = refl

lines_are_built : build_document_lines ⦃u = ascii⦄ (line_input ∷ []) "THB" ≡ ok (line ∷ [])
unfolding build_document_lines check_unique_ids map_lines
lines_are_built = rw line_is_computed refl

totals_are_computed : compute_document_totals ⦃u = ascii⦄ (line ∷ []) "THB" ≡ ok totals
unfolding compute_document_totals Money.of Money.is_currency_code trim Money.sum_money Money.zero_of
    Money.add Money.multiply Money.subtract ◌+ℤ◌ ◌*ℤ◌ ◌-ℤ◌
totals_are_computed = refl

compute_document_line-Amounts_example : Amounts line_input 1 line
compute_document_line-Amounts_example =
    compute_document_line-Amounts ⦃u = ascii⦄ line_input "THB" 1 line_is_computed

build_document_lines-Zip_example :
    (1 ≤ 500)
    × AreFresh [] (line_input ∷ [])
    × Zip (λ l i s. Amounts l (i + 1) s) 0 (line_input ∷ []) (line ∷ [])
build_document_lines-Zip_example =
    build_document_lines-Zip ⦃u = ascii⦄ (line_input ∷ []) "THB" lines_are_built

round_div_nearest_example :
    (q : ℤ) × (Money.round_div (negsuc 6) (pos 2) ≡ ok q)
    × (2 * (abs q * 2) ≤ 2 * 7 + 2)
    × (2 * 7 < 2 * (abs q * 2) + 2)
    × ((q ≡ pos 0) ⊎ (is_neg q ≡ true))
round_div_nearest_example = round_div_nearest (negsuc 6) (pos 2) (λ e. ground arith)
