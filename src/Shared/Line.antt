-- ===== src/Shared/Line.antt =====
-- document-line.ts: the arithmetic of one line of a priced document, and of its totals.
use nestjs_api_template.Shared.Money
use nestjs_api_template.Prelude.{
  List, Option, Result, String, [], err, if◌then◌else◌, ltb, map_err, ok, suc, throw_if, ℕ, ◌+◌,
  ◌==◌, ◌>>=◌, ◌>>◌, ◌||◌, ◌∷◌,
}
use nestjs_api_template.Prelude.Int.{leb_ℤ, ltb_ℤ, pos, ℤ}
use nestjs_api_template.Prelude.Lists.{any, length}
use nestjs_api_template.Prelude.Text.{
  Number, Unicode, integer, is_empty, not_integer, str_eq, text_length, trim,
}
use nestjs_api_template.Shared.Money.{Money, MoneyError}

pub data DocumentError : Type 0 where
  invalid_document_line : DocumentError
  document_money : MoneyError → DocumentError

pub data PriceSource : Type 0 where
  price_list : PriceSource
  manual : PriceSource

abbrev pub max_document_lines : ℕ
max_document_lines = 500

abbrev pub max_discount_bp : ℤ
max_discount_bp = pos 10000

pub record DocumentLineInput : Type 0 where
  pub id : String
  pub item_id : String
  pub item_sku : String
  pub description : String
  pub uom_code : String
  pub quantity : ℤ
  pub unit_price_minor : ℤ
  pub price_source : PriceSource
  pub price_list_id : Option String
  pub discount_bp : Number
  pub tax_code_id : String
  pub tax_code : String
  pub tax_rate_bp : Number

-- A computed line: the input, with its text trimmed, and the amounts.
pub record DocumentLineSnapshot : Type 0 where
  pub input : DocumentLineInput
  pub open input use *
  pub line_no : ℕ
  pub discount_minor : ℤ
  pub net_minor : ℤ
  pub tax_minor : ℤ
  pub total_minor : ℤ

pub record DocumentTotals : Type 0 where
  pub subtotal_minor : ℤ
  pub discount_minor : ℤ
  pub tax_minor : ℤ
  pub total_minor : ℤ

-- `BigInt(v)` for an integer `v` that passes `isInt(v) && v >= 0`, or the error.
unfoldable pub whole_bp : Number → Result DocumentError ℤ
whole_bp (integer v) = if ltb_ℤ v (pos 0) then err invalid_document_line else ok v
whole_bp not_integer = err invalid_document_line

unfoldable pub compute_document_line :
    ⦃u : Unicode⦄ → DocumentLineInput → String → ℕ → Result DocumentError DocumentLineSnapshot
compute_document_line ⦃u⦄ input currency line_no = do
  throw_if (leb_ℤ input.quantity (pos 0)) invalid_document_line
  throw_if (ltb_ℤ input.unit_price_minor (pos 0)) invalid_document_line
  discount_bp ← whole_bp input.discount_bp
  throw_if (ltb_ℤ max_discount_bp discount_bp) invalid_document_line
  tax_rate_bp ← whole_bp input.tax_rate_bp
  let description = trim input.description
  throw_if (text_length description == 0 || ltb 200 (text_length description)) invalid_document_line
  let uom_code = u.to_upper_case (trim input.uom_code)
  throw_if (is_empty uom_code) invalid_document_line
  price ← map_err document_money (Money.of input.unit_price_minor currency)
  let gross = Money.multiply price input.quantity
  discount ← map_err document_money (Money.percent gross discount_bp)
  net ← map_err document_money (Money.subtract gross discount)
  tax ← map_err document_money (Money.percent net tax_rate_bp)
  total ← map_err document_money (Money.add net tax)
  ok (record {
    input = record input { description = description; uom_code = uom_code };
    line_no = line_no;
    discount_minor = discount.amount;
    net_minor = net.amount;
    tax_minor = tax.amount;
    total_minor = total.amount;
  })

-- `lines.map(f)` for an `f` that may throw, in order, with the index of each.
unfoldable pub map_lines :
    {A B : Type 0} → (A → ℕ → Result DocumentError B) → ℕ → List A → Result DocumentError (List B)
map_lines f i [] = ok []
map_lines f i (x ∷ xs) = f x i >>= λ y. map_lines f (suc i) xs >>= λ ys. ok (y ∷ ys)

unfoldable pub compute_document_totals :
    ⦃u : Unicode⦄ → List DocumentLineSnapshot → String → Result DocumentError DocumentTotals
unfolding map_lines
compute_document_totals lines currency = do
  let money = λ (v : ℤ) (i : ℕ). map_err document_money (Money.of v currency)
  grosses ←
      map_lines
        (λ (l : DocumentLineSnapshot) i.
          money l.unit_price_minor i >>= λ m. ok (Money.multiply m l.quantity))
        0 lines
  gross ← map_err document_money (Money.sum_money grosses currency)
  discounts ← map_lines (λ (l : DocumentLineSnapshot) i. money l.discount_minor i) 0 lines
  discount ← map_err document_money (Money.sum_money discounts currency)
  taxes ← map_lines (λ (l : DocumentLineSnapshot) i. money l.tax_minor i) 0 lines
  tax ← map_err document_money (Money.sum_money taxes currency)
  net ← map_err document_money (Money.subtract gross discount)
  total ← map_err document_money (Money.add net tax)
  ok (record {
    subtotal_minor = gross.amount;
    discount_minor = discount.amount;
    tax_minor = tax.amount;
    total_minor = total.amount;
  })

-- The loop that refuses a second line with the id of an earlier one; `ids` is the set built so far.
unfoldable pub check_unique_ids :
    List String → List DocumentLineInput → Result DocumentError (Unit {0})
check_unique_ids ids [] = ok tt
check_unique_ids ids (l ∷ ls) =
    throw_if (any (str_eq l.id) ids) invalid_document_line >> check_unique_ids (l.id ∷ ids) ls

unfoldable pub build_document_lines :
    ⦃u : Unicode⦄
    → List DocumentLineInput
    → String
    → Result DocumentError (List DocumentLineSnapshot)
unfolding check_unique_ids map_lines
build_document_lines inputs currency = do
  throw_if (ltb max_document_lines (length inputs)) invalid_document_line
  check_unique_ids [] inputs
  map_lines (λ l i. compute_document_line l currency (i + 1)) 0 inputs
