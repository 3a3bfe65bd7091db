-- ===== src/Payable/Wht.antt =====
-- The withholding tax: computeWhtMinor and proratedBase of payment.ts, whtBases of vendor-invoice.ts,
-- whtLinesFor of payment.use-cases.ts.
use nestjs_api_template.Shared.Money
use nestjs_api_template.Prelude.Maps
use nestjs_api_template.Payable.Invoice.{VendorInvoice, VendorInvoiceLine}
use nestjs_api_template.Prelude.{
  List, Option, Result, String, [], code, if◌then◌else◌, none, ok, or_else, some, ◌>>=◌, ◌||◌, ◌∷◌,
}
use nestjs_api_template.Prelude.Int.{leb_ℤ, pos, ℤ, ◌*ℤ◌, ◌+ℤ◌}
use nestjs_api_template.Prelude.Text.{is_empty}
use nestjs_api_template.Shared.Money.{Money, MoneyError}

unfoldable pub compute_wht_minor : ℤ → ℤ → Result MoneyError ℤ
compute_wht_minor base_minor rate_bp = Money.round_div (base_minor *ℤ rate_bp) (pos 10000)

unfoldable pub prorated_base : ℤ → ℤ → ℤ → Result MoneyError ℤ
prorated_base base_minor settlement_minor invoice_total_minor =
    let share = Money.round_div (base_minor *ℤ settlement_minor) invoice_total_minor in
    if leb_ℤ invoice_total_minor (pos 0)
    then ok (pos 0)
    else if leb_ℤ invoice_total_minor settlement_minor
    then ok base_minor
    else share

pub record WhtBase : Type 0 where
  pub tax_code : String
  pub rate_bp : ℤ
  pub pnd_form : Option String
  pub income_type : Option String
  pub base_minor : ℤ

-- `groups.get(l.whtTaxCode) ?? { ..., baseMinor: 0n }`
abbrev pub group_of : Option WhtBase → String → VendorInvoiceLine → WhtBase
group_of none code l = record {
  tax_code = code;
  rate_bp = l.wht.wht_rate_bp;
  pnd_form = l.wht.wht_pnd_form;
  income_type = l.wht.wht_income_type;
  base_minor = pos 0;
}
group_of (some g) code l = g

-- One round of the loop, for a line with a tax code.
unfoldable pub add_base :
    List (String × WhtBase) → VendorInvoiceLine → Option String → List (String × WhtBase)
add_base groups l none = groups
add_base groups l (some code) =
    let g = group_of (Maps.get code groups) code l in
    if is_empty code || leb_ℤ l.wht.wht_rate_bp (pos 0)
    then groups
    else Maps.put code (record g { base_minor = g.base_minor +ℤ l.net_minor }) groups

unfoldable pub base_loop :
    List (String × WhtBase) → List VendorInvoiceLine → List (String × WhtBase)
unfolding add_base
base_loop groups [] = groups
base_loop groups (l ∷ rest) = base_loop (add_base groups l l.wht.wht_tax_code) rest

unfoldable pub wht_bases : VendorInvoice → List WhtBase
unfolding base_loop
wht_bases s = Maps.values (base_loop [] s.lines)

pub record WhtLineInput : Type 0 where
  pub tax_code : String
  pub income_type : String
  pub rate_bp : ℤ
  pub pnd_form : String
  pub base_minor : ℤ
  pub tax_minor : ℤ

unfoldable pub wht_line : ℤ → ℤ → WhtBase → Result MoneyError WhtLineInput
unfolding prorated_base compute_wht_minor
wht_line settlement_minor total_minor b = do
  base ← prorated_base b.base_minor settlement_minor total_minor
  tax ← compute_wht_minor base b.rate_bp
  ok (record {
    tax_code = b.tax_code;
    income_type = or_else b.income_type b.tax_code;
    rate_bp = b.rate_bp;
    pnd_form = or_else b.pnd_form "PND53";
    base_minor = base;
    tax_minor = tax;
  })

unfoldable pub wht_lines_of : ℤ → ℤ → List WhtBase → Result MoneyError (List WhtLineInput)
unfolding wht_line
wht_lines_of settlement_minor total_minor [] = ok []
wht_lines_of settlement_minor total_minor (b ∷ rest) = do
  line ← wht_line settlement_minor total_minor b
  lines ← wht_lines_of settlement_minor total_minor rest
  ok (line ∷ lines)

unfoldable pub wht_lines_for : VendorInvoice → ℤ → Result MoneyError (List WhtLineInput)
unfolding wht_bases wht_lines_of
wht_lines_for inv settlement_minor =
    wht_lines_of settlement_minor inv.totals.total_minor (wht_bases inv)
