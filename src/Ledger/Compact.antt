-- ===== src/Ledger/Compact.antt =====
-- account-mapping.ts: keyed lines are merged and netted, and each key becomes an account.
use nestjs_api_template.Ledger.Lines.{JournalLineInput}
use nestjs_api_template.Ledger.Posting.{
  AccountKey, KeyedLine, ap_control, ar_control, bank, cash, cogs, grni, input_vat,
  inventory_adjustment, inventory_key, output_vat, purchase_expense, retained_earnings,
  sales_revenue, wht_payable, wht_receivable,
}
use nestjs_api_template.Prelude.{
  List, Option, Result, String, [], err, if◌then◌else◌, none, ok, some, ◌>>=◌, ◌∷◌,
}
use nestjs_api_template.Prelude.Int.{eqb_ℤ, ltb_ℤ, neg, pos, ℤ, ◌+ℤ◌, ◌-ℤ◌}
use nestjs_api_template.Prelude.Maps.{get, put, values}
use nestjs_api_template.Prelude.Text.{append, or_empty}

-- The text of a key in the source.
unfoldable pub key_text : AccountKey → String
key_text ar_control = "AR_CONTROL"
key_text ap_control = "AP_CONTROL"
key_text output_vat = "OUTPUT_VAT"
key_text input_vat = "INPUT_VAT"
key_text wht_payable = "WHT_PAYABLE"
key_text wht_receivable = "WHT_RECEIVABLE"
key_text sales_revenue = "SALES_REVENUE"
key_text purchase_expense = "PURCHASE_EXPENSE"
key_text cash = "CASH"
key_text bank = "BANK"
key_text inventory_key = "INVENTORY"
key_text cogs = "COGS"
key_text grni = "GRNI"
key_text inventory_adjustment = "INVENTORY_ADJUSTMENT"
key_text retained_earnings = "RETAINED_EARNINGS"

-- The key of the map: the template of the four texts with bars between.
unfoldable pub merge_id : KeyedLine → String
unfolding key_text
merge_id l = append (key_text l.account_key) (
    append "|" (
      append (or_empty l.party_type)
        (append "|" (append (or_empty l.party_id) (append "|" (or_empty l.description))))))

unfoldable pub add_to : KeyedLine → KeyedLine → KeyedLine
add_to prev l = record prev {
  debit_minor = prev.debit_minor +ℤ l.debit_minor;
  credit_minor = prev.credit_minor +ℤ l.credit_minor;
}

-- What the map holds for a line's key after the line.
unfoldable pub merged_with : Option KeyedLine → KeyedLine → KeyedLine
unfolding add_to
merged_with none l = l
merged_with (some prev) l = add_to prev l

-- The first loop.
unfoldable pub merge_lines : List (String × KeyedLine) → List KeyedLine → List (String × KeyedLine)
merge_lines m [] = m
merge_lines m (l ∷ ls) = merge_lines (put (merge_id l) (merged_with (get (merge_id l) m) l) m) ls

abbrev pub net_of : KeyedLine → ℤ
net_of l = l.debit_minor -ℤ l.credit_minor

-- A merged line on one side.
unfoldable pub net_line : KeyedLine → KeyedLine
net_line l = record l {
  debit_minor = if ltb_ℤ (pos 0) (net_of l) then net_of l else pos 0;
  credit_minor = if ltb_ℤ (net_of l) (pos 0) then neg (net_of l) else pos 0;
}

-- The second loop.
unfoldable pub net_lines : List KeyedLine → List KeyedLine
unfolding net_line
net_lines [] = []
net_lines (l ∷ ls) =
    let rest = net_lines ls in if eqb_ℤ (net_of l) (pos 0) then rest else net_line l ∷ rest

unfoldable pub compact_keyed_lines : List KeyedLine → List KeyedLine
unfolding merge_lines net_lines
compact_keyed_lines lines = net_lines (values (merge_lines [] lines))

pub record MappedAccount : Type 0 where
  pub account_id : String
  pub account_code : String

pub data MappingError : Type 0 where
  account_mapping_missing : String → AccountKey → MappingError

-- The line of an entry that a keyed line becomes.
abbrev pub resolved_line : MappedAccount → KeyedLine → JournalLineInput
resolved_line m l = record {
  account_id = m.account_id;
  account_code = m.account_code;
  debit_minor = l.debit_minor;
  credit_minor = l.credit_minor;
  description = l.description;
  party_type = l.party_type;
  party_id = l.party_id;
}

-- The `map`, which throws at the first key that has no account.
unfoldable pub resolve_keyed_lines :
    String
    → List KeyedLine
    → List (String × MappedAccount)
    → Result MappingError (List JournalLineInput)
resolve_keyed_lines company_id [] mappings = ok []
resolve_keyed_lines company_id (l ∷ ls) mappings = elim (get (key_text l.account_key) mappings) [
  | none ↦ err (account_mapping_missing company_id l.account_key)
  | some m ↦ resolve_keyed_lines company_id ls mappings >>= λ rest. ok (resolved_line m l ∷ rest)
]
