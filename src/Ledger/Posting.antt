-- ===== src/Ledger/Posting.antt =====
-- posting-rules.ts and the posting keys of account-mapping.ts: what each event of a sub-ledger
-- posts, and when that balances.
use nestjs_api_template.Prelude.{
  Bool, List, Option, String, [], false, if◌then◌else◌, none, refl, some, sym, true, ◌↔◌, ◌∷◌, ◌≡◌,
}
use nestjs_api_template.Prelude.Int.{add_zero, leb_ℤ, pos, zero_add, ℤ, ◌+ℤ◌}
use nestjs_api_template.Prelude.Lists.{sum_by}
use nestjs_api_template.Prelude.Text.{str_eq}

pub data AccountKey : Type 0 where
  ar_control : AccountKey
  ap_control : AccountKey
  output_vat : AccountKey
  input_vat : AccountKey
  wht_payable : AccountKey
  wht_receivable : AccountKey
  sales_revenue : AccountKey
  purchase_expense : AccountKey
  cash : AccountKey
  bank : AccountKey
  inventory_key : AccountKey
  cogs : AccountKey
  grni : AccountKey
  inventory_adjustment : AccountKey
  retained_earnings : AccountKey

pub record KeyedLine : Type 0 where
  pub account_key : AccountKey
  pub debit_minor : ℤ
  pub credit_minor : ℤ
  pub description : Option String
  pub party_type : Option String
  pub party_id : Option String

unfoldable pub cash_key : String → AccountKey
cash_key method = if str_eq method "CASH" then cash else bank

-- The party of a line, if it has one: its type and id.
abbrev Party : Type 0
Party = Option (String × String)

abbrev pub party_type_of : Party → Option String
party_type_of none = none
party_type_of (some p) = some p.0

abbrev pub party_id_of : Party → Option String
party_id_of none = none
party_id_of (some p) = some p.1

abbrev pub dr : AccountKey → ℤ → Party → KeyedLine
dr account_key amount party = record {
  account_key = account_key;
  debit_minor = amount;
  credit_minor = pos 0;
  description = none;
  party_type = party_type_of party;
  party_id = party_id_of party;
}

abbrev pub cr : AccountKey → ℤ → Party → KeyedLine
cr account_key amount party = record {
  account_key = account_key;
  debit_minor = pos 0;
  credit_minor = amount;
  description = none;
  party_type = party_type_of party;
  party_id = party_id_of party;
}

pub data InvoiceKind : Type 0 where
  invoice : InvoiceKind
  credit_note : InvoiceKind
  debit_note : InvoiceKind

pub record ArInvoiceFacts : Type 0 where
  pub kind : InvoiceKind
  pub customer_id : String
  pub net_minor : ℤ
  pub tax_minor : ℤ
  pub total_minor : ℤ

abbrev invoice_lines : ArInvoiceFacts → List KeyedLine
invoice_lines f =
    dr ar_control f.total_minor (some ("CUSTOMER", f.customer_id))
    ∷ cr sales_revenue f.net_minor none
    ∷ cr output_vat f.tax_minor none
    ∷ []

abbrev credit_note_lines : ArInvoiceFacts → List KeyedLine
credit_note_lines f =
    dr sales_revenue f.net_minor none
    ∷ dr output_vat f.tax_minor none
    ∷ cr ar_control f.total_minor (some ("CUSTOMER", f.customer_id))
    ∷ []

unfoldable pub ar_invoice_lines : ArInvoiceFacts → List KeyedLine
ar_invoice_lines f = elim (f.kind) [
  | credit_note ↦ credit_note_lines f
  | invoice ↦ invoice_lines f
  | debit_note ↦ invoice_lines f
]

pub record ArReceiptFacts : Type 0 where
  pub customer_id : String
  pub method : String
  pub amount_minor : ℤ
  pub wht_minor : ℤ

unfoldable pub ar_receipt_lines : ArReceiptFacts → List KeyedLine
ar_receipt_lines f =
    dr (cash_key f.method) f.amount_minor none
    ∷ dr wht_receivable f.wht_minor none
    ∷ cr ar_control (f.amount_minor +ℤ f.wht_minor) (some ("CUSTOMER", f.customer_id))
    ∷ []

pub record ApInvoiceFacts : Type 0 where
  pub vendor_id : String
  pub has_purchase_order : Bool
  pub net_minor : ℤ
  pub tax_minor : ℤ
  pub total_minor : ℤ

unfoldable pub ap_invoice_lines : ApInvoiceFacts → List KeyedLine
ap_invoice_lines f =
    dr (if f.has_purchase_order then grni else purchase_expense) f.net_minor none
    ∷ dr input_vat f.tax_minor none
    ∷ cr ap_control f.total_minor (some ("VENDOR", f.vendor_id))
    ∷ []

pub record ApPaymentFacts : Type 0 where
  pub vendor_id : String
  pub method : String
  pub gross_minor : ℤ
  pub wht_minor : ℤ
  pub net_paid_minor : ℤ

unfoldable pub ap_payment_lines : ApPaymentFacts → List KeyedLine
ap_payment_lines f =
    dr ap_control f.gross_minor (some ("VENDOR", f.vendor_id))
    ∷ cr wht_payable f.wht_minor none
    ∷ cr (cash_key f.method) f.net_paid_minor none
    ∷ []

pub record InventoryMovementFacts : Type 0 where
  pub movement_type : String
  pub cost_minor : ℤ

abbrev pair_of : AccountKey → AccountKey → ℤ → List KeyedLine
pair_of debit credit amount = dr debit amount none ∷ cr credit amount none ∷ []

unfoldable pub inventory_movement_lines : InventoryMovementFacts → List KeyedLine
inventory_movement_lines f =
    if leb_ℤ f.cost_minor (pos 0)
    then []
    else if str_eq f.movement_type "RECEIPT"
    then pair_of inventory_key grni f.cost_minor
    else if str_eq f.movement_type "ISSUE"
    then pair_of cogs inventory_key f.cost_minor
    else if str_eq f.movement_type "ADJUST_IN"
    then pair_of inventory_key inventory_adjustment f.cost_minor
    else if str_eq f.movement_type "ADJUST_OUT"
    then pair_of inventory_adjustment inventory_key f.cost_minor
    else []

abbrev pub Balances : List KeyedLine → Type 0
Balances ls = sum_by (λ l. l.debit_minor) ls ≡ sum_by (λ l. l.credit_minor) ls

-- The sums of one amount on one side and two on the other.
balance_of_three :
    (a b c : ℤ) → (a +ℤ (pos 0 +ℤ (pos 0 +ℤ pos 0)) ≡ pos 0 +ℤ (b +ℤ (c +ℤ pos 0))) ↔ (a ≡ b +ℤ c)
balance_of_three a b c = simp (add_zero, zero_add) (λ h. h, λ h. h)

balance_of_three_sym :
    (a b c : ℤ) → (b +ℤ (c +ℤ (pos 0 +ℤ pos 0)) ≡ pos 0 +ℤ (pos 0 +ℤ (a +ℤ pos 0))) ↔ (a ≡ b +ℤ c)
balance_of_three_sym a b c = simp (add_zero, zero_add) (λ h. sym h, λ h. sym h)

-- The lines of an invoice or a note of a customer balance exactly when its total is net and tax.
ar_invoice_lines-Balances :
    (f : ArInvoiceFacts)
    → Balances (ar_invoice_lines f) ↔ (f.total_minor ≡ f.net_minor +ℤ f.tax_minor)
unfolding ar_invoice_lines
ar_invoice_lines-Balances f =
    elim (f.kind)
      as (λ k.
        Balances (ar_invoice_lines (record f { kind = k }))
        ↔ (f.total_minor ≡ f.net_minor +ℤ f.tax_minor)) [
          | invoice ↦ balance_of_three f.total_minor f.net_minor f.tax_minor
          | credit_note ↦ balance_of_three_sym f.total_minor f.net_minor f.tax_minor
          | debit_note ↦ balance_of_three f.total_minor f.net_minor f.tax_minor
        ]

-- A vendor's invoice balances exactly when its total is net and tax, and a payment exactly when the
-- gross amount is the tax withheld and the amount paid.
ap_lines-Balance :
    (i : ApInvoiceFacts) (p : ApPaymentFacts)
    → (Balances (ap_invoice_lines i) ↔ (i.total_minor ≡ i.net_minor +ℤ i.tax_minor))
      × (Balances (ap_payment_lines p) ↔ (p.gross_minor ≡ p.wht_minor +ℤ p.net_paid_minor))
unfolding ap_invoice_lines ap_payment_lines
ap_lines-Balance i p = (
  balance_of_three_sym i.total_minor i.net_minor i.tax_minor,
  balance_of_three p.gross_minor p.wht_minor p.net_paid_minor,
)

pair_of-Balances : (a b : AccountKey) (amount : ℤ) → Balances (pair_of a b amount)
pair_of-Balances a b amount = simp (add_zero, zero_add) refl

Balances-if :
    (c : Bool) (xs ys : List KeyedLine)
    → Balances xs
    → Balances ys
    → Balances (if c then xs else ys)
Balances-if true xs ys h k = h
Balances-if false xs ys h k = k

-- A customer's receipt and every movement of stock balance, whatever the facts are.
receipt_and_movement-Balance :
    (r : ArReceiptFacts) (m : InventoryMovementFacts)
    → Balances (ar_receipt_lines r) × Balances (inventory_movement_lines m)
unfolding ar_receipt_lines inventory_movement_lines
receipt_and_movement-Balance r m = (
  simp (add_zero, zero_add) refl,
  Balances-if (leb_ℤ m.cost_minor (pos 0)) _ _ refl (
      Balances-if (str_eq m.movement_type "RECEIPT") _ _
        (pair_of-Balances inventory_key grni m.cost_minor)
        (Balances-if (str_eq m.movement_type "ISSUE") _ _
          (pair_of-Balances cogs inventory_key m.cost_minor)
          (Balances-if (str_eq m.movement_type "ADJUST_IN") _ _
            (pair_of-Balances inventory_key inventory_adjustment m.cost_minor)
            (Balances-if (str_eq m.movement_type "ADJUST_OUT") _ _
              (pair_of-Balances inventory_adjustment inventory_key m.cost_minor) refl)))),
)
