-- ===== src/Receivable/Receipt.antt =====
-- receipt.ts: `class Receipt`. The methods return a new receipt and leave the old one.
use nestjs_api_template.Prelude.{
  Bool, List, Option, Result, Result-cases, String, [], ap, arith, false, if◌then◌else◌, inl, inr,
  ltb, none, not, ok, or_else, refl, some, sym, throw_if, true, ℕ, ◌==◌, ◌>>=◌, ◌>>◌, ◌||◌, ◌∙◌,
  ◌∷◌, ◌≡◌,
}
use nestjs_api_template.Prelude.Int.{
  +ℤ_assoc, add_zero, leb_ℤ, ltb_ℤ, pos, zero_add, ℤ, ◌+ℤ◌, ◌<ℤ◌, ◌≤ℤ◌,
}
use nestjs_api_template.Prelude.Lists.{All, All-both, Pairs, any, sum_by}
use nestjs_api_template.Prelude.Text.{Unicode, is_empty, or_empty, str_eq, text_length, trim}
use nestjs_api_template.Shared.IsoDate.{is_iso_date}

pub data ReceiptMethod : Type 0 where
  cash : ReceiptMethod
  transfer : ReceiptMethod
  cheque : ReceiptMethod
  prompt_pay : ReceiptMethod

pub data ReceiptStatus : Type 0 where
  draft : ReceiptStatus
  posted : ReceiptStatus
  void : ReceiptStatus

pub data ReceiptError : Type 0 where
  illegal_receipt_transition : String → ReceiptStatus → ReceiptStatus → ReceiptError
  invalid_receipt : ReceiptError

pub record Allocation : Type 0 where
  pub id : String
  pub invoice_id : String
  pub amount_minor : ℤ

pub record Receipt : Type 0 where
  pub id : String
  pub tenant_id : String
  pub company_id : String
  pub number : String
  pub customer_id : String
  pub currency : String
  pub receipt_date : String
  pub method : ReceiptMethod
  pub amount_minor : ℤ
  pub wht_minor : ℤ
  pub reference : Option String
  pub cheque_number : Option String
  pub cheque_bank : Option String
  pub cheque_date : Option String
  pub notes : Option String
  pub status : ReceiptStatus
  pub allocations : List Allocation
  pub version : ℕ
  pub created_by : String
  pub posted_at : Option ℕ
  pub voided_at : Option ℕ
  pub created_at : ℕ
  pub updated_at : ℕ

pub record CreateReceiptProps : Type 0 where
  pub id : String
  pub tenant_id : String
  pub company_id : String
  pub number : String
  pub customer_id : String
  pub currency : String
  pub receipt_date : String
  pub method : ReceiptMethod
  pub amount_minor : ℤ
  pub wht_minor : Option ℤ
  pub reference : Option String
  pub cheque_number : Option String
  pub cheque_bank : Option String
  pub cheque_date : Option String
  pub notes : Option String
  pub created_by : String
  pub allocations : Option (List Allocation)
  pub now : ℕ

unfoldable pub clean_text : Option String → ℕ → Result ReceiptError (Option String)
clean_text v max = do
  let t = trim (or_empty v)
  throw_if (ltb max (text_length t)) invalid_receipt
  ok (if text_length t == 0 then none else some t)

-- The loop over the allocations, with the invoices seen and the sum so far.
unfoldable pub check_allocations : List String → ℤ → List Allocation → Result ReceiptError ℤ
check_allocations seen sum [] = ok sum
check_allocations seen sum (a ∷ rest) =
    throw_if (leb_ℤ a.amount_minor (pos 0)) invalid_receipt
    >> throw_if (any (str_eq a.invoice_id) seen) invalid_receipt
    >> check_allocations (a.invoice_id ∷ seen) (sum +ℤ a.amount_minor) rest

unfoldable pub validate_allocations : List Allocation → ℤ → Result ReceiptError (Unit {0})
validate_allocations allocs settlement = do
  sum ← check_allocations [] (pos 0) allocs
  throw_if (ltb_ℤ settlement sum) invalid_receipt

-- `!v` of a text that may be null.
abbrev pub is_missing : Option String → Bool
is_missing none = true
is_missing (some t) = is_empty t

-- What the method of payment needs.
unfoldable pub check_method :
    ReceiptMethod
    → Option String
    → Option String
    → Option String
    → Option String
    → Result ReceiptError (Unit {0})
check_method cash reference number bank date = ok tt
check_method prompt_pay reference number bank date = ok tt
check_method transfer reference number bank date = throw_if (is_missing reference) invalid_receipt
check_method cheque reference number bank date =
    throw_if (is_missing number || is_missing bank || is_missing date) invalid_receipt
    >> throw_if (not (is_iso_date (or_empty date))) invalid_receipt

unfoldable pub create_receipt : ⦃u : Unicode⦄ → CreateReceiptProps → Result ReceiptError Receipt
create_receipt ⦃u⦄ props = do
  throw_if (not (is_iso_date props.receipt_date)) invalid_receipt
  let wht = or_else props.wht_minor (pos 0)
  throw_if (ltb_ℤ props.amount_minor (pos 0) || ltb_ℤ wht (pos 0)) invalid_receipt
  throw_if (leb_ℤ (props.amount_minor +ℤ wht) (pos 0)) invalid_receipt
  reference ← clean_text props.reference 100
  cheque_number ← clean_text props.cheque_number 32
  cheque_bank ← clean_text props.cheque_bank 100
  check_method props.method reference cheque_number cheque_bank props.cheque_date
  let allocations = or_else props.allocations []
  validate_allocations allocations (props.amount_minor +ℤ wht)
  notes ← clean_text props.notes 2000
  ok (record {
    id = props.id;
    tenant_id = props.tenant_id;
    company_id = props.company_id;
    number = props.number;
    customer_id = props.customer_id;
    currency = u.to_upper_case (trim props.currency);
    receipt_date = props.receipt_date;
    method = props.method;
    amount_minor = props.amount_minor;
    wht_minor = wht;
    reference = reference;
    cheque_number = cheque_number;
    cheque_bank = cheque_bank;
    cheque_date = props.cheque_date;
    notes = notes;
    status = draft;
    allocations = allocations;
    version = 0;
    created_by = props.created_by;
    posted_at = none;
    voided_at = none;
    created_at = props.now;
    updated_at = props.now;
  })

abbrev pub is_draft : ReceiptStatus → Bool
is_draft draft = true
is_draft _ = false

abbrev pub is_void : ReceiptStatus → Bool
is_void void = true
is_void _ = false

unfoldable pub settlement_minor : Receipt → ℤ
settlement_minor s = s.amount_minor +ℤ s.wht_minor

unfoldable pub set_allocations : Receipt → List Allocation → ℕ → Result ReceiptError Receipt
unfolding settlement_minor
set_allocations s allocations now = do
  throw_if (not (is_draft s.status)) (illegal_receipt_transition s.id s.status draft)
  validate_allocations allocations (settlement_minor s)
  ok (record s { allocations = allocations; updated_at = now })

unfoldable pub post_receipt : Receipt → ℕ → Result ReceiptError Receipt
post_receipt s now = do
  throw_if (not (is_draft s.status)) (illegal_receipt_transition s.id s.status posted)
  ok (record s { status = posted; posted_at = some now; updated_at = now })

unfoldable pub void_receipt : Receipt → ℕ → Result ReceiptError Receipt
void_receipt s now = do
  throw_if (is_void s.status) (illegal_receipt_transition s.id s.status void)
  ok (record s { status = void; voided_at = some now; updated_at = now })

-- No invoice has two allocations.
abbrev pub DistinctInvoices : List Allocation → Type 0
DistinctInvoices = Pairs (λ a b. str_eq b.invoice_id a.invoice_id ≡ false)

check_allocations_lem :
    (seen : List String) (sum : ℤ) (rest : List Allocation) {r : ℤ}
    → check_allocations seen sum rest ≡ ok r
    → All (λ a. pos 0 <ℤ a.amount_minor) rest
      × All (λ a. any (str_eq a.invoice_id) seen ≡ false) rest
      × DistinctInvoices rest
      × (r ≡ sum +ℤ sum_by (λ a. a.amount_minor) rest)
unfolding check_allocations
check_allocations_lem seen sum [] h = (tt, tt, tt, rw (add_zero sum) (ground arith))
check_allocations_lem seen sum (a ∷ rest) h =
    let (positive, fresh, distinct, total) =
      check_allocations_lem (a.invoice_id ∷ seen) (sum +ℤ a.amount_minor) rest (ground arith) in
    let later = All-both (λ b f g. ground (arith, f)) rest fresh fresh in
    let apart = All-both (λ b f g. ground (arith, f)) rest fresh fresh in
    (
      (ground arith, positive),
      (ground arith, later),
      (apart, distinct),
      total ∙ +ℤ_assoc sum a.amount_minor _,
    )

-- Allocations that are accepted are positive, of distinct invoices, and within the settlement.
pub validate_allocations_lem :
    (allocs : List Allocation) (settlement : ℤ)
    → validate_allocations allocs settlement ≡ ok tt
    → All (λ a. pos 0 <ℤ a.amount_minor) allocs
      × DistinctInvoices allocs
      × (sum_by (λ a. a.amount_minor) allocs ≤ℤ settlement)
unfolding validate_allocations
validate_allocations_lem allocs settlement h =
    elim (Result-cases (check_allocations [] (pos 0) allocs)) [
      | inr (e, bad) ↦ absurd (ground arith)
      | inl (sum, fine) ↦
          let (positive, _, distinct, total) = check_allocations_lem [] (pos 0) allocs fine in
          let within : sum ≤ℤ settlement = ground arith in
          (positive, distinct, rw (total ∙ zero_add _) at within)
    ]

check_allocations_total :
    (seen : List String) (sum : ℤ) (rest : List Allocation)
    → All (λ a. pos 0 <ℤ a.amount_minor) rest
    → All (λ a. any (str_eq a.invoice_id) seen ≡ false) rest
    → DistinctInvoices rest
    → check_allocations seen sum rest ≡ ok (sum +ℤ sum_by (λ a. a.amount_minor) rest)
unfolding check_allocations
check_allocations_total seen sum [] p f d = ap ok (sym (add_zero sum))
check_allocations_total seen sum (a ∷ rest) p f d =
    let later = All-both (λ b g ne. ground (arith, g, ne)) rest f.1 d.0 in
    let tail =
      check_allocations_total (a.invoice_id ∷ seen) (sum +ℤ a.amount_minor) rest p.1 later d.1 in
    ground (arith, p.0, f.0, tail ∙ ap ok (+ℤ_assoc sum a.amount_minor _))

-- Positive allocations of distinct invoices within the settlement are accepted.
pub validate_allocations_of :
    (allocs : List Allocation) (settlement : ℤ)
    → All (λ a. pos 0 <ℤ a.amount_minor) allocs
    → DistinctInvoices allocs
    → sum_by (λ a. a.amount_minor) allocs ≤ℤ settlement
    → validate_allocations allocs settlement ≡ ok tt
unfolding validate_allocations
validate_allocations_of allocs settlement p d within =
    let none_seen = All-both (λ a g h. refl) allocs p p in
    let sums = check_allocations_total [] (pos 0) allocs p none_seen d in
    ground (arith, sums ∙ ap ok (zero_add _), within)
