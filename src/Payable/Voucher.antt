-- ===== src/Payable/Voucher.antt =====
-- payment.ts: `class PaymentVoucher`. The methods return a new voucher and leave the old one.
use nestjs_api_template.Prelude.{
  Bool, List, Option, Result, Result-cases, String, [], ap, arith, false, if◌then◌else◌, inl, inr,
  ltb, none, not, ok, refl, some, throw_if, true, ℕ, ◌==◌, ◌>>=◌, ◌>>◌, ◌||◌, ◌∙◌, ◌∷◌, ◌≡◌,
}
use nestjs_api_template.Prelude.Int.{
  +ℤ_assoc, add_zero, int_laws, leb_ℤ, ltb_ℤ, pos, zero_add, ℤ, ◌+ℤ◌, ◌-ℤ◌, ◌<ℤ◌, ◌≤ℤ◌,
}
use nestjs_api_template.Prelude.Lists.{All, All-imp, Pairs, any, length, sum_by}
use nestjs_api_template.Prelude.Text.{Unicode, is_empty, or_empty, str_eq, text_length, trim}
use nestjs_api_template.Shared.IsoDate.{is_iso_date}

pub data PaymentMethod : Type 0 where
  cash : PaymentMethod
  transfer : PaymentMethod
  cheque : PaymentMethod

pub data VoucherStatus : Type 0 where
  draft : VoucherStatus
  posted : VoucherStatus
  void : VoucherStatus

pub data VoucherError : Type 0 where
  illegal_voucher_transition : String → VoucherStatus → VoucherStatus → VoucherError
  invalid_voucher : VoucherError

pub record PaymentAllocation : Type 0 where
  pub id : String
  pub invoice_id : String
  pub amount_minor : ℤ
  pub wht_minor : ℤ

pub record PaymentVoucher : Type 0 where
  pub id : String
  pub tenant_id : String
  pub company_id : String
  pub number : String
  pub vendor_id : String
  pub batch_id : Option String
  pub currency : String
  pub payment_date : String
  pub method : PaymentMethod
  pub gross_minor : ℤ
  pub wht_minor : ℤ
  pub net_paid_minor : ℤ
  pub reference : Option String
  pub cheque_number : Option String
  pub cheque_bank : Option String
  pub cheque_date : Option String
  pub notes : Option String
  pub status : VoucherStatus
  pub allocations : List PaymentAllocation
  pub version : ℕ
  pub created_by : String
  pub posted_at : Option ℕ
  pub voided_at : Option ℕ
  pub created_at : ℕ
  pub updated_at : ℕ

pub record CreateVoucherProps : Type 0 where
  pub id : String
  pub tenant_id : String
  pub company_id : String
  pub number : String
  pub vendor_id : String
  pub batch_id : Option String
  pub currency : String
  pub payment_date : String
  pub method : PaymentMethod
  pub reference : Option String
  pub cheque_number : Option String
  pub cheque_bank : Option String
  pub cheque_date : Option String
  pub notes : Option String
  pub created_by : String
  pub allocations : List PaymentAllocation
  pub now : ℕ

-- `text`
unfoldable pub clean_text : Option String → ℕ → Result VoucherError (Option String)
clean_text v max = do
  let t = trim (or_empty v)
  throw_if (ltb max (text_length t)) invalid_voucher
  ok (if text_length t == 0 then none else some t)

-- The body of the loop, with the invoices seen.
unfoldable pub check_allocation : List String → PaymentAllocation → Result VoucherError (Unit {0})
check_allocation seen a = do
  throw_if (leb_ℤ a.amount_minor (pos 0)) invalid_voucher
  throw_if (ltb_ℤ a.wht_minor (pos 0) || ltb_ℤ a.amount_minor a.wht_minor) invalid_voucher
  throw_if (any (str_eq a.invoice_id) seen) invalid_voucher

-- The loop over the allocations: the invoices seen, `gross` and `wht`.
unfoldable pub add_allocations :
    List String → ℤ → ℤ → List PaymentAllocation → Result VoucherError (ℤ × ℤ)
unfolding check_allocation
add_allocations seen gross wht [] = ok (gross, wht)
add_allocations seen gross wht (a ∷ rest) =
    check_allocation seen a
    >> add_allocations (a.invoice_id ∷ seen) (gross +ℤ a.amount_minor) (wht +ℤ a.wht_minor) rest

-- `!v` of a text that may be null.
abbrev pub is_missing : Option String → Bool
is_missing none = true
is_missing (some t) = is_empty t

unfoldable pub check_cheque :
    PaymentMethod → Option String → Option String → Option String → Result VoucherError (Unit {0})
check_cheque cash number bank date = ok tt
check_cheque transfer number bank date = ok tt
check_cheque cheque number bank date =
    throw_if
      (is_missing number || is_missing bank || is_missing date || not (is_iso_date (or_empty date)))
      invalid_voucher

unfoldable pub create_voucher :
    ⦃u : Unicode⦄ → CreateVoucherProps → Result VoucherError PaymentVoucher
create_voucher ⦃u⦄ props = do
  throw_if (not (is_iso_date props.payment_date)) invalid_voucher
  throw_if (length props.allocations == 0) invalid_voucher
  (gross, wht) ← add_allocations [] (pos 0) (pos 0) props.allocations
  cheque_number ← clean_text props.cheque_number 32
  cheque_bank ← clean_text props.cheque_bank 100
  check_cheque props.method cheque_number cheque_bank props.cheque_date
  reference ← clean_text props.reference 100
  notes ← clean_text props.notes 2000
  ok (record {
    id = props.id;
    tenant_id = props.tenant_id;
    company_id = props.company_id;
    number = props.number;
    vendor_id = props.vendor_id;
    batch_id = props.batch_id;
    currency = u.to_upper_case (trim props.currency);
    payment_date = props.payment_date;
    method = props.method;
    gross_minor = gross;
    wht_minor = wht;
    net_paid_minor = gross -ℤ wht;
    reference = reference;
    cheque_number = cheque_number;
    cheque_bank = cheque_bank;
    cheque_date = props.cheque_date;
    notes = notes;
    status = draft;
    allocations = props.allocations;
    version = 0;
    created_by = props.created_by;
    posted_at = none;
    voided_at = none;
    created_at = props.now;
    updated_at = props.now;
  })

abbrev pub is_draft : VoucherStatus → Bool
is_draft draft = true
is_draft _ = false

abbrev pub is_void : VoucherStatus → Bool
is_void void = true
is_void _ = false

unfoldable pub attach_to_batch : PaymentVoucher → String → ℕ → Result VoucherError PaymentVoucher
attach_to_batch s batch_id now = do
  throw_if (not (is_draft s.status)) (illegal_voucher_transition s.id s.status draft)
  ok (record s { batch_id = some batch_id; updated_at = now })

unfoldable pub post_voucher : PaymentVoucher → ℕ → Result VoucherError PaymentVoucher
post_voucher s now = do
  throw_if (not (is_draft s.status)) (illegal_voucher_transition s.id s.status posted)
  ok (record s { status = posted; posted_at = some now; updated_at = now })

unfoldable pub void_voucher : PaymentVoucher → ℕ → Result VoucherError PaymentVoucher
void_voucher s now = do
  throw_if (is_void s.status) (illegal_voucher_transition s.id s.status void)
  ok (record s { status = void; voided_at = some now; updated_at = now })

-- No invoice has two allocations.
abbrev pub DistinctInvoices : List PaymentAllocation → Type 0
DistinctInvoices = Pairs (λ a b. str_eq b.invoice_id a.invoice_id ≡ false)

-- An allocation is above zero, and its tax within it.
abbrev pub IsAllocation : PaymentAllocation → Type 0
IsAllocation a =
    (pos 0 <ℤ a.amount_minor) × (pos 0 ≤ℤ a.wht_minor) × (a.wht_minor ≤ℤ a.amount_minor)

abbrev pub gross_of : List PaymentAllocation → ℤ
gross_of = sum_by (λ a. a.amount_minor)

abbrev pub tax_of : List PaymentAllocation → ℤ
tax_of = sum_by (λ a. a.wht_minor)

add_allocations_lem :
    (seen : List String) (gross wht : ℤ) (rest : List PaymentAllocation) {r : ℤ × ℤ}
    → add_allocations seen gross wht rest ≡ ok r
    → All IsAllocation rest
      × All (λ a. any (str_eq a.invoice_id) seen ≡ false) rest
      × DistinctInvoices rest
      × (r ≡ (gross +ℤ gross_of rest, wht +ℤ tax_of rest))
unfolding add_allocations
add_allocations_lem seen gross wht [] h =
    (tt, tt, tt, rw (add_zero gross, add_zero wht) (ground arith))
add_allocations_lem seen gross wht (a ∷ rest) {r} h =
    let (fine, fresh, distinct, total) =
      add_allocations_lem (a.invoice_id ∷ seen) (gross +ℤ a.amount_minor) (wht +ℤ a.wht_minor) rest
        {r = r} (ground arith) in
    let later : All (λ b. any (str_eq b.invoice_id) seen ≡ false) rest =
      All-imp (λ b f. ground (arith, f)) rest fresh in
    let apart : All (λ b. str_eq b.invoice_id a.invoice_id ≡ false) rest =
      All-imp (λ b f. ground (arith, f)) rest fresh in
    (
      ((ground arith, ground arith, ground arith), fine),
      (ground arith, later),
      (apart, distinct),
      total
          ∙ rw
              (
                +ℤ_assoc gross a.amount_minor (gross_of rest),
                +ℤ_assoc wht a.wht_minor (tax_of rest),
              )
              refl,
    )

pub taxes_within :
    (list : List PaymentAllocation)
    → All IsAllocation list
    → (pos 0 ≤ℤ gross_of list) × (pos 0 ≤ℤ tax_of list) × (tax_of list ≤ℤ gross_of list)
taxes_within [] h = (omega arith, omega arith, omega arith)
taxes_within (a ∷ rest) ((p, l, w), h) =
    let (g, t, b) = taxes_within rest h in
    (omega (int_laws, p, g), omega (int_laws, l, t), omega (int_laws, w, b))

-- A voucher that is created pays what its allocations say: they name distinct invoices, each with an
-- amount above zero and a tax within it; gross and tax are their sums, the tax is within the gross,
-- and what leaves the bank is the rest.
pub create_voucher_lem :
    ⦃u : Unicode⦄ (props : CreateVoucherProps) {v : PaymentVoucher}
    → create_voucher props ≡ ok v
    → All IsAllocation v.allocations
      × DistinctInvoices v.allocations
      × (v.gross_minor ≡ gross_of v.allocations)
      × (v.wht_minor ≡ tax_of v.allocations)
      × (v.net_paid_minor +ℤ v.wht_minor ≡ v.gross_minor)
      × (pos 0 ≤ℤ v.net_paid_minor)
      × (v.status ≡ draft)
unfolding create_voucher
create_voucher_lem props {v} h =
    elim (Result-cases (add_allocations [] (pos 0) (pos 0) props.allocations)) [
      | inr (e, bad) ↦ absurd (ground arith)
      | inl ((gross, wht), fine) ↦
          let (each, _, distinct, total) =
            add_allocations_lem [] (pos 0) (pos 0) props.allocations fine in
          let (_, _, within) = taxes_within props.allocations each in
          let g : gross ≡ gross_of props.allocations = ap (λ p. p.0) total ∙ zero_add _ in
          let w : wht ≡ tax_of props.allocations = ap (λ p. p.1) total ∙ zero_add _ in
          let allocations_are : v.allocations ≡ props.allocations = ground arith in
          let gross_is : v.gross_minor ≡ gross = ground arith in
          let wht_is : v.wht_minor ≡ wht = ground arith in
          let net_is : v.net_paid_minor ≡ gross -ℤ wht = ground arith in
          rw (allocations_are, gross_is, wht_is, net_is, g, w)
            (each, distinct, refl, refl, omega int_laws, omega (int_laws, within), ground arith)
    ]
