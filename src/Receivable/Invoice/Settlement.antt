-- ===== src/Receivable/Invoice/Settlement.antt =====
-- What has been settled of an invoice, and what is open.
use nestjs_api_template.Prelude.{
  Bool, Bool-cases, arith, false, if◌then◌else◌, inl, inr, not, ok, refl, sym, true, ℕ, ◌&&◌, ◌↔◌,
  ◌≡◌,
}
use nestjs_api_template.Prelude.Int.{
  eq_of_sub, eqb_ℤ, int_laws, pos, ℤ, ◌+ℤ◌, ◌-ℤ◌, ◌<ℤ◌, ◌≤ℤ◌, -ℤ_parts,
}
use nestjs_api_template.Prelude.Lists.{any}
use nestjs_api_template.Receivable.Invoice.Methods.{
  apply_settlement, is_open, open_statuses, reverse_settlement, status_eq,
}
use nestjs_api_template.Receivable.Invoice.State.{
  InvoiceStatus, SalesInvoice, applied, draft, issued, paid, partially_paid, void,
}
use nestjs_api_template.Shared.Settled.{fits_balance, sum_minus}

-- What the status says of the amounts.
abbrev pub SettledAs : InvoiceStatus → ℤ → ℤ → ℤ → Type 0
SettledAs draft total settled balance = (settled ≡ pos 0) × (balance ≡ total)
SettledAs issued total settled balance = (settled ≡ pos 0) × (balance ≡ total) × (pos 0 <ℤ total)
SettledAs partially_paid total settled balance =
    (pos 0 <ℤ settled) × (settled <ℤ total) × (balance ≡ total -ℤ settled)
SettledAs paid total settled balance = (settled ≡ total) × (balance ≡ pos 0) × (pos 0 <ℤ total)
SettledAs applied total settled balance = (settled ≡ total) × (balance ≡ pos 0) × (pos 0 <ℤ total)
SettledAs void total settled balance = (settled ≡ pos 0) × (balance ≡ pos 0)

abbrev pub IsValid : SalesInvoice → Type 0
IsValid s = SettledAs s.status s.totals.total_minor s.settled_minor s.balance_minor

-- Of an open invoice less than the total is settled, and the balance is the rest.
open_amounts :
    (st : InvoiceStatus) (total settled balance : ℤ)
    → any (status_eq st) open_statuses ≡ true
    → SettledAs st total settled balance
    → (pos 0 ≤ℤ settled) × (settled <ℤ total) × (balance ≡ total -ℤ settled)
open_amounts issued total settled balance h (none_yet, full, positive) =
    rw (none_yet, full) (omega arith, omega (arith, positive), omega int_laws)
open_amounts partially_paid total settled balance h (some_yet, less, rest) =
    (omega (arith, some_yet), less, rest)
open_amounts draft total settled balance h v = absurd (ground arith)
open_amounts paid total settled balance h v = absurd (ground arith)
open_amounts applied total settled balance h v = absurd (ground arith)
open_amounts void total settled balance h v = absurd (ground arith)

-- Of an invoice that is paid, in whole or in part, something is settled.
paid_amounts :
    (st : InvoiceStatus) (total settled balance : ℤ)
    → (not (status_eq st paid) && not (status_eq st partially_paid)) ≡ false
    → SettledAs st total settled balance
    → (pos 0 <ℤ settled) × (settled ≤ℤ total)
paid_amounts paid total settled balance h (same, closed, positive) = rw same (positive, omega arith)
paid_amounts partially_paid total settled balance h (some_yet, less, rest) =
    (some_yet, omega (arith, less))
paid_amounts draft total settled balance h v = absurd (ground arith)
paid_amounts issued total settled balance h v = absurd (ground arith)
paid_amounts applied total settled balance h v = absurd (ground arith)
paid_amounts void total settled balance h v = absurd (ground arith)

settled_more :
    (total settled : ℤ)
    → pos 0 <ℤ settled
    → settled ≤ℤ total
    → SettledAs
        (if eqb_ℤ (total -ℤ settled) (pos 0) then paid else partially_paid)
        total
        settled
        (total -ℤ settled)
settled_more total settled h k = elim (Bool-cases (eqb_ℤ (total -ℤ settled) (pos 0))) [
  | inl e ↦
      let zero : total -ℤ settled ≡ pos 0 = ground arith in
      rw e (sym (eq_of_sub zero), zero, omega (arith, h, k))
  | inr e ↦ rw e (h, ground (arith, -ℤ_parts total settled), refl)
]

settled_less :
    (total settled : ℤ)
    → pos 0 ≤ℤ settled
    → settled <ℤ total
    → SettledAs
        (if eqb_ℤ settled (pos 0) then issued else partially_paid)
        total
        settled
        (total -ℤ settled)
settled_less total settled h k = elim (Bool-cases (eqb_ℤ settled (pos 0))) [
  | inl e ↦
      let zero : settled ≡ pos 0 = ground arith in
      rw zero (refl, omega int_laws, omega (arith, k, h))
  | inr e ↦ rw e (ground arith, k, refl)
]

-- The invoice after a settlement, and after a reversal.
abbrev pub settled_by : SalesInvoice → ℤ → ℕ → SalesInvoice
settled_by s amount now =
    let settled = s.settled_minor +ℤ amount in
    let balance = s.totals.total_minor -ℤ settled in
    record s {
      settled_minor = settled;
      balance_minor = balance;
      status = if eqb_ℤ balance (pos 0) then paid else partially_paid;
      updated_at = now;
    }

abbrev pub reversed_by : SalesInvoice → ℤ → ℕ → SalesInvoice
reversed_by s amount now =
    let settled = s.settled_minor -ℤ amount in
    record s {
      settled_minor = settled;
      balance_minor = s.totals.total_minor -ℤ settled;
      status = if eqb_ℤ settled (pos 0) then issued else partially_paid;
      updated_at = now;
    }

-- A valid invoice accepts a settlement exactly when it is open and the amount is positive and within
-- the balance.
pub apply_settlement_iff :
    (s : SalesInvoice) (amount : ℤ) (now : ℕ) {t : SalesInvoice}
    → IsValid s
    → (apply_settlement s amount now ≡ ok t) ↔ (
        (is_open s ≡ true)
        × (pos 0 <ℤ amount)
        × (s.settled_minor +ℤ amount ≤ℤ s.totals.total_minor)
        × (t ≡ settled_by s amount now))
unfolding apply_settlement
apply_settlement_iff s amount now {t} v = (
  λ h.
      let opened : is_open s ≡ true = ground arith in
      let (nonneg, less, rest) =
        open_amounts s.status s.totals.total_minor s.settled_minor s.balance_minor opened v in
      let (to, from) =
        fits_balance s.totals.total_minor s.settled_minor s.balance_minor amount rest in
      (opened, ground arith, to (ground arith), ground arith),
  λ (opened, positive, fits, end).
      let (nonneg, less, rest) =
        open_amounts s.status s.totals.total_minor s.settled_minor s.balance_minor opened v in
      let (to, from) =
        fits_balance s.totals.total_minor s.settled_minor s.balance_minor amount rest in
      ground (arith, from fits),
)

pub apply_settlement-IsValid :
    (s : SalesInvoice) (amount : ℤ) (now : ℕ) {t : SalesInvoice}
    → IsValid s
    → apply_settlement s amount now ≡ ok t
    → IsValid t
apply_settlement-IsValid s amount now {t} v h =
    let (opened, positive, fits, end) = (apply_settlement_iff s amount now v).0 h in
    let (nonneg, _, _) =
      open_amounts s.status s.totals.total_minor s.settled_minor s.balance_minor opened v in
    rw end (
      settled_more s.totals.total_minor (s.settled_minor +ℤ amount)
        (omega (int_laws, nonneg, positive)) fits)

pub reverse_settlement_iff :
    (s : SalesInvoice) (amount : ℤ) (now : ℕ) {t : SalesInvoice}
    → (reverse_settlement s amount now ≡ ok t) ↔ (
        ((not (status_eq s.status paid) && not (status_eq s.status partially_paid)) ≡ false)
        × (pos 0 <ℤ amount)
        × (amount ≤ℤ s.settled_minor)
        × (t ≡ reversed_by s amount now))
unfolding reverse_settlement
reverse_settlement_iff s amount now = (λ h. ground arith, λ h. ground arith)

pub reverse_settlement-IsValid :
    (s : SalesInvoice) (amount : ℤ) (now : ℕ) {t : SalesInvoice}
    → IsValid s
    → reverse_settlement s amount now ≡ ok t
    → IsValid t
reverse_settlement-IsValid s amount now {t} v h =
    let (was, positive, fits, end) = (reverse_settlement_iff s amount now).0 h in
    let (above, within) =
      paid_amounts s.status s.totals.total_minor s.settled_minor s.balance_minor was v in
    rw end (
      settled_less s.totals.total_minor (s.settled_minor -ℤ amount) (omega (int_laws, fits))
        (omega (int_laws, positive, within)))

status_back :
    (st : InvoiceStatus) (total settled balance : ℤ)
    → any (status_eq st) open_statuses ≡ true
    → SettledAs st total settled balance
    → (if eqb_ℤ settled (pos 0) then issued else partially_paid) ≡ st
status_back issued total settled balance h v = rw v.0 refl
status_back partially_paid total settled balance h v = ground (arith, v.0)
status_back draft total settled balance h v = absurd (ground arith)
status_back paid total settled balance h v = absurd (ground arith)
status_back applied total settled balance h v = absurd (ground arith)
status_back void total settled balance h v = absurd (ground arith)

paid_guard :
    (c : Bool) (st : InvoiceStatus)
    → st ≡ (if c then paid else partially_paid)
    → (not (status_eq st paid) && not (status_eq st partially_paid)) ≡ false
paid_guard true st e = rw e refl
paid_guard false st e = rw e refl

-- A settlement that is reversed gives the invoice back, but for the time of the change.
pub reverse_settlement-apply_settlement :
    (s : SalesInvoice) (amount : ℤ) (now later : ℕ) {t : SalesInvoice}
    → IsValid s
    → apply_settlement s amount now ≡ ok t
    → reverse_settlement t amount later ≡ ok (record s { updated_at = later })
reverse_settlement-apply_settlement s amount now later {t} v h =
    let (opened, positive, fits, end) = (apply_settlement_iff s amount now v).0 h in
    let (nonneg, less, rest) =
      open_amounts s.status s.totals.total_minor s.settled_minor s.balance_minor opened v in
    let back = status_back s.status s.totals.total_minor s.settled_minor s.balance_minor opened v in
    let same : record s { updated_at = later }
        ≡ reversed_by (settled_by s amount now) amount later =
      rw (sum_minus s.settled_minor amount, ← rest, back) refl in
    rw end (
      (reverse_settlement_iff (settled_by s amount now) amount later).1
        (paid_guard _ _ refl, positive, omega (int_laws, nonneg), same))
