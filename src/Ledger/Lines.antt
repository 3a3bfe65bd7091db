-- ===== src/Ledger/Lines.antt =====
-- journal-entry.ts: the statuses and the lines of an entry, and what makes its lines valid.
use nestjs_api_template.Prelude.{
  Bool, List, Option, Result, Result-cases, String, [], ap, arith, false, inl, inr, ltb, none, not,
  ok, refl, some, throw_if, true, ℕ, ◌>>=◌, ◌>>◌, ◌||◌, ◌↔◌, ◌∷◌, ◌≡◌, ◌≤◌, ◌⊎◌,
}
use nestjs_api_template.Prelude.Int.{
  add_zero, eq_of_parts, eqb_ℤ, int_laws, ltb_ℤ, pos, zero_add, ℤ, ◌+ℤ◌, ◌<ℤ◌, ◌≤ℤ◌,
}
use nestjs_api_template.Prelude.Lists.{All, length, sum_by}
use nestjs_api_template.Prelude.Text.{text_length}
use nestjs_api_template.Shared.Money.{MoneyError}

pub data JournalEntryStatus : Type 0 where
  draft : JournalEntryStatus
  pending_approval : JournalEntryStatus
  posted : JournalEntryStatus
  reversed : JournalEntryStatus
  voided : JournalEntryStatus

pub data LedgerError : Type 0 where
  illegal_journal_transition : String → JournalEntryStatus → JournalEntryStatus → LedgerError
  invalid_journal_entry : LedgerError
  unbalanced_journal_entry : ℤ → ℤ → LedgerError
  ledger_money : MoneyError → LedgerError

abbrev pub max_journal_lines : ℕ
max_journal_lines = 500

pub record JournalLineInput : Type 0 where
  pub account_id : String
  pub account_code : String
  pub debit_minor : ℤ
  pub credit_minor : ℤ
  pub description : Option String
  pub party_type : Option String
  pub party_id : Option String

pub record LineTotals : Type 0 where
  pub total_debit_minor : ℤ
  pub total_credit_minor : ℤ

-- `(l.description ?? '').length`
abbrev pub description_length : Option String → ℕ
description_length none = 0
description_length (some d) = text_length d

abbrev pub bool_eq : Bool → Bool → Bool
bool_eq true b = b
bool_eq false b = not b

-- The body of the loop over the lines.
unfoldable pub check_line : JournalLineInput → Result LedgerError (Unit {0})
check_line l = do
  throw_if (ltb_ℤ l.debit_minor (pos 0) || ltb_ℤ l.credit_minor (pos 0)) invalid_journal_entry
  throw_if (bool_eq (ltb_ℤ (pos 0) l.debit_minor) (ltb_ℤ (pos 0) l.credit_minor))
      invalid_journal_entry
  throw_if (ltb 200 (description_length l.description)) invalid_journal_entry

-- The loop, from the sums so far.
unfoldable pub add_lines : ℤ → ℤ → List JournalLineInput → Result LedgerError (ℤ × ℤ)
add_lines debit credit [] = ok (debit, credit)
add_lines debit credit (l ∷ ls) =
    check_line l >> add_lines (debit +ℤ l.debit_minor) (credit +ℤ l.credit_minor) ls

unfoldable pub validate_journal_lines : List JournalLineInput → Result LedgerError LineTotals
validate_journal_lines lines = do
  throw_if (ltb (length lines) 2) invalid_journal_entry
  throw_if (ltb max_journal_lines (length lines)) invalid_journal_entry
  (debit, credit) ← add_lines (pos 0) (pos 0) lines
  throw_if (not (eqb_ℤ debit credit)) (unbalanced_journal_entry debit credit)
  ok (record { total_debit_minor = debit; total_credit_minor = credit })

-- Exactly one side of the line is above zero, the other is zero, and the description is short.
pub record IsLine (l : JournalLineInput) : Type 0 where
  pub debit_nonneg : pos 0 ≤ℤ l.debit_minor
  pub credit_nonneg : pos 0 ≤ℤ l.credit_minor
  pub one_sided :
      (pos 0 <ℤ l.debit_minor) × (l.credit_minor ≡ pos 0)
      ⊎ (pos 0 <ℤ l.credit_minor) × (l.debit_minor ≡ pos 0)
  pub short : description_length l.description ≤ 200

abbrev pub debits : List JournalLineInput → ℤ
debits = sum_by (λ l. l.debit_minor)

abbrev pub credits : List JournalLineInput → ℤ
credits = sum_by (λ l. l.credit_minor)

check_line_iff : (l : JournalLineInput) → (check_line l ≡ ok tt) ↔ IsLine l
unfolding check_line
check_line_iff l = (λ h. ground arith, λ h. ground arith)

regroup : (a b c : ℤ) → a +ℤ b +ℤ c ≡ a +ℤ (b +ℤ c)
regroup a b c = omega int_laws

add_lines_iff :
    (d c : ℤ) (ls : List JournalLineInput) {r : ℤ × ℤ}
    → (add_lines d c ls ≡ ok r) ↔ (All IsLine ls × (r ≡ (d +ℤ debits ls, c +ℤ credits ls)))
unfolding add_lines
add_lines_iff d c [] = rw (add_zero d, add_zero c) (λ h. ground arith, λ h. ground arith)
add_lines_iff d c (l ∷ ls) {r} =
    let (to, from) = add_lines_iff (d +ℤ l.debit_minor) (c +ℤ l.credit_minor) ls {r = r} in
    let (is_line, is_ok) = check_line_iff l in
    rw (← regroup d l.debit_minor (debits ls), ← regroup c l.credit_minor (credits ls))
      (
        (λ h. elim (Result-cases (check_line l)) [
          | inl (u, e) ↦ let (all_lines, sums) = to (ground arith) in ((is_line e, all_lines), sums)
          | inr (x, e) ↦ absurd (ground arith)
        ]),
        (λ h. rw (is_ok h.0.0) (from (h.0.1, h.1))),
      )

-- The lines of an entry are accepted exactly when there are 2 to 500, each is one-sided, not
-- negative and has a short description, and the debits are the credits; the totals are these sums.
pub validate_journal_lines_iff :
    (lines : List JournalLineInput) {t : LineTotals}
    → (validate_journal_lines lines ≡ ok t) ↔ (
        (2 ≤ length lines)
        × (length lines ≤ 500)
        × All IsLine lines
        × (debits lines ≡ credits lines)
        × (t ≡ record { total_debit_minor = debits lines; total_credit_minor = credits lines }))
unfolding validate_journal_lines
validate_journal_lines_iff lines {t} = (
  λ h. elim (Result-cases (add_lines (pos 0) (pos 0) lines)) [
    | inr (e, bad) ↦ absurd (ground arith)
    | inl ((d, c), fine) ↦
        let (lines_are, sums) = (add_lines_iff (pos 0) (pos 0) lines).0 fine in
        let debit : d ≡ debits lines = rw (ap (λ p. p.0) sums) (zero_add (debits lines)) in
        let credit : c ≡ credits lines = rw (ap (λ p. p.1) sums) (zero_add (credits lines)) in
        (ground arith, ground arith, lines_are, ground (arith, eq_of_parts d c), ground arith)
  ],
  λ (two, many, lines_are, balance, totals).
      let sums : add_lines (pos 0) (pos 0) lines ≡ ok (debits lines, credits lines) =
        (add_lines_iff (pos 0) (pos 0) lines).1
          (lines_are, rw (zero_add (debits lines), zero_add (credits lines)) refl) in
      ground arith,
)
