-- ===== src/Ledger/Reversal.antt =====
-- The reversal of an entry: its mirrored lines pass the check that the entry's own lines passed.
use nestjs_api_template.Shared.Money
use nestjs_api_template.Ledger.Journal.{
  CreateJournalEntryProps, JournalEntry, JournalLineSnapshot, clean_description, create_entry,
  make_line, make_lines, mirror_line, reversal_lines,
}
use nestjs_api_template.Ledger.Lines.{
  IsLine, JournalLineInput, LineTotals, credits, debits, description_length, validate_journal_lines,
  validate_journal_lines_iff,
}
use nestjs_api_template.Prelude.{
  List, Option, Result-cases, String, [], ap, arith, if◌then◌else◌, inl, inr, map, none, ok, refl,
  some, suc, sym, ℕ, ◌∷◌, ◌≡◌, ◌≤◌,
}
use nestjs_api_template.Prelude.Int.{pos, ℤ, ◌+ℤ◌}
use nestjs_api_template.Prelude.Lists.{All, length, sum_by}
use nestjs_api_template.Prelude.Text.{Unicode, str_eq, text_length-trim}
use nestjs_api_template.Shared.Money.{Money}

clean_description_length :
    (d : Option String) → description_length (clean_description d) ≤ description_length d
unfolding clean_description
clean_description_length none = omega arith
clean_description_length (some d) = ground (arith, text_length-trim d)

-- A line that is made and mirrored has the amounts of its input, swapped.
module _ (i : ℕ) (line_id : String) (l : JournalLineInput) where
  abbrev mirrored : JournalLineInput
  mirrored = mirror_line (make_line i line_id l)

  mirrored-IsLine : IsLine l → IsLine mirrored
  unfolding mirror_line make_line
  mirrored-IsLine h = ground (arith, clean_description_length l.description)

-- What the mirrored lines keep of the lines of the input.
pub record IsMirror (ls ms : List JournalLineInput) : Type 0 where
  pub same_length : length ms ≡ length ls
  pub swapped_debits : debits ms ≡ credits ls
  pub swapped_credits : credits ms ≡ debits ls

pub make_lines-IsMirror :
    (i : ℕ) (ids : List String) (ls : List JournalLineInput)
    → IsMirror ls (map mirror_line (make_lines i ids ls))
unfolding make_lines mirror_line make_line
make_lines-IsMirror i ids [] = record {
  same_length = refl;
  swapped_debits = refl;
  swapped_credits = refl;
}
make_lines-IsMirror i [] (l ∷ ls) =
    let h = make_lines-IsMirror (suc i) [] ls in
    record {
      same_length = ap suc h.same_length;
      swapped_debits = ap (λ x. l.credit_minor +ℤ x) h.swapped_debits;
      swapped_credits = ap (λ x. l.debit_minor +ℤ x) h.swapped_credits;
    }
make_lines-IsMirror i (line_id ∷ ids) (l ∷ ls) =
    let h = make_lines-IsMirror (suc i) ids ls in
    record {
      same_length = ap suc h.same_length;
      swapped_debits = ap (λ x. l.credit_minor +ℤ x) h.swapped_debits;
      swapped_credits = ap (λ x. l.debit_minor +ℤ x) h.swapped_credits;
    }

mirror-IsLine :
    (i : ℕ) (ids : List String) (ls : List JournalLineInput)
    → All IsLine ls
    → All IsLine (map mirror_line (make_lines i ids ls))
unfolding make_lines
mirror-IsLine i ids [] h = tt
mirror-IsLine i [] (l ∷ ls) h = (mirrored-IsLine i "" l h.0, mirror-IsLine (suc i) [] ls h.1)
mirror-IsLine i (line_id ∷ ids) (l ∷ ls) h =
    (mirrored-IsLine i line_id l h.0, mirror-IsLine (suc i) ids ls h.1)

-- What an accepted creation has checked, and the lines and totals that it stores.
pub create_entry_lem :
    ⦃u : Unicode⦄ (props : CreateJournalEntryProps) {e : JournalEntry}
    → create_entry props ≡ ok e
    → (validate_journal_lines props.lines
        ≡ ok (record {
          total_debit_minor = e.total_debit_minor;
          total_credit_minor = e.total_credit_minor;
        }))
      × (e.lines ≡ make_lines 0 props.line_ids props.lines)
unfolding create_entry
create_entry_lem props {e} h = elim (Result-cases (validate_journal_lines props.lines)) [
  | inr (x, bad) ↦ absurd (ground arith)
  | inl (t, fine) ↦ elim (Result-cases (Money.zero_of props.currency)) [
    | inr (x, bad) ↦ absurd (ground arith)
    | inl (z, zero_is) ↦ (ground arith, ground arith)
  ]
]

abbrev swap_totals : LineTotals → LineTotals
swap_totals t = record {
  total_debit_minor = t.total_credit_minor;
  total_credit_minor = t.total_debit_minor;
}

-- An amount of the lines on an account.
abbrev pub on_account {ℓ} : {L : Type ℓ} → (L → String) → (L → ℤ) → String → List L → ℤ
on_account account amount k = sum_by (λ l. if str_eq (account l) k then amount l else pos 0)

mirror_line_on :
    (ls : List JournalLineSnapshot) (k : String)
    → (on_account (λ l. l.account_id) (λ l. l.debit_minor) k (map mirror_line ls)
        ≡ on_account (λ l. l.account_id) (λ l. l.credit_minor) k ls)
      × (on_account (λ l. l.account_id) (λ l. l.credit_minor) k (map mirror_line ls)
          ≡ on_account (λ l. l.account_id) (λ l. l.debit_minor) k ls)
unfolding mirror_line
mirror_line_on [] k = (refl, refl)
mirror_line_on (l ∷ ls) k =
    let (d, c) = mirror_line_on ls k in
    (
      ap (λ x. (if str_eq l.account_id k then l.credit_minor else pos 0) +ℤ x) d,
      ap (λ x. (if str_eq l.account_id k then l.debit_minor else pos 0) +ℤ x) c,
    )

-- The reversal lines of an entry that was created are accepted, and take back what the entry posted:
-- they debit every account by what the entry credits it, and credit it by what the entry debits it.
pub reversal_is_accepted :
    ⦃u : Unicode⦄ (props : CreateJournalEntryProps) {e : JournalEntry}
    → create_entry props ≡ ok e
    → (validate_journal_lines (reversal_lines e)
        ≡ ok (record {
          total_debit_minor = e.total_credit_minor;
          total_credit_minor = e.total_debit_minor;
        }))
      × ((k : String)
          → (on_account (λ l. l.account_id) (λ l. l.debit_minor) k (reversal_lines e)
              ≡ on_account (λ l. l.account_id) (λ l. l.credit_minor) k e.lines)
            × (on_account (λ l. l.account_id) (λ l. l.credit_minor) k (reversal_lines e)
                ≡ on_account (λ l. l.account_id) (λ l. l.debit_minor) k e.lines))
unfolding reversal_lines
reversal_is_accepted props {e} h =
    let (valid, lines_are) = create_entry_lem props h in
    let (two, many, each, balance, totals) = (validate_journal_lines_iff props.lines).0 valid in
    let m = make_lines-IsMirror 0 props.line_ids props.lines in
    (
      rw lines_are (
          (validate_journal_lines_iff (map mirror_line (make_lines 0 props.line_ids props.lines))).1
            (
              rw m.same_length two,
              rw m.same_length many,
              mirror-IsLine 0 props.line_ids props.lines each,
              rw (m.swapped_debits, m.swapped_credits) (sym balance),
              rw (m.swapped_debits, m.swapped_credits) (ap swap_totals totals),
            )),
      λ k. mirror_line_on e.lines k,
    )

-- The mirrored lines of any entry have its sums, swapped.
pub mirror_sums :
    (ls : List JournalLineSnapshot)
    → (debits (map mirror_line ls) ≡ sum_by (λ l. l.credit_minor) ls)
      × (credits (map mirror_line ls) ≡ sum_by (λ l. l.debit_minor) ls)
      × (length (map mirror_line ls) ≡ length ls)
unfolding mirror_line
mirror_sums [] = (refl, refl, refl)
mirror_sums (l ∷ ls) =
    let (d, c, n) = mirror_sums ls in
    (ap (λ x. l.credit_minor +ℤ x) d, ap (λ x. l.debit_minor +ℤ x) c, ap suc n)
