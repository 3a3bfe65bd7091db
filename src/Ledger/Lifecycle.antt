-- ===== src/Ledger/Lifecycle.antt =====
-- The life of an entry: the calls as a relation, and what no sequence of calls changes.
use nestjs_api_template.Ledger.Journal.{
  CreateJournalEntryProps, JournalEntry, create_entry, is_posted, make_lines, mark_reversed, post,
  reopen, submit, void_entry,
}
use nestjs_api_template.Ledger.Lines.{credits, debits, posted, reversed, validate_journal_lines_iff}
use nestjs_api_template.Ledger.Reversal.{create_entry_lem, make_lines-IsMirror, mirror_sums}
use nestjs_api_template.Prelude.{
  String, ap, arith, inl, inr, ok, refl, some, sym, true, ℕ, ◌∙◌, ◌≡◌, ◌≤◌, ◌⊎◌,
}
use nestjs_api_template.Prelude.Lists.{length, sum_by}
use nestjs_api_template.Prelude.Text.{Unicode}

-- One accepted call.
infix 40 ◌⇒◌ ◌⇒*◌
pub data ◌⇒◌ : JournalEntry → JournalEntry → Type 0 where
  submits : {s t : JournalEntry} (request : String) (now : ℕ) → submit s request now ≡ ok t → s ⇒ t
  reopens : {s t : JournalEntry} (now : ℕ) → reopen s now ≡ ok t → s ⇒ t
  posts : {s t : JournalEntry} (by : String) (now : ℕ) → post s by now ≡ ok t → s ⇒ t
  reverses :
      {s t : JournalEntry} (reversal : String) (now : ℕ)
      → mark_reversed s reversal now ≡ ok t
      → s ⇒ t
  voids : {s t : JournalEntry} (now : ℕ) → void_entry s now ≡ ok t → s ⇒ t

pub data ◌⇒*◌ : JournalEntry → JournalEntry → Type 0 where
  unchanged : {s : JournalEntry} → s ⇒* s
  onward : {s t u : JournalEntry} → s ⇒ t → t ⇒* u → s ⇒* u

-- What belongs to the books: the lines with their totals, the date and the currency.
pub record SameBooks (s t : JournalEntry) : Type 0 where
  pub same_lines : t.lines ≡ s.lines
  pub same_debit : t.total_debit_minor ≡ s.total_debit_minor
  pub same_credit : t.total_credit_minor ≡ s.total_credit_minor
  pub same_date : t.entry_date ≡ s.entry_date
  pub same_currency : t.currency ≡ s.currency

⇒-SameBooks : {s t : JournalEntry} → s ⇒ t → SameBooks s t
unfolding submit reopen post mark_reversed void_entry
⇒-SameBooks (submits request now h) = ground arith
⇒-SameBooks (reopens now h) = ground arith
⇒-SameBooks (posts by now h) = ground arith
⇒-SameBooks (reverses reversal now h) = ground arith
⇒-SameBooks (voids now h) = ground arith

both : {s t u : JournalEntry} → SameBooks s t → SameBooks t u → SameBooks s u
both x y = record {
  same_lines = y.same_lines ∙ x.same_lines;
  same_debit = y.same_debit ∙ x.same_debit;
  same_credit = y.same_credit ∙ x.same_credit;
  same_date = y.same_date ∙ x.same_date;
  same_currency = y.same_currency ∙ x.same_currency;
}

-- No sequence of calls changes the lines, the totals, the date or the currency of an entry.
history-SameBooks : {s t : JournalEntry} → s ⇒* t → SameBooks s t
history-SameBooks unchanged = record {
  same_lines = refl;
  same_debit = refl;
  same_credit = refl;
  same_date = refl;
  same_currency = refl;
}
history-SameBooks (onward a p) = both (⇒-SameBooks a) (history-SameBooks p)

-- The entry, marked as reversed by another.
abbrev pub marked : JournalEntry → String → ℕ → JournalEntry
marked s reversal now = record s {
  status = reversed;
  reversed_by_id = some reversal;
  updated_at = now;
}

⇒-posted :
    {s t : JournalEntry}
    → s ⇒ t
    → is_posted s ≡ true
    → (s.status ≡ posted) × ((reversal : String) × (now : ℕ) × (t ≡ marked s reversal now))
unfolding submit reopen post mark_reversed void_entry
⇒-posted (submits request now h) p = absurd (ground arith)
⇒-posted (reopens now h) p = absurd (ground arith)
⇒-posted (posts by now h) p = absurd (ground arith)
⇒-posted (reverses reversal now h) p = (ground arith, (reversal, now, ground arith))
⇒-posted (voids now h) p = absurd (ground arith)

-- No call is accepted on a reversed entry.
reversed_is_final : {s t : JournalEntry} → s ⇒ t → ¬ (s.status ≡ reversed)
unfolding submit reopen post mark_reversed void_entry
reversed_is_final (submits request now h) p = absurd (ground arith)
reversed_is_final (reopens now h) p = absurd (ground arith)
reversed_is_final (posts by now h) p = absurd (ground arith)
reversed_is_final (reverses reversal now h) p = absurd (ground arith)
reversed_is_final (voids now h) p = absurd (ground arith)

reversed_stays : {s t : JournalEntry} → s ⇒* t → s.status ≡ reversed → t ≡ s
reversed_stays unchanged p = refl
reversed_stays (onward a q) p = absurd (reversed_is_final a p)

-- An entry that counts towards the balances counts for ever: after it was posted, any sequence of
-- calls leaves the whole entry as it is, or does nothing but mark it as reversed by another entry.
pub history_stays_posted :
    {s t : JournalEntry}
    → s ⇒* t
    → is_posted s ≡ true
    → (is_posted t ≡ true)
      × ((t ≡ s) ⊎ ((reversal : String) × (now : ℕ) × (t ≡ marked s reversal now)))
history_stays_posted unchanged p = (p, inl refl)
history_stays_posted (onward a q) p =
    let (was, (reversal, now, done)) = ⇒-posted a p in
    let same = reversed_stays q (rw done refl) ∙ done in (rw same refl, inr (reversal, now, same))

-- Whatever calls follow the creation of an entry, its debits are its credits, line by line and in
-- the totals, and it has at least two lines.
pub created_history_is_balanced :
    ⦃u : Unicode⦄ (props : CreateJournalEntryProps) {s t : JournalEntry}
    → create_entry props ≡ ok s
    → s ⇒* t
    → (t.total_debit_minor ≡ t.total_credit_minor)
      × (sum_by (λ l. l.debit_minor) t.lines ≡ t.total_debit_minor)
      × (sum_by (λ l. l.credit_minor) t.lines ≡ t.total_credit_minor)
      × (2 ≤ length t.lines)
created_history_is_balanced props {s} {t} h p =
    let (valid, lines_are) = create_entry_lem props h in
    let (two, many, each, balance, totals) = (validate_journal_lines_iff props.lines).0 valid in
    let m = make_lines-IsMirror 0 props.line_ids props.lines in
    let (d, c, n) = mirror_sums (make_lines 0 props.line_ids props.lines) in
    let books = history-SameBooks p in
    let debit : s.total_debit_minor ≡ debits props.lines = ap (λ t. t.total_debit_minor) totals in
    let credit : s.total_credit_minor ≡ credits props.lines =
      ap (λ t. t.total_credit_minor) totals in
    rw (books.same_lines, books.same_debit, books.same_credit, lines_are, debit, credit)
      (balance, sym c ∙ m.swapped_credits, sym d ∙ m.swapped_debits, rw (sym n ∙ m.same_length) two)
