-- ===== src/Ledger/Reports/Closable.antt =====
-- What the closing lines add up to, and when an entry accepts them.
use nestjs_api_template.Prelude.Maps
use nestjs_api_template.Ledger.Lines.{
  IsLine, JournalLineInput, LineTotals, credits, debits, validate_journal_lines,
  validate_journal_lines_iff,
}
use nestjs_api_template.Ledger.Reports.{AccountInfo, AccountSum, by_code, index}
use nestjs_api_template.Ledger.Reports.AccountSums.{index_net, net_in, net_of_sum, posted_to}
use nestjs_api_template.Ledger.Reports.Closing.{
  RetainedEarnings, build_closing_lines, close_balance, close_sum, closing_line, closing_loop,
  closing_step, is_profit_or_loss, with_result,
}
use nestjs_api_template.Prelude.{
  Bool-cases, List, Option, String, [], ap, arith, code, if◌then◌else◌, inl, inr, none, ok, refl,
  some, suc, zero, ◌++◌, ◌↔◌, ◌∙◌, ◌∷◌, ◌≡◌, ◌≢◌, ◌≤◌,
}
use nestjs_api_template.Prelude.Int.{
  +ℤ_assoc, eq_of_sub, eqb_ℤ, int_laws, neg, neg_parts, negsuc, pos, zero_add, ℤ, ◌+ℤ◌, ◌-ℤ◌,
}
use nestjs_api_template.Prelude.Lists.{
  All, All-append, All-every, length, length-append, sort_by, sum_by, sum_by-All, sum_by-append,
  sum_by-sort_by,
}
use nestjs_api_template.Prelude.Text.{text_length}

-- The lines so far are valid lines, and together they debit `net`.
record Closes (st : List JournalLineInput × ℤ) : Type 0 where
  lines_are : All IsLine st.0
  nets : debits st.0 -ℤ credits st.0 ≡ st.1

closing_line-IsLine :
    (id code : String) (b : ℤ) (d : String)
    → b ≢ pos 0
    → text_length d ≤ 200
    → IsLine (closing_line id code b d)
unfolding closing_line
closing_line-IsLine id code (pos zero) d h k = absurd (h refl)
closing_line-IsLine id code (pos (suc n)) d h k = record {
  debit_nonneg = ground arith;
  credit_nonneg = ground arith;
  one_sided = inr (ground arith, ground arith);
  short = k;
}
closing_line-IsLine id code (negsuc n) d h k = record {
  debit_nonneg = ground (arith, neg_parts (negsuc n));
  credit_nonneg = ground arith;
  one_sided = inl (ground (arith, neg_parts (negsuc n)), ground arith);
  short = k;
}

closing_line_net :
    (id code : String) (b : ℤ) (d : String)
    → (closing_line id code b d).debit_minor -ℤ (closing_line id code b d).credit_minor ≡ pos 0 -ℤ b
unfolding closing_line
closing_line_net id code (pos zero) d = refl
closing_line_net id code (pos (suc n)) d =
    let debit : (closing_line id code (pos (suc n)) d).debit_minor ≡ pos 0 = ground arith in
    let credit : (closing_line id code (pos (suc n)) d).credit_minor ≡ pos (suc n) = ground arith in
    rw (debit, credit) refl
closing_line_net id code (negsuc n) d =
    let debit : (closing_line id code (negsuc n) d).debit_minor ≡ neg (negsuc n) = ground arith in
    let credit : (closing_line id code (negsuc n) d).credit_minor ≡ pos 0 = ground arith in
    rw (debit, credit) (omega int_laws)

net-snoc :
    (ls : List JournalLineInput) (l : JournalLineInput)
    → debits (ls ++ l ∷ []) -ℤ credits (ls ++ l ∷ [])
      ≡ debits ls -ℤ credits ls +ℤ (l.debit_minor -ℤ l.credit_minor)
net-snoc ls l =
    rw
      (
        sum_by-append (λ x. x.debit_minor) ls (l ∷ []),
        sum_by-append (λ x. x.credit_minor) ls (l ∷ []),
      )
      (omega int_laws)

short_close : text_length "Year-end close" ≤ 200
unfolding text_length
short_close = omega arith

close_balance-Closes :
    (st : List JournalLineInput × ℤ) (a : AccountInfo) (b : ℤ)
    → Closes st
    → Closes (close_balance st a b) × ((close_balance st a b).1 ≡ st.1 -ℤ b)
unfolding close_balance
close_balance-Closes (ls, net) a b v = elim (Bool-cases (eqb_ℤ b (pos 0))) [
  | inl e ↦ let is_zero : b ≡ pos 0 = ground arith in rw is_zero (v, omega int_laws)
  | inr e ↦
      let line = closing_line a.id a.code b "Year-end close" in
      rw e (
        record {
          lines_are =
              All-append IsLine ls (line ∷ []) v.lines_are
                (closing_line-IsLine a.id a.code b _ (λ z. ground arith) short_close, tt);
          nets =
              net-snoc ls line
              ∙ rw (v.nets, closing_line_net a.id a.code b "Year-end close") (omega int_laws);
        },
        refl,
      )
]

close_sum-Closes :
    (st : List JournalLineInput × ℤ) (a : AccountInfo) (o : Option AccountSum)
    → Closes st
    → Closes (close_sum st a o) × ((close_sum st a o).1 ≡ st.1 -ℤ net_in o)
unfolding close_sum
close_sum-Closes st a none v = (v, omega int_laws)
close_sum-Closes st a (some s) v = close_balance-Closes st a _ v

-- What an account adds to the profit.
abbrev earned : List (String × AccountSum) → AccountInfo → ℤ
earned sums a = if is_profit_or_loss a.type then pos 0 -ℤ net_in (Maps.get a.id sums) else pos 0

closing_step-Closes :
    (sums : List (String × AccountSum)) (st : List JournalLineInput × ℤ) (a : AccountInfo)
    → Closes st
    → Closes (closing_step sums st a) × ((closing_step sums st a).1 ≡ st.1 +ℤ earned sums a)
unfolding closing_step
closing_step-Closes sums st a v = elim (Bool-cases (is_profit_or_loss a.type)) [
  | inl e ↦
      let (w, n) = close_sum-Closes st a (Maps.get a.id sums) v in rw e (w, n ∙ omega int_laws)
  | inr e ↦ rw e (v, omega int_laws)
]

closing_loop-Closes :
    (sums : List (String × AccountSum)) (st : List JournalLineInput × ℤ)
    (accounts : List AccountInfo)
    → Closes st
    → Closes (closing_loop sums st accounts)
      × ((closing_loop sums st accounts).1 ≡ st.1 +ℤ sum_by (earned sums) accounts)
unfolding closing_loop
closing_loop-Closes sums st [] v = (v, omega int_laws)
closing_loop-Closes sums st (a ∷ rest) v =
    let (w, n) = closing_step-Closes sums st a v in
    let (x, m) = closing_loop-Closes sums (closing_step sums st a) rest w in
    (x, m ∙ rw n (+ℤ_assoc _ _ _))

short_result : text_length "Year-end close: net result to retained earnings" ≤ 200
unfolding text_length
short_result = omega arith

-- The entry is accepted.
abbrev pub IsAccepted : List JournalLineInput → Type 0
IsAccepted lines = (t : LineTotals) × (validate_journal_lines lines ≡ ok t)

last-IsLine :
    (ls : List JournalLineInput) (l : JournalLineInput) → All IsLine (ls ++ l ∷ []) → IsLine l
last-IsLine [] l h = h.0
last-IsLine (x ∷ ls) l h = last-IsLine ls l h.1

no_result : (id code d : String) → ¬ IsLine (closing_line id code (pos 0) d)
unfolding closing_line
no_result id code d v = elim v.one_sided [ inl (p, e) ↦ omega arith | inr (p, e) ↦ omega arith ]

with_result_iff :
    (st : List JournalLineInput × ℤ) (retained : RetainedEarnings)
    → Closes st
    → with_result st retained ≢ []
    → length (with_result st retained) ≤ 500
    → IsAccepted (with_result st retained) ↔ (st.1 ≢ pos 0)
unfolding with_result
with_result_iff ([], net) retained v some_lines few = absurd (some_lines refl)
with_result_iff (l ∷ ls, net) retained v some_lines few =
    let text : String = "Year-end close: net result to retained earnings" in
    let line = closing_line retained.account_id retained.account_code net text in
    let rule = λ (t : LineTotals). validate_journal_lines_iff ((l ∷ ls) ++ line ∷ []) {t = t} in
    (
      λ (t, h) is_zero.
          no_result retained.account_id retained.account_code text
            (rw is_zero at (last-IsLine (l ∷ ls) line ((rule t).0 h).2)),
      λ result.
          let is_line =
            closing_line-IsLine retained.account_id retained.account_code net text result
              short_result in
          (
            _,
            (rule _).1 (
              ground (arith, length-append ls (line ∷ [])),
              few,
              All-append IsLine (l ∷ ls) (line ∷ []) v.lines_are (is_line, tt),
              eq_of_sub (
                  net-snoc (l ∷ ls) line
                  ∙ rw (v.nets, closing_line_net retained.account_id retained.account_code net text)
                      (omega int_laws)),
              refl,
            ),
          ),
    )

-- What the revenue accounts have been credited less what the expense accounts have been debited.
abbrev pub net_profit : List AccountInfo → List AccountSum → ℤ
net_profit accounts sums =
    sum_by
      (λ a. if is_profit_or_loss a.type then pos 0 -ℤ posted_to net_of_sum a.id sums else pos 0)
      accounts

-- Closing lines of at most 500, if there are any, are accepted as the lines of a journal entry
-- exactly when the year has a profit or a loss: at break-even the line for retained earnings has
-- neither a debit nor a credit, and the check of an entry refuses it.
pub closing_lines-IsAccepted_iff :
    (accounts : List AccountInfo) (cumulative : List AccountSum) (retained : RetainedEarnings)
    → build_closing_lines accounts cumulative retained ≢ []
    → length (build_closing_lines accounts cumulative retained) ≤ 500
    → IsAccepted (build_closing_lines accounts cumulative retained)
      ↔ (net_profit accounts cumulative ≢ pos 0)
unfolding build_closing_lines
closing_lines-IsAccepted_iff accounts cumulative retained some_lines few =
    let sums = index cumulative in
    let (v, n) =
      closing_loop-Closes sums ([], pos 0) (sort_by by_code accounts)
        (record { lines_are = tt; nets = omega int_laws }) in
    let profit : (closing_loop sums ([], pos 0) (sort_by by_code accounts)).1
        ≡ net_profit accounts cumulative =
      n
      ∙ zero_add _
      ∙ sum_by-sort_by by_code (earned sums) accounts
      ∙ sum_by-All _ _ accounts (
          All-every
            (λ a.
              ap (λ x. if is_profit_or_loss a.type then pos 0 -ℤ x else pos 0)
                (index_net a.id cumulative))
            accounts) in
    rw (← profit) (with_result_iff _ retained v some_lines few)
