-- ===== src/Ledger/Reports/Closing.antt =====
-- buildClosingLines of reports.ts.
use nestjs_api_template.Prelude.Maps
use nestjs_api_template.Ledger.Lines.{JournalLineInput}
use nestjs_api_template.Ledger.Reports.{
  AccountInfo, AccountSum, LedgerAccountType, by_code, expense, index, revenue,
}
use nestjs_api_template.Ledger.Reports.Statements.{type_eq}
use nestjs_api_template.Prelude.{
  Bool, List, Option, String, [], if◌then◌else◌, none, some, ◌++◌, ◌||◌, ◌∷◌,
}
use nestjs_api_template.Prelude.Int.{eqb_ℤ, ltb_ℤ, neg, pos, ℤ, ◌-ℤ◌}
use nestjs_api_template.Prelude.Lists.{sort_by}

pub record RetainedEarnings : Type 0 where
  pub account_id : String
  pub account_code : String

abbrev pub is_profit_or_loss : LedgerAccountType → Bool
is_profit_or_loss type = type_eq type revenue || type_eq type expense

-- A line that takes a balance to zero: a debit balance is credited.
unfoldable pub closing_line : String → String → ℤ → String → JournalLineInput
closing_line account_id account_code balance description = record {
  account_id = account_id;
  account_code = account_code;
  debit_minor = if ltb_ℤ balance (pos 0) then neg balance else pos 0;
  credit_minor = if ltb_ℤ (pos 0) balance then balance else pos 0;
  description = some description;
  party_type = none;
  party_id = none;
}

-- The lines so far and `net`, after the balance of an account.
unfoldable pub close_balance :
    List JournalLineInput × ℤ → AccountInfo → ℤ → List JournalLineInput × ℤ
unfolding closing_line
close_balance (lines, net) a balance =
    if eqb_ℤ balance (pos 0)
    then (lines, net)
    else (lines ++ closing_line a.id a.code balance "Year-end close" ∷ [], net -ℤ balance)

unfoldable pub close_sum :
    List JournalLineInput × ℤ → AccountInfo → Option AccountSum → List JournalLineInput × ℤ
unfolding close_balance
close_sum st a none = st
close_sum st a (some s) = close_balance st a (s.debit_minor -ℤ s.credit_minor)

-- One round of the loop.
unfoldable pub closing_step :
    List (String × AccountSum) → List JournalLineInput × ℤ → AccountInfo → List JournalLineInput × ℤ
unfolding close_sum
closing_step sums st a =
    if is_profit_or_loss a.type then close_sum st a (Maps.get a.id sums) else st

unfoldable pub closing_loop :
    List (String × AccountSum)
    → List JournalLineInput × ℤ
    → List AccountInfo
    → List JournalLineInput × ℤ
unfolding closing_step
closing_loop sums st [] = st
closing_loop sums st (a ∷ rest) = closing_loop sums (closing_step sums st a) rest

-- The line for retained earnings: `net` is positive for a profit, which is credited.
unfoldable pub with_result : List JournalLineInput × ℤ → RetainedEarnings → List JournalLineInput
with_result ([], net) retained = []
with_result (l ∷ ls, net) retained =
    (l ∷ ls)
    ++ closing_line retained.account_id retained.account_code net
        "Year-end close: net result to retained earnings"
      ∷ []

unfoldable pub build_closing_lines :
    List AccountInfo → List AccountSum → RetainedEarnings → List JournalLineInput
unfolding closing_loop with_result index sort_by
build_closing_lines accounts cumulative retained =
    with_result (closing_loop (index cumulative) ([], pos 0) (sort_by by_code accounts)) retained
