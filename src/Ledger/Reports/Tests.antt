-- ===== src/Ledger/Reports/Tests.antt =====
-- A small ledger at concrete values, on which the theorems about the reports apply.
use nestjs_api_template.Prelude.Maps
use nestjs_api_template.Ledger.Lines.{JournalLineInput}
use nestjs_api_template.Ledger.Reports.{
  AccountInfo, AccountSum, LedgerAccountType, asset, expense, index, index_from, revenue,
  summed_with,
}
use nestjs_api_template.Ledger.Reports.AccountSums.{
  AreDistinct, Covers, credit_in, debit_in, index_sides, posted_to,
}
use nestjs_api_template.Ledger.Reports.Balanced.{IsBalanced, trial_balance-IsBalanced}
use nestjs_api_template.Ledger.Reports.BalancedSheet.{balance_sheet-IsBalanced}
use nestjs_api_template.Ledger.Reports.Closable.{
  IsAccepted, closing_lines-IsAccepted_iff, net_profit,
}
use nestjs_api_template.Ledger.Reports.Closing.{
  RetainedEarnings, build_closing_lines, close_balance, close_sum, closing_line, closing_loop,
  closing_step, with_result,
}
use nestjs_api_template.Ledger.Reports.Statements.{build_balance_sheet}
use nestjs_api_template.Ledger.Reports.Trial.{build_trial_balance}
use nestjs_api_template.Prelude.{
  List, String, [], arith, code, none, refl, sym, true, ◌↔◌, ◌∙◌, ◌∷◌, ◌≡◌, ◌≢◌, ◌≤◌,
}
use nestjs_api_template.Prelude.Int.{negsuc, pos, ℤ, ◌+ℤ◌, ◌-ℤ◌}
use nestjs_api_template.Prelude.Lists.{insert_by, length, sort_by, sum_by}
use nestjs_api_template.Prelude.Text.{text_lt}

abbrev account : String → String → LedgerAccountType → AccountInfo
account id code type = record {
  id = id;
  code = code;
  name = code;
  name_th = none;
  type = type;
  is_postable = true;
  is_active = true;
}

abbrev chart : List AccountInfo
chart = account "R" "4000" revenue ∷ account "C" "1000" asset ∷ account "E" "5000" expense ∷ []

abbrev posting : String → ℤ → ℤ → AccountSum
posting id debit credit = record { account_id = id; debit_minor = debit; credit_minor = credit }

-- A sale for 150 in cash, rent of 50, and one more sale of 20.
abbrev books : List AccountSum
books =
    posting "C" (pos 170) (pos 50)
    ∷ posting "R" (pos 0) (pos 150)
    ∷ posting "E" (pos 50) (pos 0)
    ∷ posting "R" (pos 0) (pos 20)
    ∷ []

abbrev retained : RetainedEarnings
retained = record { account_id = "P"; account_code = "3000" }

distinct_chart : AreDistinct chart
distinct_chart = ((refl, (refl, tt)), ((refl, tt), (tt, tt)))

books_covered : Covers chart books
books_covered = (
  (account "C" "1000" asset, refl, refl),
  (
    (account "R" "4000" revenue, refl, refl),
    ((account "E" "5000" expense, refl, refl), ((account "R" "4000" revenue, refl, refl), tt)),
  ),
)

books-IsBalanced : IsBalanced books
unfolding ◌+ℤ◌
books-IsBalanced = refl

index_sides_example :
    (debit_in (Maps.get "R" (index books)) ≡ posted_to (λ s. s.debit_minor) "R" books)
    × (credit_in (Maps.get "R" (index books)) ≡ posted_to (λ s. s.credit_minor) "R" books)
index_sides_example = index_sides "R" books

trial_balance-IsBalanced_example :
    let t = build_trial_balance "2024-01-01" "2024-12-31" chart [] books in
    (t.total_debit_minor ≡ sum_by (λ s. s.debit_minor) books)
    × (t.total_credit_minor ≡ t.total_debit_minor)
    × (t.total_closing_debit_minor ≡ t.total_closing_credit_minor)
    × (t.balanced ≡ true)
trial_balance-IsBalanced_example =
    trial_balance-IsBalanced "2024-01-01" "2024-12-31" chart [] books distinct_chart tt
      books_covered refl books-IsBalanced

balance_sheet-IsBalanced_example :
    let b = build_balance_sheet "2024-12-31" chart books in
    (b.total_assets_minor ≡ b.total_liabilities_and_equity_minor) × (b.balanced ≡ true)
balance_sheet-IsBalanced_example =
    balance_sheet-IsBalanced "2024-12-31" chart books distinct_chart books_covered books-IsBalanced

abbrev closing : List JournalLineInput
closing =
    closing_line "R" "4000" (negsuc 169) "Year-end close"
    ∷ closing_line "E" "5000" (pos 50) "Year-end close"
    ∷ closing_line "P" "3000" (pos 120) "Year-end close: net result to retained earnings"
    ∷ []

closing_lines_are : build_closing_lines chart books retained ≡ closing
unfolding build_closing_lines closing_loop closing_step close_sum close_balance with_result index
    index_from summed_with sort_by insert_by text_lt Maps.get Maps.put ◌+ℤ◌ ◌-ℤ◌
closing_lines_are = refl

some_closing : build_closing_lines chart books retained ≢ []
some_closing e = cc (sym closing_lines_are ∙ e)

few_closing : length (build_closing_lines chart books retained) ≤ 500
few_closing = rw closing_lines_are (omega arith)

closing_lines-IsAccepted_iff_example :
    IsAccepted (build_closing_lines chart books retained) ↔ (net_profit chart books ≢ pos 0)
closing_lines-IsAccepted_iff_example =
    closing_lines-IsAccepted_iff chart books retained some_closing few_closing
