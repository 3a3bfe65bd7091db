-- ===== src/Ledger/Reports/Statements.antt =====
-- buildProfitAndLoss and buildBalanceSheet of reports.ts.
use nestjs_api_template.Prelude.Maps
use nestjs_api_template.Ledger.Reports.{
  AccountInfo, AccountSum, LedgerAccountType, asset, by_code, equity, expense, index, liability,
  natural_balance, revenue,
}
use nestjs_api_template.Prelude.{
  Bool, List, Option, String, [], false, if◌then◌else◌, none, not, some, true, ◌++◌, ◌||◌, ◌∷◌,
}
use nestjs_api_template.Prelude.Int.{eqb_ℤ, pos, ℤ, ◌+ℤ◌, ◌-ℤ◌}
use nestjs_api_template.Prelude.Lists.{sort_by}

pub record StatementRow : Type 0 where
  pub account_id : String
  pub code : String
  pub name : String
  pub name_th : Option String
  pub amount_minor : ℤ

pub record StatementSection : Type 0 where
  pub rows : List StatementRow
  pub total_minor : ℤ

abbrev pub type_eq : LedgerAccountType → LedgerAccountType → Bool
type_eq asset asset = true
type_eq liability liability = true
type_eq equity equity = true
type_eq revenue revenue = true
type_eq expense expense = true
type_eq _ _ = false

-- The section after an amount, which is left out if it is zero.
unfoldable pub add_amount : StatementSection → AccountInfo → ℤ → StatementSection
add_amount st a amount_minor = if eqb_ℤ amount_minor (pos 0) then st else record {
  rows =
      st.rows
      ++ record {
        account_id = a.id;
        code = a.code;
        name = a.name;
        name_th = a.name_th;
        amount_minor = amount_minor;
      }
        ∷ [];
  total_minor = st.total_minor +ℤ amount_minor;
}

-- The section after the sum of an account, if there is one.
unfoldable pub add_sum :
    LedgerAccountType → StatementSection → AccountInfo → Option AccountSum → StatementSection
unfolding add_amount natural_balance
add_sum type st a none = st
add_sum type st a (some s) = add_amount st a (natural_balance type s.debit_minor s.credit_minor)

-- One round of the loop of `section`.
unfoldable pub section_step :
    LedgerAccountType
    → List (String × AccountSum)
    → StatementSection
    → AccountInfo
    → StatementSection
unfolding add_sum
section_step type sums st a =
    if not (type_eq a.type type) || not a.is_postable
    then st
    else add_sum type st a (Maps.get a.id sums)

unfoldable pub section_loop :
    LedgerAccountType
    → List (String × AccountSum)
    → StatementSection
    → List AccountInfo
    → StatementSection
unfolding section_step
section_loop type sums st [] = st
section_loop type sums st (a ∷ rest) = section_loop type sums (section_step type sums st a) rest

unfoldable pub section :
    List AccountInfo → List (String × AccountSum) → LedgerAccountType → StatementSection
unfolding section_loop sort_by
section accounts sums type =
    section_loop type sums (record { rows = []; total_minor = pos 0 }) (sort_by by_code accounts)

pub record ProfitAndLoss : Type 0 where
  pub from_date : String
  pub to_date : String
  pub revenue_section : StatementSection
  pub expenses : StatementSection
  pub net_profit_minor : ℤ

unfoldable pub build_profit_and_loss :
    String → String → List AccountInfo → List AccountSum → ProfitAndLoss
unfolding index section
build_profit_and_loss from_date to_date accounts period =
    let revenues = section accounts (index period) revenue in
    let expenses = section accounts (index period) expense in
    record {
      from_date = from_date;
      to_date = to_date;
      revenue_section = revenues;
      expenses = expenses;
      net_profit_minor = revenues.total_minor -ℤ expenses.total_minor;
    }

pub record BalanceSheet : Type 0 where
  pub as_of : String
  pub assets : StatementSection
  pub liabilities : StatementSection
  pub equity_section : StatementSection
  pub current_earnings_minor : ℤ
  pub total_assets_minor : ℤ
  pub total_liabilities_and_equity_minor : ℤ
  pub balanced : Bool

unfoldable pub build_balance_sheet : String → List AccountInfo → List AccountSum → BalanceSheet
unfolding index section
build_balance_sheet as_of accounts cumulative =
    let sums = index cumulative in
    let assets = section accounts sums asset in
    let liabilities = section accounts sums liability in
    let equities = section accounts sums equity in
    let earnings =
      (section accounts sums revenue).total_minor -ℤ (section accounts sums expense).total_minor in
    let total_le = liabilities.total_minor +ℤ equities.total_minor +ℤ earnings in
    record {
      as_of = as_of;
      assets = assets;
      liabilities = liabilities;
      equity_section = equities;
      current_earnings_minor = earnings;
      total_assets_minor = assets.total_minor;
      total_liabilities_and_equity_minor = total_le;
      balanced = eqb_ℤ assets.total_minor total_le;
    }
