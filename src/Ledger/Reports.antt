-- ===== src/Ledger/Reports.antt =====
-- reports.ts: the trial balance, the profit and loss, the balance sheet and the year-end closing.
use nestjs_api_template.Prelude.Maps
pub mod AccountSums
pub mod Statements
pub mod BalancedSheet
pub mod Trial
pub mod Balanced
pub mod Closing
pub mod Closable
mod Tests
use nestjs_api_template.Prelude.{Bool, List, Option, String, [], none, some, ◌∷◌}
use nestjs_api_template.Prelude.Int.{pos, ℤ, ◌+ℤ◌, ◌-ℤ◌}
use nestjs_api_template.Prelude.Text.{text_lt}

pub data LedgerAccountType : Type 0 where
  asset : LedgerAccountType
  liability : LedgerAccountType
  equity : LedgerAccountType
  revenue : LedgerAccountType
  expense : LedgerAccountType

pub record AccountInfo : Type 0 where
  pub id : String
  pub code : String
  pub name : String
  pub name_th : Option String
  pub type : LedgerAccountType
  pub is_postable : Bool
  pub is_active : Bool

pub record AccountSum : Type 0 where
  pub account_id : String
  pub debit_minor : ℤ
  pub credit_minor : ℤ

unfoldable pub natural_balance : LedgerAccountType → ℤ → ℤ → ℤ
natural_balance asset debit credit = debit -ℤ credit
natural_balance expense debit credit = debit -ℤ credit
natural_balance liability debit credit = credit -ℤ debit
natural_balance equity debit credit = credit -ℤ debit
natural_balance revenue debit credit = credit -ℤ debit

-- What the map holds for an account after one more sum of it.
unfoldable pub summed_with : Option AccountSum → AccountSum → AccountSum
summed_with none s = s
summed_with (some prev) s = record {
  account_id = s.account_id;
  debit_minor = prev.debit_minor +ℤ s.debit_minor;
  credit_minor = prev.credit_minor +ℤ s.credit_minor;
}

-- The loop of `index`.
unfoldable pub index_from :
    List (String × AccountSum) → List AccountSum → List (String × AccountSum)
unfolding summed_with
index_from m [] = m
index_from m (s ∷ rest) =
    index_from (Maps.put s.account_id (summed_with (Maps.get s.account_id m) s) m) rest

unfoldable pub index : List AccountSum → List (String × AccountSum)
unfolding index_from
index sums = index_from [] sums

abbrev pub zero_sum : AccountSum
zero_sum = record { account_id = ""; debit_minor = pos 0; credit_minor = pos 0 }

-- `byCode(a, b) < 0`
abbrev pub by_code : AccountInfo → AccountInfo → Bool
by_code a b = text_lt a.code b.code
