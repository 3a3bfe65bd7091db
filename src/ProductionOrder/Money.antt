-- ===== src/ProductionOrder/Money.antt =====
-- value-objects/money.ts: an integer number of minor units of one of three currencies.
use nestjs_api_template.Prelude.{
  Bool, Result, arith, false, not, ok, throw_if, true, ◌&&◌, ◌>>◌, ◌↔◌, ◌≡◌,
}
use nestjs_api_template.Prelude.Int.{eqb_ℤ, leb_ℤ, ltb_ℤ, ℤ, ◌+ℤ◌, ◌-ℤ◌}

pub data CurrencyCode : Type 0 where
  thb : CurrencyCode
  usd : CurrencyCode
  jpy : CurrencyCode

pub data MoneyError : Type 0 where
  currency_mismatch : MoneyError

pub record Money : Type 0 where
  pub amount : ℤ
  pub currency : CurrencyCode

abbrev pub currency_eq : CurrencyCode → CurrencyCode → Bool
currency_eq thb thb = true
currency_eq usd usd = true
currency_eq jpy jpy = true
currency_eq _ _ = false

unfoldable pub same_currency : Money → Money → Result MoneyError (Unit {0})
same_currency a b = throw_if (not (currency_eq a.currency b.currency)) currency_mismatch

unfoldable pub add : Money → Money → Result MoneyError Money
unfolding same_currency
add a b = do same_currency a b; ok (record { amount = a.amount +ℤ b.amount; currency = a.currency })

unfoldable pub subtract : Money → Money → Result MoneyError Money
unfolding same_currency
subtract a b = do
  same_currency a b
  ok (record { amount = a.amount -ℤ b.amount; currency = a.currency })

unfoldable pub is_greater_than : Money → Money → Result MoneyError Bool
unfolding same_currency
is_greater_than a b = do same_currency a b; ok (ltb_ℤ b.amount a.amount)

unfoldable pub is_greater_than_or_equal : Money → Money → Result MoneyError Bool
unfolding same_currency
is_greater_than_or_equal a b = do same_currency a b; ok (leb_ℤ b.amount a.amount)

unfoldable pub equals : Money → Money → Bool
equals a b = currency_eq a.currency b.currency && eqb_ℤ a.amount b.amount

-- `equals` is equality of amounts of money.
pub equals_iff : (a b : Money) → (equals a b ≡ true) ↔ (a ≡ b)
unfolding equals
equals_iff a b = ground arith
