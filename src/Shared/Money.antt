-- ===== src/Shared/Money.antt =====
-- money.ts: integer minor units with a currency code; the only rounding is half away from zero.
use nestjs_api_template.Prelude.{
  Bool, List, Result, String, [], bool_ne, false, if◌then◌else◌, not, ok, throw_if, ◌&&◌, ◌+◌, ◌/◌,
  ◌>>=◌, ◌>>◌, ◌∷◌,
}
use nestjs_api_template.Prelude.Int.{abs, eqb_ℤ, is_neg, ltb_ℤ, neg, pos, ℤ, ◌*ℤ◌, ◌+ℤ◌, ◌-ℤ◌}
use nestjs_api_template.Prelude.Text.{Unicode, is_capital, str_eq, trim}

pub data MoneyError : Type 0 where
  money_error : MoneyError

pub record Money : Type 0 where
  pub amount : ℤ
  pub currency : String

-- `/^[A-Z]{3}$/`
unfoldable pub is_currency_code : String → Bool
is_currency_code (String.◌∷◌ a (String.◌∷◌ b (String.◌∷◌ c String.[]))) =
    is_capital a && is_capital b && is_capital c
is_currency_code _ = false

unfoldable pub of : ⦃u : Unicode⦄ → ℤ → String → Result MoneyError Money
of ⦃u⦄ amount currency = do
  let code = u.to_upper_case (trim currency)
  throw_if (not (is_currency_code code)) money_error
  ok (record { amount = amount; currency = code })

unfoldable pub zero_of : ⦃u : Unicode⦄ → String → Result MoneyError Money
unfolding of
zero_of currency = of (pos 0) currency

unfoldable pub same : Money → Money → Result MoneyError (Unit {0})
same a b = throw_if (not (str_eq a.currency b.currency)) money_error

unfoldable pub add : Money → Money → Result MoneyError Money
unfolding same
add a b = do same a b; ok (record { amount = a.amount +ℤ b.amount; currency = a.currency })

unfoldable pub subtract : Money → Money → Result MoneyError Money
unfolding same
subtract a b = do same a b; ok (record { amount = a.amount -ℤ b.amount; currency = a.currency })

unfoldable pub multiply : Money → ℤ → Money
multiply a factor = record { amount = a.amount *ℤ factor; currency = a.currency }

unfoldable pub round_div : ℤ → ℤ → Result MoneyError ℤ
round_div numerator denominator = do
  throw_if (eqb_ℤ denominator (pos 0)) money_error
  let n = abs numerator
  let d = abs denominator
  let q = (n + d / 2) / d
  ok (if bool_ne (is_neg numerator) (is_neg denominator) then neg (pos q) else pos q)

abbrev pub basis_points : ℤ
basis_points = pos 10000

unfoldable pub percent : Money → ℤ → Result MoneyError Money
percent a bp = do
  q ← round_div (a.amount *ℤ bp) basis_points
  ok (record { amount = q; currency = a.currency })

unfoldable pub divide : Money → ℤ → Result MoneyError Money
divide a divisor = do
  q ← round_div a.amount divisor
  ok (record { amount = q; currency = a.currency })

unfoldable pub negate : Money → Money
negate a = record { amount = neg a.amount; currency = a.currency }

unfoldable pub is_greater_than : Money → Money → Result MoneyError Bool
unfolding same
is_greater_than a b = do same a b; ok (ltb_ℤ b.amount a.amount)

unfoldable pub equals : Money → Money → Bool
equals a b = str_eq a.currency b.currency && eqb_ℤ a.amount b.amount

-- The reduction of `sumMoney`, from an accumulator.
unfoldable pub sum_money_from : Money → List Money → Result MoneyError Money
sum_money_from acc [] = ok acc
sum_money_from acc (m ∷ ms) = add acc m >>= λ next. sum_money_from next ms

unfoldable pub sum_money : ⦃u : Unicode⦄ → List Money → String → Result MoneyError Money
unfolding sum_money_from
sum_money items currency = do start ← zero_of currency; sum_money_from start items
