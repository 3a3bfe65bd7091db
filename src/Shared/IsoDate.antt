-- ===== src/Shared/IsoDate.antt =====
-- iso-date.ts: which texts are calendar dates.
use nestjs_api_template.Prelude.{
  Bool, Char, Option, String, code, false, if◌then◌else◌, leb, none, not, some, ℕ, ◌%◌, ◌&&◌, ◌*◌,
  ◌+◌, ◌-◌, ◌==◌, ◌||◌,
}

is_digit : Char → Bool
is_digit c = leb b'0' (code c) && leb (code c) b'9'

-- The number that a text of digits reads, `none` at any other character.
digits : ℕ → String → Option ℕ
unfolding is_digit
digits n String.[] = some n
digits n (String.◌∷◌ c s) =
    let rest = digits (10 * n + (code c - b'0')) s in if is_digit c then rest else none

is_leap : ℕ → Bool
is_leap y = y % 4 == 0 && not (y % 100 == 0) || y % 400 == 0

days_in_month : ℕ → ℕ → ℕ
unfolding is_leap
days_in_month y m =
    if m == 2
    then (if is_leap y then 29 else 28)
    else if m == 4 || m == 6 || m == 9 || m == 11
    then 30
    else 31

-- `ISO_RE`: four digits, a dash, two digits, a dash, two digits.
iso_parts : String → Option (ℕ × ℕ × ℕ)
unfolding digits
iso_parts
      (String.◌∷◌ a (
        String.◌∷◌ b (
          String.◌∷◌ c (
            String.◌∷◌ d (
              String.◌∷◌ e (
                String.◌∷◌ f
                  (String.◌∷◌ g (String.◌∷◌ h (String.◌∷◌ i (String.◌∷◌ j String.[])))))))))) =
    if code e == b'-' && code h == b'-'
    then elim (digits 0 (String.◌∷◌ a (String.◌∷◌ b (String.◌∷◌ c (String.◌∷◌ d String.[]))))) [
      | none ↦ none
      | some y ↦ elim (digits 0 (String.◌∷◌ f (String.◌∷◌ g String.[]))) [
        | none ↦ none
        | some m ↦ elim (digits 0 (String.◌∷◌ i (String.◌∷◌ j String.[]))) [
          | none ↦ none
          | some day ↦ some (y, m, day)
        ]
      ]
    ]
    else none
iso_parts _ = none

-- `Date.UTC` carries a day or month out of range into another one, and reads the years 0 to 99 as
-- 1900 to 1999; either way the date read back differs.
unfoldable pub is_iso_date : String → Bool
unfolding iso_parts days_in_month
is_iso_date v = elim (iso_parts v) [
  | none ↦ false
  | some (y, m, d) ↦ leb 100 y && leb 1 m && leb m 12 && leb 1 d && leb d (days_in_month y m)
]
