-- ===== src/Prelude/Text.antt =====
-- JavaScript strings as native texts, and the numbers of the `number` type.
use Prim.Native.Nat.{ℕ, ◌+◌, ◌≤◌}
use native.Mathlib.Omega.{arith}
use Prim.Native.Char.{Char, code}
use Prim.Native.String.{String}
use mathlib.Core.Bool.{Bool, true, false, ◌&&◌, ◌||◌}
use mathlib.Core.Path.{◌≡◌, refl}
use mathlib.Core.Logic.{inl, inr}
use mathlib.Core.Option.{Option, none, some}
pub use text.Mathlib.Text.{◌==◌ as str_eq}
pub use Prim.Native.String.{◌++◌ as append}
pub use text.Mathlib.TextLemmas.{cons-append, nil-append}
pub use text.Mathlib.TextEquality.{eq_iff}
pub use text.Mathlib.TextPositions.{eq_refl}
use nestjs_api_template.Prelude.Int.{ℤ}
use nestjs_api_template.Prelude.Tests.{Bool-cases, if◌then◌else◌, leb, ltb, ◌==◌}

pub str_eq_sym : (s t : String) → str_eq s t ≡ str_eq t s
str_eq_sym s t = elim (Bool-cases (str_eq s t)) [
  | inl e ↦ rw ((eq_iff s t).0 e) refl
  | inr e ↦ elim (Bool-cases (str_eq t s)) [
    | inl f ↦ absurd (ground (arith, eq_iff s t, eq_iff t s))
    | inr f ↦ rw (e, f) refl
  ]
]

-- `s.length === 0`
abbrev pub is_empty : String → Bool
is_empty String.[] = true
is_empty (String.◌∷◌ c s) = false

-- `s ?? ''`
abbrev pub or_empty : Option String → String
or_empty none = ""
or_empty (some t) = t

-- `a < b` of texts without surrogate pairs.
unfoldable pub text_lt : String → String → Bool
text_lt String.[] String.[] = false
text_lt String.[] (String.◌∷◌ d t) = true
text_lt (String.◌∷◌ c s) String.[] = false
text_lt (String.◌∷◌ c s) (String.◌∷◌ d t) =
    let rest = text_lt s t in if code c == code d then rest else ltb (code c) (code d)

-- `a === b` on `string | null`.
abbrev pub opt_str_eq : Option String → Option String → Bool
opt_str_eq none none = true
opt_str_eq none (some b) = false
opt_str_eq (some a) none = false
opt_str_eq (some a) (some b) = str_eq a b

-- `s.length`: the number of UTF-16 code units.
unfoldable pub text_length : String → ℕ
text_length String.[] = 0
text_length (String.◌∷◌ c s) = (if ltb (code c) 0x10000 then 1 else 2) + text_length s

-- The white space and line terminators that `trim` strips.
unfoldable pub is_white : ℕ → Bool
is_white c =
    leb 9 c && leb c 13
    || c == 0x20
    || c == 0xa0
    || c == 0x1680
    || leb 0x2000 c && leb c 0x200a
    || c == 0x2028
    || c == 0x2029
    || c == 0x202f
    || c == 0x205f
    || c == 0x3000
    || c == 0xfeff

trim_start : String → String
trim_start String.[] = String.[]
trim_start (String.◌∷◌ c s) = if is_white (code c) then trim_start s else String.◌∷◌ c s

trim_end : String → String
trim_end String.[] = String.[]
trim_end (String.◌∷◌ c s) =
    let rest = trim_end s in
    if is_white (code c) && is_empty rest then String.[] else String.◌∷◌ c rest

-- `s.trim()`
unfoldable pub trim : String → String
unfolding trim_start trim_end is_white
trim s = trim_end (trim_start s)

trim_start_length : (s : String) → text_length (trim_start s) ≤ text_length s
unfolding trim_start text_length
trim_start_length String.[] = omega arith
trim_start_length (String.◌∷◌ c s) = ground (arith, trim_start_length s)

trim_end_length : (s : String) → text_length (trim_end s) ≤ text_length s
unfolding trim_end text_length
trim_end_length String.[] = omega arith
trim_end_length (String.◌∷◌ c s) = ground (arith, trim_end_length s)

-- Trimming never makes a text longer.
pub text_length-trim : (s : String) → text_length (trim s) ≤ text_length s
unfolding trim
text_length-trim s = omega (arith, trim_end_length (trim_start s), trim_start_length s)

-- What the runtime's Unicode tables decide: `s.toUpperCase()` and the sign of `a.localeCompare(b)`.
pub record Unicode : Type 0 where
  pub to_upper_case : String → String
  pub locale_compare : String → String → ℤ

-- `/^[A-Z]$/`
abbrev pub is_capital : Char → Bool
is_capital c = leb b'A' (code c) && leb (code c) b'Z'

-- A `number`: an integer, or a fraction, an infinity or NaN, which `Number.isInteger` refuses.
pub data Number : Type 0 where
  integer : ℤ → Number
  not_integer : Number

-- `s.startsWith(t)`
unfoldable pub starts_with : String → String → Bool
starts_with s String.[] = true
starts_with String.[] (String.◌∷◌ d t) = false
starts_with (String.◌∷◌ c s) (String.◌∷◌ d t) = code c == code d && starts_with s t

-- `s.includes(t)`
unfoldable pub includes : String → String → Bool
includes String.[] t = starts_with String.[] t
includes (String.◌∷◌ c s) t = starts_with (String.◌∷◌ c s) t || includes s t
