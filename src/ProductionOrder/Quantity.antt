-- ===== src/ProductionOrder/Quantity.antt =====
-- value-objects/quantity.ts: a bigint with a unit of measure. `value` is signed, as in the source;
-- every instance is made by `of`, which refuses a negative value.
use nestjs_api_template.Prelude.{Bool, Result, String, arith, false, not, ok, throw_if, ◌>>◌, ◌≡◌}
use nestjs_api_template.Prelude.Int.{+ℤ_parts, leb_ℤ, ltb_ℤ, pos, ℤ, ◌+ℤ◌, ◌-ℤ◌, ◌≤ℤ◌, -ℤ_parts}
use nestjs_api_template.Prelude.Text.{eq_iff, is_empty, str_eq}

pub data QuantityError : Type 0 where
  uom_mismatch : QuantityError
  negative_quantity : QuantityError

pub record Quantity : Type 0 where
  pub value : ℤ
  pub uom : String

unfoldable pub of : ℤ → String → Result QuantityError Quantity
of value uom = do
  throw_if (ltb_ℤ value (pos 0)) negative_quantity
  throw_if (is_empty uom) uom_mismatch
  ok (record { value = value; uom = uom })

unfoldable pub zero_of : String → Result QuantityError Quantity
unfolding of
zero_of uom = of (pos 0) uom

unfoldable pub same_uom : Quantity → Quantity → Result QuantityError (Unit {0})
same_uom a b = throw_if (not (str_eq a.uom b.uom)) uom_mismatch

unfoldable pub add : Quantity → Quantity → Result QuantityError Quantity
unfolding same_uom of
add a b = do same_uom a b; of (a.value +ℤ b.value) a.uom

unfoldable pub subtract : Quantity → Quantity → Result QuantityError Quantity
unfolding same_uom of
subtract a b = do same_uom a b; of (a.value -ℤ b.value) a.uom

unfoldable pub is_greater_than : Quantity → Quantity → Result QuantityError Bool
unfolding same_uom
is_greater_than a b = do same_uom a b; ok (ltb_ℤ b.value a.value)

unfoldable pub is_greater_than_or_equal : Quantity → Quantity → Result QuantityError Bool
unfolding same_uom
is_greater_than_or_equal a b = do same_uom a b; ok (leb_ℤ b.value a.value)

-- What `of` guarantees of an instance.
abbrev pub IsQuantity : Quantity → Type 0
IsQuantity q = (pos 0 ≤ℤ q.value) × (is_empty q.uom ≡ false)

-- Whatever `of` returns has the given value and unit, and is a quantity.
pub of-IsQuantity :
    (v : ℤ) (u : String) {q : Quantity} → of v u ≡ ok q → IsQuantity q × (q.value ≡ v) × (q.uom ≡ u)
unfolding of
of-IsQuantity v u h = ground arith

-- A sum has both summands' unit, their sum for its value, and is a quantity.
pub add-eq-ok :
    (a b : Quantity) {c : Quantity}
    → add a b ≡ ok c
    → IsQuantity c × (c.value ≡ a.value +ℤ b.value) × (c.uom ≡ a.uom) × (a.uom ≡ b.uom)
unfolding add
add-eq-ok a b h = ground (arith, eq_iff a.uom b.uom)

-- Taking away what was added gives the first summand back.
add-subtract : (a b : Quantity) {c : Quantity} → IsQuantity a → add a b ≡ ok c → subtract c b ≡ ok a
unfolding subtract
add-subtract a b {c} v h =
    let (_, sum, unit, same) = add-eq-ok a b h in
    ground (arith, eq_iff c.uom b.uom, +ℤ_parts a.value b.value, -ℤ_parts c.value b.value)

pub greater_than-eq-ok :
    (a b : Quantity) {t : Bool}
    → is_greater_than a b ≡ ok t
    → (t ≡ ltb_ℤ b.value a.value) × (a.uom ≡ b.uom)
unfolding is_greater_than
greater_than-eq-ok a b h = ground (arith, eq_iff a.uom b.uom)

pub greater_than_or_equal_same :
    (a b : Quantity) → a.uom ≡ b.uom → is_greater_than_or_equal a b ≡ ok (leb_ℤ b.value a.value)
unfolding is_greater_than_or_equal
greater_than_or_equal_same a b e = ground (arith, eq_iff a.uom b.uom)
