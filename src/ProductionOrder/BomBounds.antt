-- ===== src/ProductionOrder/BomBounds.antt =====
-- Rules R4 and R5: how much `compute_required` buys, and in what packs.
use nestjs_api_template.ProductionOrder.Quantity
use nestjs_api_template.Prelude.{arith, false, ok, refl, suc, zero, ℕ, ◌*◌, ◌+◌, ◌/◌, ◌<◌, ◌≡◌, ◌≤◌}
use nestjs_api_template.Prelude.Int.{pos, pos_add, pos_mul, ◌*ℤ◌, ◌+ℤ◌, ◌-ℤ◌, ◌/ℤ◌}
use nestjs_api_template.Prelude.Text.{eq_iff, is_empty}
use nestjs_api_template.ProductionOrder.Bom.{BomLine, ceil_div, ceil_to_min_pack, compute_required}
use nestjs_api_template.ProductionOrder.Quantity.{Quantity}

-- Rounding up a quotient: enough, and by less than one divisor too much.
ceil_div_bounds :
    (a b : ℕ)
    → (c : ℕ) × (ceil_div (pos a) (pos (suc b)) ≡ ok (pos c))
      × (a ≤ c * suc b)
      × (c * suc b < a + suc b)
unfolding ceil_div ◌+ℤ◌ ◌-ℤ◌ ◌/ℤ◌
ceil_div_bounds zero b = (0, ground arith, omega arith, omega arith)
ceil_div_bounds (suc a) b = ((suc a + b) / suc b, ground arith, omega arith, omega arith)

pack_bounds :
    (a b : ℕ)
    → (c : ℕ) × (ceil_to_min_pack (pos a) (pos (suc b)) ≡ ok (pos (c * suc b)))
      × (a ≤ c * suc b)
      × (c * suc b < a + suc b)
unfolding ceil_to_min_pack
pack_bounds zero b = (0, ground arith, omega arith, omega arith)
pack_bounds (suc a) b =
    let (c, e, lo, hi) = ceil_div_bounds (suc a) b in (c, ground (arith, pos_mul c (suc b)), lo, hi)

-- Less than one divisor apart, in multiples of the divisor, is not apart.
le_of_mul_lt : (a b d : ℕ) → a * suc d < b * suc d + suc d → a ≤ b
le_of_mul_lt a b d h = grind arith

mul_chain : (a r b y : ℕ) → a ≤ r * suc y → r ≤ b → a ≤ b * suc y
mul_chain a r b y h k = grind arith

-- For quantities and a scrap that are not negative, a positive yield and a positive pack in the unit
-- of the requirement, which is not empty, the material needed is always computed; it is a whole number
-- of packs, it covers ordered × per unit × (1 + scrap) / yield, and no smaller number of packs does.
pub compute_required_least :
    (ordered : Quantity) (line : BomLine) (n m s y k : ℕ)
    → ordered.value ≡ pos n
    → line.required_per_unit.value ≡ pos m
    → line.scrap_basis_points ≡ pos s
    → line.yield_basis_points ≡ pos (suc y)
    → line.min_pack.value ≡ pos (suc k)
    → line.required_per_unit.uom ≡ line.min_pack.uom
    → is_empty line.min_pack.uom ≡ false
    → (c : ℕ) × (compute_required ordered line
        ≡ ok (record { value = pos (c * suc k); uom = line.min_pack.uom }))
      × (n * m * (10000 + s) ≤ c * suc k * suc y)
      × ((c' : ℕ) → n * m * (10000 + s) ≤ c' * suc k * suc y → c ≤ c')
unfolding compute_required Quantity.of
compute_required_least ordered line n m s y k en em es ey ek eu ne =
    let need = n * m * (10000 + s) in
    let numerator : ordered.value
          *ℤ line.required_per_unit.value
          *ℤ (pos 10000 +ℤ line.scrap_basis_points)
        ≡ pos need =
      rw (en, em, es, pos_add, pos_mul, pos_mul) refl in
    let (raw, e1, lo1, hi1) = ceil_div_bounds need y in
    let (c, e2, lo2, hi2) = pack_bounds raw k in
    (
      c,
      ground (arith, eq_iff line.required_per_unit.uom line.min_pack.uom, numerator),
      mul_chain need raw (c * suc k) y lo1 lo2,
      λ c' h. le_of_mul_lt c c' k (omega (arith, le_of_mul_lt raw (c' * suc k) y (omega arith))),
    )
