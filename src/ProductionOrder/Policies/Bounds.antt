-- ===== src/ProductionOrder/Policies/Bounds.antt =====
-- The tolerance bounds: when they exist, and what they are on natural numbers.
use nestjs_api_template.ProductionOrder.Quantity
use nestjs_api_template.Prelude.{String, arith, false, if◌then◌else◌, ok, refl, ◌≡◌}
use nestjs_api_template.Prelude.Int.{div_nonneg, ltb_ℤ, mul_nonneg, pos, ℤ, ◌*ℤ◌, ◌-ℤ◌, ◌/ℤ◌, ◌≤ℤ◌}
use nestjs_api_template.Prelude.Text.{is_empty}
use nestjs_api_template.ProductionOrder.Policies.{
  TolerancePolicy, basis_point_denominator, completion_floor,
}
use nestjs_api_template.ProductionOrder.Quantity.{IsQuantity, Quantity}

abbrev floor_value : ℤ → ℤ → ℤ
floor_value v under =
    let numerator = pos basis_point_denominator -ℤ under in
    v *ℤ (if ltb_ℤ numerator (pos 0) then pos 0 else numerator) /ℤ pos basis_point_denominator

clamped_nonneg : (n : ℤ) → pos 0 ≤ℤ (if ltb_ℤ n (pos 0) then pos 0 else n)
clamped_nonneg n = ground arith

floor_value_nonneg : (v under : ℤ) → pos 0 ≤ℤ v → pos 0 ≤ℤ floor_value v under
floor_value_nonneg v under h =
    div_nonneg _ _ (mul_nonneg v _ h (clamped_nonneg (pos basis_point_denominator -ℤ under)))
      (omega arith)

pub of_total :
    (v : ℤ) (u : String)
    → pos 0 ≤ℤ v
    → is_empty u ≡ false
    → Quantity.of v u ≡ ok (record { value = v; uom = u })
unfolding Quantity.of
of_total v u h e = ground arith

-- Of a quantity the completion floor always exists, in the same unit.
pub completion_floor_total :
    (q : Quantity) (p : TolerancePolicy)
    → IsQuantity q
    → (f : Quantity) × (completion_floor q p ≡ ok f) × (f.uom ≡ q.uom) × IsQuantity f
unfolding completion_floor
completion_floor_total q p (nonneg, unit) =
    let positive : pos 0 ≤ℤ floor_value q.value p.under_basis_points =
      floor_value_nonneg q.value p.under_basis_points nonneg in
    (
      record { value = floor_value q.value p.under_basis_points; uom = q.uom },
      of_total _ _ positive unit,
      refl,
      (positive, unit),
    )
