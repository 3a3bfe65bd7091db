-- ===== src/ProductionOrder/Policies.antt =====
-- policies/approval-threshold.ts and policies/tolerance.ts.
pub mod Bounds
use nestjs_api_template.ProductionOrder.Quantity
use nestjs_api_template.ProductionOrder.Money
use nestjs_api_template.Prelude.{Bool, Result, if◌then◌else◌, ok, throw_if, ℕ, ◌>>◌, ◌||◌}
use nestjs_api_template.Prelude.Int.{ltb_ℤ, pos, ℤ, ◌*ℤ◌, ◌+ℤ◌, ◌-ℤ◌, ◌/ℤ◌}
use nestjs_api_template.ProductionOrder.Money.{Money, MoneyError}
use nestjs_api_template.ProductionOrder.Quantity.{Quantity, QuantityError}

-- `SimpleThresholdPolicy`: an order above the threshold needs two approvers.
unfoldable pub requires_dual_approval : Money → Money → Result MoneyError Bool
unfolding Money.is_greater_than
requires_dual_approval threshold total = Money.is_greater_than total threshold

-- Allowed over- and under-production, in basis points.
pub record TolerancePolicy : Type 0 where
  pub over_basis_points : ℤ
  pub under_basis_points : ℤ

pub data ToleranceError : Type 0 where
  invalid_tolerance_policy : ToleranceError

abbrev pub basis_point_denominator : ℕ
basis_point_denominator = 10000

unfoldable pub tolerance_policy : ℤ → ℤ → Result ToleranceError TolerancePolicy
tolerance_policy over under = do
  throw_if (ltb_ℤ over (pos 0) || ltb_ℤ under (pos 0)) invalid_tolerance_policy
  ok (record { over_basis_points = over; under_basis_points = under })

unfoldable pub over_ceiling : Quantity → TolerancePolicy → Result QuantityError Quantity
over_ceiling ordered policy =
    Quantity.of
      (ordered.value
        *ℤ (pos basis_point_denominator +ℤ policy.over_basis_points)
        /ℤ pos basis_point_denominator)
      ordered.uom

unfoldable pub completion_floor : Quantity → TolerancePolicy → Result QuantityError Quantity
completion_floor ordered policy =
    let numerator = pos basis_point_denominator -ℤ policy.under_basis_points in
    let bounded = if ltb_ℤ numerator (pos 0) then pos 0 else numerator in
    Quantity.of (ordered.value *ℤ bounded /ℤ pos basis_point_denominator) ordered.uom
