-- ===== src/ProductionOrder/Bom.antt =====
-- bom/bill-of-materials.ts: the material that an order needs.
use nestjs_api_template.ProductionOrder.Quantity
use nestjs_api_template.Prelude.{
  Result, String, if◌then◌else◌, map_err, not, ok, throw_if, ◌>>=◌, ◌>>◌,
}
use nestjs_api_template.Prelude.Int.{eqb_ℤ, leb_ℤ, ltb_ℤ, pos, ℤ, ◌*ℤ◌, ◌+ℤ◌, ◌-ℤ◌, ◌/ℤ◌}
use nestjs_api_template.Prelude.Text.{str_eq}
use nestjs_api_template.ProductionOrder.Policies.{basis_point_denominator}
use nestjs_api_template.ProductionOrder.Quantity.{Quantity, QuantityError}

pub record BomLine : Type 0 where
  pub sku : String
  pub required_per_unit : Quantity
  pub scrap_basis_points : ℤ
  pub yield_basis_points : ℤ
  pub min_pack : Quantity

pub data BomError : Type 0 where
  invalid_bom_line : BomError
  invalid_quantity : QuantityError → BomError

unfoldable pub ceil_div : ℤ → ℤ → Result BomError ℤ
ceil_div numerator denominator = do
  throw_if (leb_ℤ denominator (pos 0)) invalid_bom_line
  if leb_ℤ numerator (pos 0)
      then ok (pos 0)
      else ok ((numerator +ℤ denominator -ℤ pos 1) /ℤ denominator)

unfoldable pub ceil_to_min_pack : ℤ → ℤ → Result BomError ℤ
ceil_to_min_pack value pack_size = do
  throw_if (leb_ℤ pack_size (pos 0)) invalid_bom_line
  if eqb_ℤ value (pos 0) then ok (pos 0) else (do ok ((← ceil_div value pack_size) *ℤ pack_size))

unfoldable pub compute_required : Quantity → BomLine → Result BomError Quantity
compute_required ordered line = do
  throw_if (not (str_eq line.required_per_unit.uom line.min_pack.uom)) invalid_bom_line
  throw_if (leb_ℤ line.yield_basis_points (pos 0)) invalid_bom_line
  throw_if (ltb_ℤ line.scrap_basis_points (pos 0)) invalid_bom_line
  let numerator =
      ordered.value
      *ℤ line.required_per_unit.value
      *ℤ (pos basis_point_denominator +ℤ line.scrap_basis_points)
  raw ← ceil_div numerator line.yield_basis_points
  packed ← ceil_to_min_pack raw line.min_pack.value
  map_err invalid_quantity (Quantity.of packed line.min_pack.uom)
