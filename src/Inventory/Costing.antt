-- ===== src/Inventory/Costing.antt =====
-- costing.ts: FIFO cost layers and the moving average.
use nestjs_api_template.Shared.Money
use nestjs_api_template.Inventory.Movement.{InventoryError, invalid_movement}
use nestjs_api_template.Prelude.{
  Bool, List, Option, Result, String, [], if◌then◌else◌, ltb, map_err, ok, throw_if, ℕ, ◌++◌, ◌==◌,
  ◌>>=◌, ◌>>◌, ◌∷◌,
}
use nestjs_api_template.Prelude.Int.{eqb_ℤ, leb_ℤ, ltb_ℤ, pos, ℤ, ◌*ℤ◌, ◌+ℤ◌, ◌-ℤ◌}
use nestjs_api_template.Prelude.Lists.{filter}
use nestjs_api_template.Prelude.Text.{Unicode}
use nestjs_api_template.Shared.Money.{Money}

pub record CostLayerSnapshot : Type 0 where
  pub id : String
  pub tenant_id : String
  pub warehouse_id : String
  pub item_id : String
  pub lot_id : Option String
  pub movement_id : String
  pub received_at : ℕ
  pub original_qty : ℤ
  pub remaining_qty : ℤ
  pub unit_cost_minor : ℤ
  pub currency : String

pub record FifoConsumption : Type 0 where
  pub cost_minor : ℤ
  pub updated : List CostLayerSnapshot
  pub uncosted : ℤ

-- The comparator is not above zero: the earlier receipt first, then the ids by locale.
unfoldable pub comes_first : ⦃u : Unicode⦄ → CostLayerSnapshot → CostLayerSnapshot → Bool
comes_first ⦃u⦄ a b =
    if a.received_at == b.received_at
    then leb_ℤ (u.locale_compare a.id b.id) (pos 0)
    else ltb a.received_at b.received_at

-- The stable sort of `Array.prototype.sort`.
unfoldable pub insert_layer :
    ⦃u : Unicode⦄ → CostLayerSnapshot → List CostLayerSnapshot → List CostLayerSnapshot
insert_layer x [] = x ∷ []
insert_layer x (y ∷ ys) = if comes_first x y then x ∷ y ∷ ys else y ∷ insert_layer x ys

unfoldable pub sort_layers : ⦃u : Unicode⦄ → List CostLayerSnapshot → List CostLayerSnapshot
unfolding insert_layer
sort_layers [] = []
sort_layers (x ∷ xs) = insert_layer x (sort_layers xs)

-- The loop over the ordered layers: what is left to cover, the cost so far, the layers touched.
unfoldable pub fifo_loop : List CostLayerSnapshot → ℤ → ℤ → List CostLayerSnapshot → FifoConsumption
fifo_loop [] remaining cost_minor updated = record {
  cost_minor = cost_minor;
  updated = updated;
  uncosted = remaining;
}
fifo_loop (layer ∷ layers) remaining cost_minor updated =
    let take = if ltb_ℤ layer.remaining_qty remaining then layer.remaining_qty else remaining in
    let done : FifoConsumption = record {
      cost_minor = cost_minor;
      updated = updated;
      uncosted = remaining;
    } in
    let next =
      fifo_loop layers (remaining -ℤ take) (cost_minor +ℤ take *ℤ layer.unit_cost_minor)
        (updated ++ record layer { remaining_qty = layer.remaining_qty -ℤ take } ∷ []) in
    if leb_ℤ remaining (pos 0) then done else next

unfoldable pub consume_fifo :
    ⦃u : Unicode⦄ → List CostLayerSnapshot → ℤ → Result InventoryError FifoConsumption
consume_fifo layers quantity = do
  throw_if (leb_ℤ quantity (pos 0)) invalid_movement
  ok (
      fifo_loop (sort_layers (filter (λ l. ltb_ℤ (pos 0) l.remaining_qty) layers)) quantity (pos 0)
        [])

pub record AverageCostSnapshot : Type 0 where
  pub id : String
  pub tenant_id : String
  pub item_id : String
  pub quantity : ℤ
  pub total_cost_minor : ℤ
  pub unit_cost_minor : ℤ
  pub currency : String
  pub version : ℕ

pub data CostingError : Type 0 where
  inventory_error : InventoryError → CostingError
  costing_money : Money.MoneyError → CostingError

unfoldable pub apply_average_receipt :
    AverageCostSnapshot → ℤ → ℤ → Result CostingError AverageCostSnapshot
apply_average_receipt avg quantity unit_cost_minor = do
  throw_if (leb_ℤ quantity (pos 0)) (inventory_error invalid_movement)
  let total_qty = avg.quantity +ℤ quantity
  let total_cost = avg.total_cost_minor +ℤ quantity *ℤ unit_cost_minor
  unit ←
      if eqb_ℤ total_qty (pos 0)
      then ok (pos 0)
      else map_err costing_money (Money.round_div total_cost total_qty)
  ok (record avg { quantity = total_qty; total_cost_minor = total_cost; unit_cost_minor = unit })

-- The new average and the cost issued.
unfoldable pub apply_average_issue :
    AverageCostSnapshot → ℤ → Result CostingError (AverageCostSnapshot × ℤ)
apply_average_issue avg quantity = do
  throw_if (leb_ℤ quantity (pos 0)) (inventory_error invalid_movement)
  let issued = if ltb_ℤ avg.quantity quantity then avg.quantity else quantity
  let cost_minor = issued *ℤ avg.unit_cost_minor
  let remaining_qty = avg.quantity -ℤ issued
  let remaining_cost = avg.total_cost_minor -ℤ cost_minor
  ok (
    record avg {
      quantity = remaining_qty;
      total_cost_minor = if eqb_ℤ remaining_qty (pos 0) then pos 0 else remaining_cost;
      unit_cost_minor = avg.unit_cost_minor;
    },
    cost_minor,
  )
