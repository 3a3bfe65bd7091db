-- ===== src/Inventory/Tests.antt =====
-- Stock at concrete values, on which the theorems apply.
use nestjs_api_template.Inventory.Average.{apply_average_issue_all}
use nestjs_api_template.Inventory.Balance.{
  StockBalanceSnapshot, allocate_fefo, apply_movement, available_qty,
}
use nestjs_api_template.Inventory.BalanceLaws.{IsStock, apply_movement_iff, moved}
use nestjs_api_template.Inventory.Costing.{
  AverageCostSnapshot, CostLayerSnapshot, FifoConsumption, apply_average_issue, consume_fifo,
}
use nestjs_api_template.Inventory.Fefo.{IsAllocation, allocate_fefo-IsAllocation}
use nestjs_api_template.Inventory.Fifo.{IsFifo, consume_fifo-IsFifo}
use nestjs_api_template.Inventory.Movement.{issue}
use nestjs_api_template.Prelude.{List, [], arith, none, ok, refl, ◌↔◌, ◌∷◌, ◌≡◌}
use nestjs_api_template.Prelude.Int.{negsuc, pos, ◌*ℤ◌, ◌-ℤ◌, ◌<ℤ◌, ◌≤ℤ◌}
use nestjs_api_template.Prelude.Text.{Unicode}

abbrev by_rank : Unicode
by_rank = record { to_upper_case = λ s. s; locale_compare = λ a b. pos 0 }

abbrev balance : StockBalanceSnapshot
balance = record {
  id = "B";
  tenant_id = "T";
  warehouse_id = "W";
  item_id = "I";
  lot_id = none;
  uom_code = "PCS";
  on_hand_qty = pos 10;
  reserved_qty = pos 4;
  version = 0;
}

balance-IsStock : IsStock balance
balance-IsStock = record { reserved_nonneg = omega arith; reserved_le = omega arith }

abbrev after_issue : StockBalanceSnapshot
after_issue = record balance { on_hand_qty = pos 5; reserved_qty = pos 1 }

issue_is_applied : apply_movement balance issue (pos 5) (pos 3) ≡ ok after_issue
unfolding apply_movement ◌-ℤ◌
issue_is_applied = refl

apply_movement_iff_example : (apply_movement balance issue (pos 5) (pos 3) ≡ ok after_issue) ↔ (
    (pos 0 <ℤ pos 5)
    × (pos 0 ≤ℤ pos 3)
    × (pos 3 ≤ℤ pos 5)
    × IsStock (moved balance issue (pos 5) (pos 3))
    × (after_issue ≡ moved balance issue (pos 5) (pos 3)))
apply_movement_iff_example = apply_movement_iff balance issue (pos 5) (pos 3) balance-IsStock

abbrev candidates : List StockBalanceSnapshot
candidates = balance ∷ record balance { id = "C"; on_hand_qty = pos 7 } ∷ []

allocate_fefo-IsAllocation_example :
    IsAllocation available_qty candidates (pos 8) (allocate_fefo available_qty candidates (pos 8))
allocate_fefo-IsAllocation_example =
    allocate_fefo-IsAllocation available_qty candidates (pos 8) (omega arith)

abbrev layer : CostLayerSnapshot
layer = record {
  id = "A";
  tenant_id = "T";
  warehouse_id = "W";
  item_id = "I";
  lot_id = none;
  movement_id = "M";
  received_at = 1;
  original_qty = pos 4;
  remaining_qty = pos 4;
  unit_cost_minor = pos 100;
  currency = "THB";
}

abbrev layers : List CostLayerSnapshot
layers = record layer { id = "Z"; received_at = 2; unit_cost_minor = pos 120 } ∷ layer ∷ []

consume_fifo-IsFifo_example :
    (r : FifoConsumption) × (consume_fifo ⦃u = by_rank⦄ layers (pos 6) ≡ ok r)
    × IsFifo ⦃u = by_rank⦄ layers (pos 6) r
consume_fifo-IsFifo_example = consume_fifo-IsFifo ⦃u = by_rank⦄ layers (pos 6) (omega arith)

abbrev average : AverageCostSnapshot
average = record {
  id = "A";
  tenant_id = "T";
  item_id = "I";
  quantity = pos 3;
  total_cost_minor = pos 5;
  unit_cost_minor = pos 2;
  currency = "THB";
  version = 0;
}

apply_average_issue_all_example :
    apply_average_issue average (pos 4)
    ≡ ok (
      record average { quantity = pos 0; total_cost_minor = pos 0 },
      average.quantity *ℤ average.unit_cost_minor,
    )
apply_average_issue_all_example =
    apply_average_issue_all average (pos 4) (omega arith) (omega arith)

-- Seven items that cost 11 in all have the unit cost 2; six of them are issued at 12.

abbrev thin : AverageCostSnapshot
thin = record average { quantity = pos 7; total_cost_minor = pos 11 }

-- A part issue that costs more than the value carried.
issue_overdraws :
    apply_average_issue thin (pos 6)
    ≡ ok (record thin { quantity = pos 1; total_cost_minor = negsuc 0 }, pos 12)
unfolding apply_average_issue ◌*ℤ◌ ◌-ℤ◌
issue_overdraws = refl
