-- ===== src/Inventory/Balance.antt =====
-- balance.ts: the projection per warehouse, item and lot, one movement on it, and FEFO allocation.
use nestjs_api_template.Inventory.Movement.{
  InventoryError, MovementType, adjust_in, adjust_out, invalid_movement, issue, receipt,
  reservation_exceeds_stock, reserve, transfer_in, transfer_out, unreserve,
}
use nestjs_api_template.Prelude.{
  List, Option, Result, String, [], if◌then◌else◌, ok, throw_if, ℕ, ◌++◌, ◌>>◌, ◌||◌, ◌∷◌,
}
use nestjs_api_template.Prelude.Int.{leb_ℤ, ltb_ℤ, pos, ℤ, ◌+ℤ◌, ◌-ℤ◌}

pub record StockBalanceSnapshot : Type 0 where
  pub id : String
  pub tenant_id : String
  pub warehouse_id : String
  pub item_id : String
  pub lot_id : Option String
  pub uom_code : String
  pub on_hand_qty : ℤ
  pub reserved_qty : ℤ
  pub version : ℕ

unfoldable pub available_qty : StockBalanceSnapshot → ℤ
available_qty b = b.on_hand_qty -ℤ b.reserved_qty

-- The case of the three inbound types.
move_in : StockBalanceSnapshot → ℤ → Result InventoryError StockBalanceSnapshot
move_in b quantity = ok (record b { on_hand_qty = b.on_hand_qty +ℤ quantity })

-- The case of the three outbound types.
move_out : StockBalanceSnapshot → ℤ → ℤ → Result InventoryError StockBalanceSnapshot
move_out b quantity consume_reserved = do
  let reserved = b.reserved_qty -ℤ consume_reserved
  throw_if (ltb_ℤ reserved (pos 0)) reservation_exceeds_stock
  let on_hand = b.on_hand_qty -ℤ quantity
  throw_if (ltb_ℤ on_hand (pos 0) || ltb_ℤ on_hand reserved) reservation_exceeds_stock
  ok (record b { on_hand_qty = on_hand; reserved_qty = reserved })

-- The `switch` on the type.
apply_type :
    StockBalanceSnapshot → MovementType → ℤ → ℤ → Result InventoryError StockBalanceSnapshot
unfolding move_in move_out available_qty
apply_type b receipt q c = move_in b q
apply_type b transfer_in q c = move_in b q
apply_type b adjust_in q c = move_in b q
apply_type b issue q c = move_out b q c
apply_type b transfer_out q c = move_out b q c
apply_type b adjust_out q c = move_out b q c
apply_type b reserve q c =
    throw_if (ltb_ℤ (available_qty b) q) reservation_exceeds_stock
    >> ok (record b { reserved_qty = b.reserved_qty +ℤ q })
apply_type b unreserve q c =
    throw_if (ltb_ℤ b.reserved_qty q) reservation_exceeds_stock
    >> ok (record b { reserved_qty = b.reserved_qty -ℤ q })

unfoldable pub apply_movement :
    StockBalanceSnapshot → MovementType → ℤ → ℤ → Result InventoryError StockBalanceSnapshot
unfolding apply_type
apply_movement b type quantity consume_reserved = do
  throw_if (leb_ℤ quantity (pos 0)) invalid_movement
  throw_if (ltb_ℤ consume_reserved (pos 0) || ltb_ℤ quantity consume_reserved) invalid_movement
  apply_type b type quantity consume_reserved

-- The loop of `allocateFefo` over the candidates left, with what is still to be covered and the
-- allocations pushed so far.
unfoldable pub fefo_loop : {A : Type 0} → (A → ℤ) → List A → ℤ → List (A × ℤ) → List (A × ℤ) × ℤ
fefo_loop available [] remaining allocations = (allocations, remaining)
fefo_loop available (c ∷ cs) remaining allocations =
    let take = if ltb_ℤ (available c) remaining then available c else remaining in
    let skipped = fefo_loop available cs remaining allocations in
    let taken = fefo_loop available cs (remaining -ℤ take) (allocations ++ (c, take) ∷ []) in
    if leb_ℤ remaining (pos 0)
    then (allocations, remaining)
    else if leb_ℤ (available c) (pos 0)
    then skipped
    else taken

unfoldable pub allocate_fefo : {A : Type 0} → (A → ℤ) → List A → ℤ → List (A × ℤ) × ℤ
unfolding fefo_loop
allocate_fefo available candidates quantity = fefo_loop available candidates quantity []
