-- ===== src/Inventory/BalanceLaws.antt =====
-- The stock invariant, and a movement as one step of it.
-- Nothing is negative, and no more is reserved than is on hand.
use nestjs_api_template.Inventory.Balance.{StockBalanceSnapshot, apply_movement}
use nestjs_api_template.Inventory.Movement.{
  MovementType, adjust_in, adjust_out, is_inbound, is_outbound, issue, receipt, reserve,
  transfer_in, transfer_out, unreserve,
}
use nestjs_api_template.Prelude.{arith, if◌then◌else◌, ok, ◌↔◌, ◌≡◌}
use nestjs_api_template.Prelude.Int.{+ℤ_parts, pos, ℤ, ◌+ℤ◌, ◌-ℤ◌, ◌<ℤ◌, ◌≤ℤ◌, -ℤ_parts}

pub record IsStock (b : StockBalanceSnapshot) : Type 0 where
  pub reserved_nonneg : pos 0 ≤ℤ b.reserved_qty
  pub reserved_le : b.reserved_qty ≤ℤ b.on_hand_qty

-- What each type means for the two quantities.
abbrev pub on_hand_after : MovementType → ℤ → ℤ → ℤ
on_hand_after t on_hand q =
    if is_inbound t then on_hand +ℤ q else if is_outbound t then on_hand -ℤ q else on_hand

abbrev pub reserved_after : MovementType → ℤ → ℤ → ℤ → ℤ
reserved_after reserve r q c = r +ℤ q
reserved_after unreserve r q c = r -ℤ q
reserved_after t r q c = if is_outbound t then r -ℤ c else r

abbrev pub moved : StockBalanceSnapshot → MovementType → ℤ → ℤ → StockBalanceSnapshot
moved b t q c = record b {
  on_hand_qty = on_hand_after t b.on_hand_qty q;
  reserved_qty = reserved_after t b.reserved_qty q c;
}

-- The exact condition under which a movement of a valid balance is accepted: a positive quantity, a
-- consumed reservation within it, and a result in which nothing is negative or over-reserved. What
-- it returns is then the balance with the two quantities moved, and every other field as it was.
pub apply_movement_iff :
    (b : StockBalanceSnapshot) (t : MovementType) (q c : ℤ) {b' : StockBalanceSnapshot}
    → IsStock b
    → (apply_movement b t q c ≡ ok b')
      ↔ ((pos 0 <ℤ q) × (pos 0 ≤ℤ c) × (c ≤ℤ q) × IsStock (moved b t q c) × (b' ≡ moved b t q c))
unfolding apply_movement
apply_movement_iff b receipt q c v =
    (λ h. ground (arith, +ℤ_parts b.on_hand_qty q), λ h. ground (arith, +ℤ_parts b.on_hand_qty q))
apply_movement_iff b transfer_in q c v =
    (λ h. ground (arith, +ℤ_parts b.on_hand_qty q), λ h. ground (arith, +ℤ_parts b.on_hand_qty q))
apply_movement_iff b adjust_in q c v =
    (λ h. ground (arith, +ℤ_parts b.on_hand_qty q), λ h. ground (arith, +ℤ_parts b.on_hand_qty q))
apply_movement_iff b issue q c v = (
  λ h. ground (arith, -ℤ_parts b.on_hand_qty q, -ℤ_parts b.reserved_qty c),
  λ h. ground (arith, -ℤ_parts b.on_hand_qty q, -ℤ_parts b.reserved_qty c),
)
apply_movement_iff b transfer_out q c v = (
  λ h. ground (arith, -ℤ_parts b.on_hand_qty q, -ℤ_parts b.reserved_qty c),
  λ h. ground (arith, -ℤ_parts b.on_hand_qty q, -ℤ_parts b.reserved_qty c),
)
apply_movement_iff b adjust_out q c v = (
  λ h. ground (arith, -ℤ_parts b.on_hand_qty q, -ℤ_parts b.reserved_qty c),
  λ h. ground (arith, -ℤ_parts b.on_hand_qty q, -ℤ_parts b.reserved_qty c),
)
apply_movement_iff b reserve q c v = (
  λ h. ground (arith, +ℤ_parts b.reserved_qty q, -ℤ_parts b.on_hand_qty b.reserved_qty),
  λ h. ground (arith, +ℤ_parts b.reserved_qty q, -ℤ_parts b.on_hand_qty b.reserved_qty),
)
apply_movement_iff b unreserve q c v =
    (λ h. ground (arith, -ℤ_parts b.reserved_qty q), λ h. ground (arith, -ℤ_parts b.reserved_qty q))

-- A movement keeps the invariant, whatever its type, quantity and consumed reservation.
apply_movement-IsStock :
    (b : StockBalanceSnapshot) (t : MovementType) (q c : ℤ) {b' : StockBalanceSnapshot}
    → IsStock b
    → apply_movement b t q c ≡ ok b'
    → IsStock b'
apply_movement-IsStock b t q c v h =
    let (_, _, _, s, e) = (apply_movement_iff b t q c v).0 h in rw e s
