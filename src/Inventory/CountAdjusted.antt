-- ===== src/Inventory/CountAdjusted.antt =====
-- What the adjustment of a count does to the stock.
use nestjs_api_template.Inventory.Balance.{StockBalanceSnapshot, apply_movement}
use nestjs_api_template.Inventory.BalanceLaws.{IsStock, apply_movement_iff, moved}
use nestjs_api_template.Inventory.Count.{CountLine, adjustment_of}
use nestjs_api_template.Inventory.CountHistory.{IsLine}
use nestjs_api_template.Inventory.Movement.{InventoryError, MovementType, adjust_in, adjust_out}
use nestjs_api_template.Prelude.{
  Bool-cases, Option, Result, arith, inl, inr, none, ok, refl, some, sym, ◌∙◌, ◌≡◌,
}
use nestjs_api_template.Prelude.Int.{
  eq_of_sub, eqb_ℤ, int_laws, ltb_ℤ, neg, neg_parts, pos, ℤ, ◌+ℤ◌, ◌-ℤ◌, ◌≤ℤ◌,
}

-- The movement that is asked for a line, on a balance.
abbrev pub adjusted :
    StockBalanceSnapshot → Option (MovementType × ℤ) → Result InventoryError StockBalanceSnapshot
adjusted b none = ok b
adjusted b (some (type, quantity)) = apply_movement b type quantity (pos 0)

sub_zero : (a : ℤ) → a -ℤ pos 0 ≡ a
sub_zero a = omega int_laws

fits_in :
    (b : StockBalanceSnapshot) (q counted : ℤ)
    → IsStock b
    → b.on_hand_qty +ℤ q ≡ counted
    → b.reserved_qty ≤ℤ counted
    → IsStock (moved b adjust_in q (pos 0))
fits_in b q counted stock after free = record {
  reserved_nonneg = stock.reserved_nonneg;
  reserved_le = rw after free;
}

fits_out :
    (b : StockBalanceSnapshot) (q counted : ℤ)
    → IsStock b
    → b.on_hand_qty -ℤ q ≡ counted
    → b.reserved_qty ≤ℤ counted
    → IsStock (moved b adjust_out q (pos 0))
fits_out b q counted stock after free = record {
  reserved_nonneg = rw (sub_zero b.reserved_qty) stock.reserved_nonneg;
  reserved_le = rw (after, sub_zero b.reserved_qty) free;
}

-- A count brings the stock to what was counted: on a valid balance that holds what the sheet says
-- the system held, with no more reserved than was counted, the movement asked for a counted line is
-- accepted and leaves exactly the counted quantity on hand.
pub adjusted_to_count :
    (l : CountLine) (b : StockBalanceSnapshot) (counted : ℤ)
    → IsLine l
    → l.counted_qty ≡ some counted
    → IsStock b
    → b.on_hand_qty ≡ l.system_qty
    → b.reserved_qty ≤ℤ counted
    → adjusted b (adjustment_of l) ≡ ok (record b { on_hand_qty = counted })
unfolding adjustment_of
adjusted_to_count l b counted (nonneg, v) e stock held free =
    let (some_left, varies) = rw e at v in
    elim (Bool-cases (eqb_ℤ l.variance_qty (pos 0))) [
      | inl z ↦
          let nothing : l.variance_qty ≡ pos 0 = ground arith in
          let same : counted ≡ b.on_hand_qty = eq_of_sub (sym varies ∙ nothing) ∙ sym held in
          rw (z, same) refl
      | inr z ↦ elim (Bool-cases (ltb_ℤ (pos 0) l.variance_qty)) [
        | inl p ↦
            let after : b.on_hand_qty +ℤ l.variance_qty ≡ counted =
              rw (held, varies) (omega int_laws) in
            let end : record b { on_hand_qty = counted }
                ≡ moved b adjust_in l.variance_qty (pos 0) =
              rw after refl in
            rw (z, p)
              ((apply_movement_iff b adjust_in l.variance_qty (pos 0) stock).1 (
                ground arith,
                omega arith,
                ground arith,
                fits_in b l.variance_qty counted stock after free,
                end,
              ))
        | inr p ↦
            let after : b.on_hand_qty -ℤ neg l.variance_qty ≡ counted =
              rw (held, varies) (omega int_laws) in
            let end : record b { on_hand_qty = counted }
                ≡ moved b adjust_out (neg l.variance_qty) (pos 0) =
              rw (after, sub_zero b.reserved_qty) refl in
            rw (z, p)
              ((apply_movement_iff b adjust_out (neg l.variance_qty) (pos 0) stock).1 (
                ground (arith, neg_parts l.variance_qty),
                omega arith,
                ground (arith, neg_parts l.variance_qty),
                fits_out b (neg l.variance_qty) counted stock after free,
                end,
              ))
      ]
    ]
