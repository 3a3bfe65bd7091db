-- ===== src/Inventory/Average.antt =====
-- The moving average over receipts and issues.
use nestjs_api_template.Inventory.Costing.{
  AverageCostSnapshot, apply_average_issue, apply_average_receipt,
}
use nestjs_api_template.Prelude.{arith, ok, refl, ◌*◌, ◌+◌, ◌<◌, ◌≡◌, ◌≢◌, ◌≤◌}
use nestjs_api_template.Prelude.Int.{
  abs, eq_of_parts, int_laws, pos, ℤ, ◌*ℤ◌, ◌+ℤ◌, ◌-ℤ◌, ◌<ℤ◌, ◌≤ℤ◌, -ℤ_parts,
}
use nestjs_api_template.Shared.Rounding.{round_div_nearest}

-- A part issue of a positive quantity takes exactly the cost that it reports, at the unit cost,
-- from the value carried; the unit cost stays.
apply_average_issue_part :
    (avg : AverageCostSnapshot) (q : ℤ)
    → pos 0 <ℤ q
    → q <ℤ avg.quantity
    → (r : AverageCostSnapshot × ℤ) × (apply_average_issue avg q ≡ ok r)
      × (r.0.quantity ≡ avg.quantity -ℤ q)
      × (r.0.total_cost_minor ≡ avg.total_cost_minor -ℤ r.1)
      × (r.1 ≡ q *ℤ avg.unit_cost_minor)
      × (r.0.unit_cost_minor ≡ avg.unit_cost_minor)
unfolding apply_average_issue
apply_average_issue_part avg q p l = (
  (
    record avg {
      quantity = avg.quantity -ℤ q;
      total_cost_minor = avg.total_cost_minor -ℤ q *ℤ avg.unit_cost_minor;
      unit_cost_minor = avg.unit_cost_minor;
    },
    q *ℤ avg.unit_cost_minor,
  ),
  ground (arith, -ℤ_parts avg.quantity q),
  refl,
  refl,
  refl,
  refl,
)

-- An issue of the whole quantity or more issues what there is and leaves nothing, of value either.
pub apply_average_issue_all :
    (avg : AverageCostSnapshot) (q : ℤ)
    → pos 0 <ℤ q
    → avg.quantity ≤ℤ q
    → apply_average_issue avg q
      ≡ ok (
        record avg { quantity = pos 0; total_cost_minor = pos 0 },
        avg.quantity *ℤ avg.unit_cost_minor,
      )
unfolding apply_average_issue
apply_average_issue_all avg q p l = ground (
  arith,
  -ℤ_parts avg.quantity q,
  -ℤ_parts avg.quantity avg.quantity,
  eq_of_parts q avg.quantity,
  eq_of_parts (avg.quantity -ℤ avg.quantity) (pos 0),
  eq_of_parts (avg.quantity -ℤ q) (pos 0),
)

ne_zero : (n : ℤ) → pos 0 <ℤ n → n ≢ pos 0
ne_zero n l e = ground arith

-- A receipt on a stock that is not negative adds its cost to the value carried, and the unit cost
-- is the value over the quantity, to the nearest minor unit.
apply_average_receipt_lem :
    (avg : AverageCostSnapshot) (q cost : ℤ)
    → pos 0 ≤ℤ avg.quantity
    → pos 0 <ℤ q
    → (a : AverageCostSnapshot) × (apply_average_receipt avg q cost ≡ ok a)
      × (a.quantity ≡ avg.quantity +ℤ q)
      × (a.total_cost_minor ≡ avg.total_cost_minor +ℤ q *ℤ cost)
      × (2 * (abs a.unit_cost_minor * abs a.quantity) ≤ 2 * abs a.total_cost_minor + abs a.quantity)
      × (2 * abs a.total_cost_minor < 2 * (abs a.unit_cost_minor * abs a.quantity) + abs a.quantity)
unfolding apply_average_receipt
apply_average_receipt_lem avg q cost h p =
    let n = avg.quantity +ℤ q in
    let t = avg.total_cost_minor +ℤ q *ℤ cost in
    let some_stock : pos 0 <ℤ n = omega int_laws in
    let (u, e, lo, hi, _) = round_div_nearest t n (ne_zero n some_stock) in
    (
      record avg { quantity = n; total_cost_minor = t; unit_cost_minor = u },
      ground arith,
      refl,
      refl,
      lo,
      hi,
    )
