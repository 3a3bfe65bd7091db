-- ===== src/Sales/Order/Delivery.antt =====
-- sales-order.ts: `recordDelivery`.
use nestjs_api_template.Prelude.Maps
use nestjs_api_template.Prelude.{
  Bool, List, Result, String, [], err, if◌then◌else◌, map, none, not, ok, or_else, some, throw_if,
  ℕ, ◌&&◌, ◌==◌, ◌>>=◌, ◌>>◌, ◌∷◌,
}
use nestjs_api_template.Prelude.Int.{leb_ℤ, ltb_ℤ, pos, ℤ, ◌+ℤ◌, ◌-ℤ◌}
use nestjs_api_template.Prelude.Lists.{all, find, length}
use nestjs_api_template.Prelude.Text.{str_eq}
use nestjs_api_template.Sales.Order.Methods.{transition}
use nestjs_api_template.Sales.Order.State.{
  DeliveryPosting, SalesOrder, SalesOrderError, SalesOrderLine, confirmed, delivered,
  illegal_transition, invalid_sales_order, over_delivery, partially_delivered, status_eq,
}

abbrev pub has_id : String → SalesOrderLine → Bool
has_id k l = str_eq l.id k

-- The body of the loop: what the map holds after one posting.
unfoldable pub add_posting :
    List SalesOrderLine
    → List (String × ℤ)
    → DeliveryPosting
    → Result SalesOrderError (List (String × ℤ))
add_posting lines delivered_by p = elim (find (has_id p.sales_order_line_id) lines) [
  | none ↦ err invalid_sales_order
  | some line ↦
      let already = or_else (Maps.get line.id delivered_by) (pos 0) in
      let remaining = line.quantity -ℤ already in
      throw_if (leb_ℤ p.quantity (pos 0)) invalid_sales_order
      >> throw_if (ltb_ℤ remaining p.quantity) (over_delivery line.id remaining p.quantity)
      >> ok (Maps.put line.id (already +ℤ p.quantity) delivered_by)
]

-- The loop over the postings.
unfoldable pub add_postings :
    List SalesOrderLine
    → List (String × ℤ)
    → List DeliveryPosting
    → Result SalesOrderError (List (String × ℤ))
add_postings lines delivered_by [] = ok delivered_by
add_postings lines delivered_by (p ∷ ps) =
    add_posting lines delivered_by p >>= λ next. add_postings lines next ps

-- A line with what the map holds for it.
unfoldable pub updated : List (String × ℤ) → SalesOrderLine → SalesOrderLine
updated delivered_by l = record l {
  delivered_qty = or_else (Maps.get l.id delivered_by) l.delivered_qty;
}

abbrev pub is_complete : List SalesOrderLine → Bool
is_complete = all (λ l. leb_ℤ l.quantity l.delivered_qty)

-- The map that the loop starts from.
abbrev pub delivered_so_far : List SalesOrderLine → List (String × ℤ)
delivered_so_far lines = Maps.from_entries [] (map (λ l. (l.id, l.delivered_qty)) lines)

-- What follows the loop.
unfoldable pub with_lines : SalesOrder → List SalesOrderLine → ℕ → Result SalesOrderError SalesOrder
unfolding transition
with_lines s lines now =
    let to = if is_complete lines then delivered else partially_delivered in
    let patched = record s {
      lines = lines;
      resolved_at = if is_complete lines then some now else s.resolved_at;
    } in
    let moved = transition s to now patched in
    if status_eq to s.status then ok (record patched { updated_at = now }) else moved

unfoldable pub record_delivery :
    SalesOrder → List DeliveryPosting → ℕ → Result SalesOrderError SalesOrder
record_delivery s postings now = do
  throw_if (not (status_eq s.status confirmed) && not (status_eq s.status partially_delivered))
      (illegal_transition s.id s.status partially_delivered)
  throw_if (length postings == 0) invalid_sales_order
  delivered_by ← add_postings s.lines (delivered_so_far s.lines) postings
  with_lines s (map (updated delivered_by) s.lines) now
