-- ===== src/Sales/Order/Invariant.antt =====
-- What holds of a sales order at all times, and the exact effect of a delivery.
use nestjs_api_template.Prelude.Maps
use nestjs_api_template.Prelude.{
  Bool, Bool-cases, List, Result-cases, String, [], ap, arith, false, if◌then◌else◌, inl, inr, map,
  not, ok, or_else, refl, some, true, ℕ, ◌&&◌, ◌↔◌, ◌∷◌, ◌≡◌, ◌≤◌, ◌⊎◌,
}
use nestjs_api_template.Prelude.Int.{+ℤ_parts, int_laws, leb_ℤ, ltb_ℤ, pos, ℤ, ◌+ℤ◌, ◌<ℤ◌, ◌≤ℤ◌}
use nestjs_api_template.Prelude.Lists.{
  All, All-both, All-of_map, All-unmap, Pairs-map, any-map-find, find-All, length, map-All,
}
use nestjs_api_template.Sales.Order.Delivery.{
  add_postings, delivered_so_far, has_id, is_complete, record_delivery, updated, with_lines,
}
use nestjs_api_template.Sales.Order.Methods.{has_deliveries, transition}
use nestjs_api_template.Sales.Order.Posted.{
  DistinctIds, Named, Named-add_postings, Room, add_postings-Named, add_postings-get,
  find-DistinctIds, first_posted, posted_nonneg, posted_to,
}
use nestjs_api_template.Sales.Order.State.{
  DeliveryPosting, SalesOrder, SalesOrderLine, SalesOrderStatus, can_transition, cancelled,
  confirmed, delivered, draft, partially_delivered, pending_approval, rejected, status_eq,
  transitions,
}
use nestjs_api_template.Shared.Money.{same}

-- Between nothing and the whole of a line is delivered.
abbrev pub Within : SalesOrderLine → Type 0
Within l = (pos 0 <ℤ l.quantity) × (pos 0 ≤ℤ l.delivered_qty) × (l.delivered_qty ≤ℤ l.quantity)

-- Of every line at least what was ordered is delivered.
abbrev pub all_delivered : List SalesOrderLine → Bool
all_delivered [] = true
all_delivered (l ∷ ls) = leb_ℤ l.quantity l.delivered_qty && all_delivered ls

is_complete_lem : (ls : List SalesOrderLine) → is_complete ls ≡ all_delivered ls
is_complete_lem [] = refl
is_complete_lem (l ∷ ls) = rw (is_complete_lem ls) refl

-- What the status says of the deliveries.
abbrev pub DeliveredAs : SalesOrderStatus → List SalesOrderLine → Type 0
DeliveredAs partially_delivered ls = (has_deliveries ls ≡ true) × (all_delivered ls ≡ false)
DeliveredAs delivered ls = (has_deliveries ls ≡ true) × (all_delivered ls ≡ true)
DeliveredAs draft ls = has_deliveries ls ≡ false
DeliveredAs pending_approval ls = has_deliveries ls ≡ false
DeliveredAs confirmed ls = has_deliveries ls ≡ false
DeliveredAs rejected ls = has_deliveries ls ≡ false
DeliveredAs cancelled ls = has_deliveries ls ≡ false

pub record IsValid (o : SalesOrder) : Type 0 where
  pub distinct : DistinctIds o.lines
  pub within : All Within o.lines
  pub progress : DeliveredAs o.status o.lines

-- Deliveries are recorded on a confirmed order, or on one that is delivered in part.
abbrev pub Deliverable : SalesOrderStatus → Type 0
Deliverable st = (st ≡ confirmed) ⊎ (st ≡ partially_delivered)

abbrev pub line_with : List DeliveryPosting → SalesOrderLine → SalesOrderLine
line_with ps l = record l { delivered_qty = l.delivered_qty +ℤ posted_to l.id ps }

-- The postings to a line are within what is left of it.
abbrev pub FitsIn : List DeliveryPosting → SalesOrderLine → Type 0
FitsIn ps l = l.delivered_qty +ℤ posted_to l.id ps ≤ℤ l.quantity

abbrev status_after : List SalesOrderLine → SalesOrderStatus
status_after lines = if all_delivered lines then delivered else partially_delivered

-- The order after a delivery.
abbrev pub order_with : SalesOrder → List DeliveryPosting → ℕ → SalesOrder
order_with o ps now =
    let lines = map (line_with ps) o.lines in
    record o {
      lines = lines;
      status = status_after lines;
      resolved_at = if all_delivered lines then some now else o.resolved_at;
      updated_at = now;
    }

with_lines_lem :
    (o : SalesOrder) (ps : List DeliveryPosting) (now : ℕ)
    → Deliverable o.status
    → with_lines o (map (line_with ps) o.lines) now ≡ ok (order_with o ps now)
unfolding with_lines transition can_transition transitions
with_lines_lem o ps now (inl s) =
    let lines = map (line_with ps) o.lines in
    elim (Bool-cases (all_delivered lines)) [
      | inl e ↦ rw (is_complete_lem lines, e, s) refl
      | inr e ↦ rw (is_complete_lem lines, e, s) refl
    ]
with_lines_lem o ps now (inr s) =
    let lines = map (line_with ps) o.lines in
    elim (Bool-cases (all_delivered lines)) [
      | inl e ↦ rw (is_complete_lem lines, e, s) refl
      | inr e ↦ rw (is_complete_lem lines, e, s) refl
    ]

-- The map that the loop starts from has every line.
delivered_so_far-get :
    (lines : List SalesOrderLine)
    → DistinctIds lines
    → All (λ l. Maps.get l.id (delivered_so_far lines) ≡ some l.delivered_qty) lines
delivered_so_far-get lines d =
    All-unmap _ _ lines (Maps.from_entries-All [] _ (Pairs-map _ _ lines d))

-- What the loop makes of the lines.
updated_lines :
    (lines : List SalesOrderLine) (ps : List DeliveryPosting) {n : List (String × ℤ)}
    → DistinctIds lines
    → All Within lines
    → add_postings lines (delivered_so_far lines) ps ≡ ok n
    → (map (updated n) lines ≡ map (line_with ps) lines) × All (FitsIn ps) lines
unfolding updated
updated_lines lines ps {n} d w h =
    let start = delivered_so_far-get lines d in
    let found = find-DistinctIds lines d in
    let after =
      All-both (λ l g f. add_postings-get lines (delivered_so_far lines) ps h l f g) lines start
        found in
    (
      map-All (updated n) (line_with ps) lines (
          All-both (λ l a w. ap (λ o. record l { delivered_qty = or_else o l.delivered_qty }) a.0)
            lines after w),
      All-both (λ l a w. a.1 w.2) lines after w,
    )

delivery_loop :
    (lines : List SalesOrderLine) (ps : List DeliveryPosting)
    → DistinctIds lines
    → Named lines ps
    → All (FitsIn ps) lines
    → (n : List (String × ℤ)) × (add_postings lines (delivered_so_far lines) ps ≡ ok n)
delivery_loop lines ps d named fits =
    let rooms =
      All-both (λ l g f. (l.delivered_qty, g, f)) lines (delivered_so_far-get lines d) fits in
    Named-add_postings lines (delivered_so_far lines) ps named
      (λ x f. (find-All (Room lines (delivered_so_far lines) ps) (has_id x.id) lines rooms f).0)

Deliverable-of_guard :
    (st : SalesOrderStatus)
    → (not (status_eq st confirmed) && not (status_eq st partially_delivered)) ≡ false
    → Deliverable st
Deliverable-of_guard confirmed h = inl refl
Deliverable-of_guard partially_delivered h = inr refl
Deliverable-of_guard draft h = absurd (ground arith)
Deliverable-of_guard pending_approval h = absurd (ground arith)
Deliverable-of_guard delivered h = absurd (ground arith)
Deliverable-of_guard rejected h = absurd (ground arith)
Deliverable-of_guard cancelled h = absurd (ground arith)

guard_of_Deliverable :
    (st : SalesOrderStatus)
    → Deliverable st
    → (not (status_eq st confirmed) && not (status_eq st partially_delivered)) ≡ false
guard_of_Deliverable st (inl e) = rw e refl
guard_of_Deliverable st (inr e) = rw e refl

-- A delivery is recorded on a valid order exactly when the order is confirmed or delivered in part,
-- there is a posting, each names a line with a positive quantity, and together they are within what
-- is left of each line; it adds to each line what was posted to it.
pub record_delivery_iff :
    (o : SalesOrder) (ps : List DeliveryPosting) (now : ℕ) {t : SalesOrder}
    → IsValid o
    → (record_delivery o ps now ≡ ok t) ↔ (
        Deliverable o.status
        × (1 ≤ length ps)
        × Named o.lines ps
        × All (FitsIn ps) o.lines
        × (t ≡ order_with o ps now))
unfolding record_delivery
record_delivery_iff o ps now {t} v = (
  λ h. elim (Result-cases (add_postings o.lines (delivered_so_far o.lines) ps)) [
    | inr (e, bad) ↦ absurd (ground arith)
    | inl (n, fine) ↦
        let (same, fits) = updated_lines o.lines ps v.distinct v.within fine in
        let open_order : Deliverable o.status = Deliverable-of_guard o.status (ground arith) in
        (
          open_order,
          ground arith,
          add_postings-Named o.lines _ ps fine,
          fits,
          ground (arith, ap (λ ls. with_lines o ls now) same, with_lines_lem o ps now open_order),
        )
  ],
  λ (can, many, named, fits, end).
      let (n, fine) = delivery_loop o.lines ps v.distinct named fits in
      let (same, _) = updated_lines o.lines ps v.distinct v.within fine in
      ground (
        arith,
        guard_of_Deliverable o.status can,
        many,
        fine,
        ap (λ ls. with_lines o ls now) same,
        with_lines_lem o ps now can,
        end,
      ),
)

lines_with-Within :
    (all_lines lines : List SalesOrderLine) (ps : List DeliveryPosting)
    → Named all_lines ps
    → All Within lines
    → All (FitsIn ps) lines
    → All Within (map (line_with ps) lines)
lines_with-Within all_lines lines ps named within fits = All-of_map Within (line_with ps) lines (
    All-both (λ l w f. (w.0, omega (int_laws, w.1, posted_nonneg all_lines ps l.id named), f)) lines
      within fits)

above_zero : (a b : ℤ) → pos 0 ≤ℤ a → pos 0 <ℤ b → ltb_ℤ (pos 0) (a +ℤ b) ≡ true
above_zero a b h k = ground (arith, +ℤ_parts a b)

lines_with_deliveries :
    (lines : List SalesOrderLine) (ps : List DeliveryPosting)
    → 1 ≤ length ps
    → Named lines ps
    → All Within lines
    → has_deliveries (map (line_with ps) lines) ≡ true
lines_with_deliveries lines [] many named within = absurd (omega (arith, many))
lines_with_deliveries lines (p ∷ ps) many named within =
    let (l, found) = named.0.1 in
    let old = (find-All Within (has_id p.sales_order_line_id) lines within found).0 in
    let new = first_posted lines p ps l named found in
    any-map-find (has_id p.sales_order_line_id) (λ l. ltb_ℤ (pos 0) l.delivered_qty)
      (line_with (p ∷ ps)) lines found
      (above_zero l.delivered_qty (posted_to l.id (p ∷ ps)) old.1 new)

delivered_progress :
    (lines : List SalesOrderLine)
    → has_deliveries lines ≡ true
    → DeliveredAs (status_after lines) lines
delivered_progress lines h = elim (Bool-cases (all_delivered lines)) [
  | inl e ↦ rw e (h, e)
  | inr e ↦ rw e (h, e)
]

-- A delivery keeps a valid order valid.
pub record_delivery-IsValid :
    (o : SalesOrder) (ps : List DeliveryPosting) (now : ℕ) {t : SalesOrder}
    → IsValid o
    → record_delivery o ps now ≡ ok t
    → IsValid t
record_delivery-IsValid o ps now v h =
    let (can, many, named, fits, end) = (record_delivery_iff o ps now v).0 h in
    rw end (record {
      distinct = Pairs-map _ (line_with ps) o.lines v.distinct;
      within = lines_with-Within o.lines o.lines ps named v.within fits;
      progress =
          delivered_progress (map (line_with ps) o.lines)
            (lines_with_deliveries o.lines ps many named v.within);
    })
