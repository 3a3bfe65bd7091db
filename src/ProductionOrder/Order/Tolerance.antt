-- ===== src/ProductionOrder/Order/Tolerance.antt =====
-- Rule R9: production stays within the tolerance, and closes the order at the completion floor.
use nestjs_api_template.ProductionOrder.Quantity
use nestjs_api_template.Prelude.{
  List, Result, String, arith, if◌then◌else◌, inl, inr, ok, refl, ℕ, ◌*◌, ◌+◌, ◌-◌, ◌/◌, ◌↔◌, ◌∙◌,
  ◌≡◌,
}
use nestjs_api_template.Prelude.Int.{
  leb_ℤ, ltb_ℤ, pos, pos_add, pos_div, pos_mul, ℤ, ◌+ℤ◌, ◌-ℤ◌, ◌≤ℤ◌,
}
use nestjs_api_template.ProductionOrder.Order.Invariant.{IsValid, recorded-IsValid}
use nestjs_api_template.ProductionOrder.Order.Methods.{
  complete_at_floor, record_progress, report_progress,
}
use nestjs_api_template.ProductionOrder.Order.Progress.{
  complete_at_floor_lem, report_progress-cases,
}
use nestjs_api_template.ProductionOrder.Order.State.{OrderError, OrderEvent, ProductionOrder}
use nestjs_api_template.ProductionOrder.Policies.{TolerancePolicy, completion_floor, over_ceiling}
use nestjs_api_template.ProductionOrder.Quantity.{Quantity, add-eq-ok, of-IsQuantity}
use nestjs_api_template.ProductionOrder.Status.{completed, in_progress}

of_value : (v : ℤ) (u : String) {q : Quantity} → Quantity.of v u ≡ ok q → q.value ≡ v
of_value v u h = (of-IsQuantity v u h).1

ceiling_lem :
    (q : Quantity) (p : TolerancePolicy) (k over : ℕ) {c : Quantity}
    → q.value ≡ pos k
    → p.over_basis_points ≡ pos over
    → over_ceiling q p ≡ ok c
    → c.value ≡ pos (k * (10000 + over) / 10000)
unfolding over_ceiling
ceiling_lem q p k over {c} ek eo h = of_value _ _ h ∙ rw (ek, eo, pos_add, pos_mul, pos_div) refl

clamp :
    (u : ℕ)
    → (if ltb_ℤ (pos 10000 -ℤ pos u) (pos 0) then pos 0 else pos 10000 -ℤ pos u) ≡ pos (10000 - u)
unfolding ◌-ℤ◌
clamp u = ground arith

floor_lem :
    (q : Quantity) (p : TolerancePolicy) (k under : ℕ) {f : Quantity}
    → q.value ≡ pos k
    → p.under_basis_points ≡ pos under
    → completion_floor q p ≡ ok f
    → f.value ≡ pos (k * (10000 - under) / 10000)
unfolding completion_floor
floor_lem q p k under {f} ek eu h = of_value _ _ h ∙ rw (ek, eu, clamp under, pos_mul, pos_div) refl

record_progress_writes :
    (q w : Quantity) (a : String) (n : ℕ) (o : ProductionOrder)
    → ((record_progress q w a n o).1.ordered_quantity ≡ o.ordered_quantity)
      × ((record_progress q w a n o).1.produced_quantity ≡ w)
unfolding record_progress
record_progress_writes q w a n o = ground arith

-- What a report that was accepted leaves, in terms of its completion floor.
closed_lem :
    (o : ProductionOrder) (f : ℤ) (e : List OrderEvent)
    (r : Result OrderError (Unit {0}) × ProductionOrder)
    → o.status ≡ in_progress
    → r ≡ (
        if leb_ℤ f o.produced_quantity.value
        then (ok tt, record o { status = completed; pending_events = e })
        else (ok tt, o))
    → (r.1.produced_quantity ≡ o.produced_quantity)
      × ((r.1.status ≡ completed) ↔ (f ≤ℤ o.produced_quantity.value))
closed_lem o f e r s h = ground arith

-- A report that is accepted adds its quantity, stays within ordered × (10000 + over) / 10000, and
-- completes the order exactly when production has reached ordered × (10000 - under) / 10000.
pub report_progress_within_tolerance :
    (q : Quantity) (a : String) (n : ℕ) (p : TolerancePolicy) (o : ProductionOrder)
    (k over under : ℕ)
    → IsValid o
    → o.ordered_quantity.value ≡ pos k
    → p.over_basis_points ≡ pos over
    → p.under_basis_points ≡ pos under
    → (report_progress q a n p o).0 ≡ ok tt
    → let o' = (report_progress q a n p o).1 in
      (o'.produced_quantity.value ≡ o.produced_quantity.value +ℤ q.value)
      × (o'.produced_quantity.value ≤ℤ pos (k * (10000 + over) / 10000))
      × ((o'.status ≡ completed)
          ↔ (pos (k * (10000 - under) / 10000) ≤ℤ o'.produced_quantity.value))
report_progress_within_tolerance q a n p o k over under v ek eo eu h =
    elim (report_progress-cases q a n p o) [
      | inl (e, same) ↦ cc (same)
      | inr (w, acc, same) ↦
          let (v', s') = recorded-IsValid q w a n o v acc.producing acc.cumulative in
          let o' = (record_progress q w a n o).1 in
          let (f, ef, closed) = complete_at_floor_lem a n p o' v'.ordered v'.one_unit in
          let (same_order, now_made) = record_progress_writes q w a n o in
          let top : acc.ceiling.value ≡ pos (k * (10000 + over) / 10000) =
            ceiling_lem o.ordered_quantity p k over ek eo acc.ceiling_is in
          let low : f.value ≡ pos (k * (10000 - under) / 10000) =
            floor_lem o'.ordered_quantity p k under (rw same_order ek) eu ef in
          let (kept, closes) = closed_lem o' f.value _ (complete_at_floor a n p o') s' closed in
          let (_, total, _, _) = add-eq-ok o.produced_quantity q acc.cumulative in
          let limit : w.value ≤ℤ pos (k * (10000 + over) / 10000) = rw top at acc.within in
          rw (same, kept, now_made) (total, limit, rw (low, now_made) at closes)
    ]
