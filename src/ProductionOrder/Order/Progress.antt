-- ===== src/ProductionOrder/Order/Progress.antt =====
-- What `report_progress` does on each branch.
use nestjs_api_template.ProductionOrder.Quantity
use nestjs_api_template.Prelude.{
  Bool-cases, Result-cases, String, [], arith, err, false, if◌then◌else◌, inl, inr, not, ok, sym,
  true, ℕ, ◌&&◌, ◌++◌, ◌∙◌, ◌∷◌, ◌≡◌, ◌⊎◌,
}
use nestjs_api_template.Prelude.Int.{leb_ℤ, ◌≤ℤ◌}
use nestjs_api_template.ProductionOrder.Order.Methods.{
  complete_at_floor, event_base, record_progress, report_progress,
}
use nestjs_api_template.ProductionOrder.Order.State.{
  Method, OrderError, ProductionOrder, completed_event, illegal_status_transition, overproduction,
  quantity_error, ◌>>◌,
}
use nestjs_api_template.ProductionOrder.Policies.{TolerancePolicy, completion_floor, over_ceiling}
use nestjs_api_template.ProductionOrder.Policies.Bounds.{completion_floor_total}
use nestjs_api_template.ProductionOrder.Quantity.{
  IsQuantity, Quantity, greater_than-eq-ok, greater_than_or_equal_same,
}
use nestjs_api_template.ProductionOrder.Status.{
  ProductionOrderStatus, completed, in_progress, released, status_eq,
}

-- The end of a report neither throws nor touches anything but the status and the events.
pub complete_at_floor_lem :
    (actor : String) (now : ℕ) (p : TolerancePolicy) (o : ProductionOrder)
    → IsQuantity o.ordered_quantity
    → o.produced_quantity.uom ≡ o.ordered_quantity.uom
    → (f : Quantity) × (completion_floor o.ordered_quantity p ≡ ok f)
      × (complete_at_floor actor now p o ≡ (
          if leb_ℤ f.value o.produced_quantity.value
          then (
            ok tt,
            record o {
              status = completed;
              pending_events =
                  o.pending_events
                  ++ completed_event
                      (event_base actor now o.status (record o { status = completed }))
                      o.produced_quantity
                    ∷ [];
            },
          )
          else (ok tt, o)))
unfolding complete_at_floor
complete_at_floor_lem actor now p o v unit =
    let (f, e, fu, _) = completion_floor_total o.ordered_quantity p v in
    let ge : Quantity.is_greater_than_or_equal o.produced_quantity f
        ≡ ok (leb_ℤ f.value o.produced_quantity.value) =
      greater_than_or_equal_same o.produced_quantity f (unit ∙ sym fu) in
    (f, e, rw (e, ge) (ground arith))

-- A report that is accepted: the order may take it, and the new quantity is within the ceiling.
pub record Accepted (quantity : Quantity) (p : TolerancePolicy) (o : ProductionOrder)
    (would_be : Quantity) : Type 0 where
  pub producing : (o.status ≡ released) ⊎ (o.status ≡ in_progress)
  pub cumulative : Quantity.add o.produced_quantity quantity ≡ ok would_be
  pub ceiling : Quantity
  pub ceiling_is : over_ceiling o.ordered_quantity p ≡ ok ceiling
  pub within : would_be.value ≤ℤ ceiling.value

record_progress_ok :
    (q w : Quantity) (a : String) (n : ℕ) (k : Method (Unit {0})) (o : ProductionOrder)
    → (record_progress q w a n >> k) o ≡ k (record_progress q w a n o).1
unfolding record_progress
record_progress_ok q w a n k o = ground arith

producing_of :
    (s : ProductionOrderStatus)
    → (not (status_eq s released) && not (status_eq s in_progress)) ≡ false
    → (s ≡ released) ⊎ (s ≡ in_progress)
producing_of s h = ground arith

-- A report either throws before any write, or is accepted and recorded.
pub report_progress-cases :
    (q : Quantity) (a : String) (n : ℕ) (p : TolerancePolicy) (o : ProductionOrder)
    → ((e : OrderError) × (report_progress q a n p o ≡ (err e, o)))
      ⊎ ((w : Quantity) × Accepted q p o w
          × (report_progress q a n p o ≡ complete_at_floor a n p (record_progress q w a n o).1))
unfolding report_progress
report_progress-cases q a n p o =
    elim (Bool-cases (not (status_eq o.status released) && not (status_eq o.status in_progress))) [
      | inl bad ↦ inl (illegal_status_transition o.status in_progress, rw bad)
      | inr good ↦ elim (Result-cases (Quantity.add o.produced_quantity q)) [
        | inr (e, h) ↦ inl (quantity_error e, rw (good, h))
        | inl (w, h) ↦ elim (Result-cases (over_ceiling o.ordered_quantity p)) [
          | inr (e, h2) ↦ inl (quantity_error e, rw (good, h, h2))
          | inl (c, h2) ↦ elim (Result-cases (Quantity.is_greater_than w c)) [
            | inr (e, h3) ↦ inl (quantity_error e, rw (good, h, h2, h3))
            | inl (true, h3) ↦
                inl (overproduction o.id o.ordered_quantity w c, rw (good, h, h2, h3))
            | inl (false, h3) ↦ inr (
              w,
              record {
                producing = producing_of o.status good;
                cumulative = h;
                ceiling = c;
                ceiling_is = h2;
                within = ground (arith, greater_than-eq-ok w c h3);
              },
              rw (good, h, h2, h3) (record_progress_ok q w a n (complete_at_floor a n p) o),
            )
          ]
        ]
      ]
    ]
