-- ===== src/ProductionOrder/Order/Methods.antt =====
-- The methods of `class ProductionOrder`.
use nestjs_api_template.ProductionOrder.Quantity
use nestjs_api_template.Prelude.{
  Bool, Result, String, [], err, if◌then◌else◌, none, not, ok, some, throw_if, ℕ, ◌&&◌, ◌++◌, ◌∷◌,
}
use nestjs_api_template.Prelude.Text.{opt_str_eq, str_eq}
use nestjs_api_template.ProductionOrder.Money.{Money, MoneyError}
use nestjs_api_template.ProductionOrder.Order.State.{
  DraftInput, EventBase, Method, ProductionOrder, ProductionOrderSnapshot, approved_event,
  cancelled_event, completed_event, get, illegal_status_transition, lift, modify, money_error,
  overproduction, progress_reported_event, push_event, quantity_error, recalled_event,
  released_event, second_approver_must_differ, segregation_of_duties, skip, submitted_event,
  throw_when, ◌>>=◌, ◌>>◌,
}
use nestjs_api_template.ProductionOrder.Policies.{TolerancePolicy, completion_floor, over_ceiling}
use nestjs_api_template.ProductionOrder.Quantity.{Quantity, QuantityError}
use nestjs_api_template.ProductionOrder.Status.{
  ProductionOrderStatus, approved, can_transition, cancelled, completed, draft, in_progress,
  released, status_eq, submitted,
}

unfoldable pub draft_order : DraftInput → Result QuantityError ProductionOrder
draft_order input = elim (Quantity.zero_of input.ordered_quantity.uom) [
  | err e ↦ err e
  | ok produced ↦ ok (record {
    id = input.id;
    tenant_id = input.tenant_id;
    created_by = input.created_by;
    product_sku = input.product_sku;
    ordered_quantity = input.ordered_quantity;
    total_amount = input.total_amount;
    created_at = input.now;
    version = 0;
    status = draft;
    first_approver = none;
    second_approver = none;
    produced_quantity = produced;
    progress_reports = [];
    updated_at = input.now;
    pending_events = [];
  })
]

unfoldable pub from_snapshot : ProductionOrderSnapshot → ProductionOrder
from_snapshot s = record {
  id = s.id;
  tenant_id = s.tenant_id;
  created_by = s.created_by;
  product_sku = s.product_sku;
  ordered_quantity = s.ordered_quantity;
  total_amount = s.total_amount;
  created_at = s.created_at;
  version = s.version;
  status = s.status;
  first_approver = s.first_approver;
  second_approver = s.second_approver;
  produced_quantity = s.produced_quantity;
  progress_reports = s.progress_reports;
  updated_at = s.updated_at;
  pending_events = [];
}

unfoldable pub snapshot : ProductionOrder → ProductionOrderSnapshot
snapshot o = record {
  id = o.id;
  tenant_id = o.tenant_id;
  created_by = o.created_by;
  status = o.status;
  product_sku = o.product_sku;
  ordered_quantity = o.ordered_quantity;
  total_amount = o.total_amount;
  first_approver = o.first_approver;
  second_approver = o.second_approver;
  produced_quantity = o.produced_quantity;
  progress_reports = o.progress_reports;
  version = o.version;
  created_at = o.created_at;
  updated_at = o.updated_at;
}

unfoldable pub clear_pending_events : ProductionOrder → ProductionOrder
clear_pending_events o = record o { pending_events = [] }

unfoldable pub assert_can_transition : ProductionOrderStatus → Method (Unit {0})
assert_can_transition next o =
    (throw_if (not (can_transition o.status next)) (illegal_status_transition o.status next), o)

-- The fields that every event of the order shares; the status is the one after the change.
abbrev pub event_base : String → ℕ → ProductionOrderStatus → ProductionOrder → EventBase
event_base actor now previous o = record {
  aggregate_id = o.id;
  tenant_id = o.tenant_id;
  occurred_at = now;
  actor = actor;
  from_status = previous;
  to_status = o.status;
}

unfoldable pub submit : String → ℕ → Method (Unit {0})
unfolding assert_can_transition
submit actor now = do
  assert_can_transition submitted
  previous ← get
  modify (λ o. record o { status = submitted; updated_at = now })
  push_event (submitted_event (event_base actor now previous.status (← get)))

unfoldable pub recall : String → ℕ → Method (Unit {0})
unfolding assert_can_transition
recall actor now = do
  assert_can_transition draft
  previous ← get
  modify (λ o. record o {
    status = draft;
    first_approver = none;
    second_approver = none;
    updated_at = now;
  })
  push_event (recalled_event (event_base actor now previous.status (← get)))

-- The part of `approve` that completes the transition, once the approvers are recorded.
unfoldable pub complete_approval : String → ℕ → Method (Unit {0})
complete_approval actor now = do
  previous ← get
  modify (λ o. record o { status = approved; updated_at = now })
  o ← get
  push_event (
      approved_event (event_base actor now previous.status o) o.first_approver o.second_approver
        o.total_amount)

-- `threshold` is `ApprovalThresholdPolicy.requiresDualApproval` of the injected policy.
unfoldable pub approve : String → (Money → Result MoneyError Bool) → ℕ → Method (Unit {0})
unfolding complete_approval
approve actor threshold now = do
  o ← get
  throw_when (not (status_eq o.status submitted)) (illegal_status_transition o.status approved)
  throw_when (str_eq actor o.created_by) (segregation_of_duties o.id actor)
  dual_required ← lift money_error (threshold o.total_amount)
  if dual_required && opt_str_eq o.first_approver none
      then modify (λ p. record p { first_approver = some actor; updated_at = now })
      else if dual_required
      then (do
        throw_when (opt_str_eq (some actor) o.first_approver)
            (second_approver_must_differ o.id actor)
        modify (λ p. record p { second_approver = some actor })
        complete_approval actor now)
      else (do modify (λ p. record p { first_approver = some actor }); complete_approval actor now)

unfoldable pub release : String → ℕ → Method (Unit {0})
unfolding assert_can_transition
release actor now = do
  assert_can_transition released
  previous ← get
  modify (λ o. record o { status = released; updated_at = now })
  push_event (released_event (event_base actor now previous.status (← get)))

-- The end of `reportProgress`: an order at its completion floor is closed.
unfoldable pub complete_at_floor : String → ℕ → TolerancePolicy → Method (Unit {0})
complete_at_floor actor now tolerance = do
  o ← get
  floor ← lift quantity_error (completion_floor o.ordered_quantity tolerance)
  reached ← lift quantity_error (Quantity.is_greater_than_or_equal o.produced_quantity floor)
  if reached
      then (do
        modify (λ p. record p { status = completed })
        push_event
            (completed_event (event_base actor now o.status (← get)) (← get).produced_quantity))
      else skip

-- The writes of `reportProgress`, once the report is known to be within the ceiling.
unfoldable pub record_progress : Quantity → Quantity → String → ℕ → Method (Unit {0})
record_progress quantity would_be actor now = do
  previous ← get
  modify (λ o. record o {
    produced_quantity = would_be;
    progress_reports =
        o.progress_reports ++ record { reported = quantity; by = actor; at = now } ∷ [];
  })
  if status_eq previous.status released
      then modify (λ o. record o { status = in_progress })
      else skip
  modify (λ o. record o { updated_at = now })
  o ← get
  push_event (
      progress_reported_event (event_base actor now previous.status o) quantity o.produced_quantity)

unfoldable pub report_progress : Quantity → String → ℕ → TolerancePolicy → Method (Unit {0})
report_progress quantity actor now tolerance = do
  o ← get
  throw_when (not (status_eq o.status released) && not (status_eq o.status in_progress))
      (illegal_status_transition o.status in_progress)
  would_be ← lift quantity_error (Quantity.add o.produced_quantity quantity)
  ceiling ← lift quantity_error (over_ceiling o.ordered_quantity tolerance)
  over ← lift quantity_error (Quantity.is_greater_than would_be ceiling)
  throw_when over (overproduction o.id o.ordered_quantity would_be ceiling)
  record_progress quantity would_be actor now
  complete_at_floor actor now tolerance

unfoldable pub cancel : String → String → ℕ → Method (Unit {0})
unfolding assert_can_transition
cancel actor reason now = do
  assert_can_transition cancelled
  previous ← get
  modify (λ o. record o { status = cancelled; updated_at = now })
  push_event (cancelled_event (event_base actor now previous.status (← get)) reason)
