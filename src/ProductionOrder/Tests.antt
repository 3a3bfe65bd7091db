-- ===== src/ProductionOrder/Tests.antt =====
-- Orders at concrete values, on which the theorems apply.
use nestjs_api_template.ProductionOrder.Quantity
use nestjs_api_template.ProductionOrder.Money
use nestjs_api_template.Prelude.{
  Bool, List, Result, String, [], arith, none, ok, refl, some, suc, true, ℕ, ◌*◌, ◌/◌, ◌↔◌, ◌∷◌,
  ◌≡◌, ◌≢◌, ◌≤◌,
}
use nestjs_api_template.Prelude.Int.{pos, ◌*ℤ◌, ◌+ℤ◌, ◌-ℤ◌, ◌/ℤ◌, ◌≤ℤ◌}
use nestjs_api_template.ProductionOrder.Bom.{BomLine, compute_required}
use nestjs_api_template.ProductionOrder.BomBounds.{compute_required_least}
use nestjs_api_template.ProductionOrder.Money.{Money, MoneyError, thb}
use nestjs_api_template.ProductionOrder.Order.Commands.{
  Command, approve_command, release_command, run, submit_command,
}
use nestjs_api_template.ProductionOrder.Order.History.{
  run_all, run_all-IsValid, run_all_draft-IsValid, run_all_two_approvers,
}
use nestjs_api_template.ProductionOrder.Order.Invariant.{IsValid, draft_order-IsValid, run-IsValid}
use nestjs_api_template.ProductionOrder.Order.Methods.{
  approve, complete_approval, complete_at_floor, draft_order, record_progress, release,
  report_progress, submit,
}
use nestjs_api_template.ProductionOrder.Order.State.{DraftInput, ProductionOrder}
use nestjs_api_template.ProductionOrder.Order.Tolerance.{report_progress_within_tolerance}
use nestjs_api_template.ProductionOrder.Order.Transitions.{run_throws_unchanged}
use nestjs_api_template.ProductionOrder.Policies.{
  TolerancePolicy, completion_floor, over_ceiling, requires_dual_approval,
}
use nestjs_api_template.ProductionOrder.Quantity.{Quantity}
use nestjs_api_template.ProductionOrder.Status.{can_transition, cancelled, completed, draft}

abbrev approver : String
approver = "bob"

abbrev ten : Quantity
ten = record { value = pos 10; uom = "PCS" }

abbrev price : Money
price = record { amount = pos 5000; currency = thb }

abbrev input : DraftInput
input = record {
  id = "PO-1";
  tenant_id = "T1";
  created_by = "ann";
  product_sku = some "SKU-1";
  ordered_quantity = ten;
  total_amount = price;
  now = 1;
}

abbrev order : ProductionOrder
order = record {
  id = "PO-1";
  tenant_id = "T1";
  created_by = "ann";
  product_sku = some "SKU-1";
  ordered_quantity = ten;
  total_amount = price;
  created_at = 1;
  version = 0;
  status = draft;
  first_approver = none;
  second_approver = none;
  produced_quantity = record { value = pos 0; uom = "PCS" };
  progress_reports = [];
  updated_at = 1;
  pending_events = [];
}

-- A threshold below the price: two approvers.
abbrev low : Money → Result MoneyError Bool
low = requires_dual_approval (record { amount = pos 1000; currency = thb })

-- A threshold above the price: one approver.
abbrev high : Money → Result MoneyError Bool
high = requires_dual_approval (record { amount = pos 9000; currency = thb })

order_is_drafted : draft_order input ≡ ok order
unfolding draft_order Quantity.zero_of Quantity.of
order_is_drafted = refl

-- The order after a submission, and after one more call.
abbrev waiting : ProductionOrder
waiting = (run (submit_command "ann" 2) order).1

order-IsValid : IsValid order
order-IsValid = draft_order-IsValid input (omega arith, refl) order_is_drafted

waiting-IsValid : IsValid waiting
waiting-IsValid = run-IsValid (submit_command "ann" 2) order order-IsValid

abbrev making : ProductionOrder
making = run_all (approve_command "bob" high 3 ∷ release_command "cy" 4 ∷ []) waiting

making-IsValid : IsValid making
making-IsValid = run_all-IsValid _ waiting waiting-IsValid

abbrev five_percent : TolerancePolicy
five_percent = record { over_basis_points = pos 500; under_basis_points = pos 500 }

run-IsValid_example : IsValid (run (approve_command "bob" high 3) waiting).1
run-IsValid_example = run-IsValid (approve_command "bob" high 3) waiting waiting-IsValid

run_throws_unchanged_example : (run (approve_command "ann" high 3) waiting).1 ≡ waiting
unfolding run approve submit can_transition
run_throws_unchanged_example =
    run_throws_unchanged (approve_command "ann" high 3) waiting waiting-IsValid refl

abbrev closed : ProductionOrder
closed = record order { status = cancelled }

abbrev two_signatures : List Command
two_signatures =
    submit_command "ann" 2 ∷ approve_command "bob" low 3 ∷ approve_command "cy" low 4 ∷ []

run_all_two_approvers_example :
    (x : String) × (y : String) × ((run_all two_signatures order).first_approver ≡ some x)
    × ((run_all two_signatures order).second_approver ≡ some y)
    × (x ≢ y)
    × (x ≢ input.created_by)
    × (y ≢ input.created_by)
unfolding run_all run approve complete_approval submit can_transition requires_dual_approval
run_all_two_approvers_example =
    run_all_two_approvers input two_signatures (omega arith, refl) order_is_drafted
      (tt, (refl, (refl, tt))) (omega arith) (omega arith)

run_all_draft-IsValid_example : IsValid (run_all two_signatures order)
run_all_draft-IsValid_example =
    run_all_draft-IsValid input two_signatures (omega arith, refl) order_is_drafted

abbrev nine : Quantity
nine = record { value = pos 9; uom = "PCS" }

report_progress_within_tolerance_example :
    let o' = (report_progress nine "cy" 5 five_percent making).1 in
    (o'.produced_quantity.value ≡ making.produced_quantity.value +ℤ pos 9)
    × (o'.produced_quantity.value ≤ℤ pos (10 * 10500 / 10000))
    × ((o'.status ≡ completed) ↔ (pos (10 * 9500 / 10000) ≤ℤ o'.produced_quantity.value))
unfolding run_all run approve complete_approval submit release can_transition report_progress
    requires_dual_approval complete_at_floor record_progress Quantity.add ◌+ℤ◌ over_ceiling ◌/ℤ◌
    ◌*ℤ◌ Quantity.is_greater_than completion_floor ◌-ℤ◌ Quantity.is_greater_than_or_equal
report_progress_within_tolerance_example =
    report_progress_within_tolerance nine "cy" 5 five_percent making 10 500 500 making-IsValid refl
      refl refl refl

abbrev flour : BomLine
flour = record {
  sku = "FLOUR";
  required_per_unit = record { value = pos 3; uom = "KG" };
  scrap_basis_points = pos 200;
  yield_basis_points = pos (suc 9499);
  min_pack = record { value = pos (suc 24); uom = "KG" };
}

compute_required_least_example :
    (c : ℕ) × (compute_required ten flour ≡ ok (record { value = pos (c * 25); uom = "KG" }))
    × (10 * 3 * 10200 ≤ c * 25 * 9500)
    × ((c' : ℕ) → 10 * 3 * 10200 ≤ c' * 25 * 9500 → c ≤ c')
compute_required_least_example =
    compute_required_least ten flour 10 3 200 9499 24 refl refl refl refl refl refl refl

equals_iff_example : (Money.equals price price ≡ true) ↔ (price ≡ price)
equals_iff_example = Money.equals_iff price price
