-- ===== src/ProductionOrder/Order/Approval.antt =====
-- The approval rules: segregation of duties, and two approvers above the threshold.
use nestjs_api_template.Prelude.{
  Bool, Result, String, arith, false, none, ok, some, true, ℕ, ◌≡◌, ◌≢◌, ◌⊎◌,
}
use nestjs_api_template.Prelude.Text.{eq_iff}
use nestjs_api_template.ProductionOrder.Money.{Money, MoneyError}
use nestjs_api_template.ProductionOrder.Order.Invariant.{IsValid, opt_str_eq-some}
use nestjs_api_template.ProductionOrder.Order.Methods.{approve}
use nestjs_api_template.ProductionOrder.Order.State.{ProductionOrder}
use nestjs_api_template.ProductionOrder.Status.{approved, submitted}

-- An approval that takes effect, of a valid order: it was submitted, and not created by the actor.
-- If the policy wants two approvers, another user had signed first and the actor is recorded as the
-- second; if it wants one, the actor is recorded as the first.
approve_signed :
    (a : String) (t : Money → Result MoneyError Bool) (n : ℕ) (o : ProductionOrder) {dual : Bool}
    → IsValid o
    → t o.total_amount ≡ ok dual
    → (approve a t n o).1.status ≡ approved
    → (approve a t n o).0 ≡ ok tt
    → (o.status ≡ submitted)
      × (a ≢ o.created_by)
      × ((dual ≡ true)
            × ((approve a t n o).1.second_approver ≡ some a)
            × (o.first_approver ≢ none)
            × (o.first_approver ≢ some a)
            × ((approve a t n o).1.first_approver ≡ o.first_approver)
          ⊎ (dual ≡ false) × ((approve a t n o).1.first_approver ≡ some a))
unfolding approve
approve_signed a t n o {dual = true} v d s h =
    ground (arith, eq_iff a o.created_by, opt_str_eq-some a o.first_approver)
approve_signed a t n o {dual = false} v d s h = ground (arith, eq_iff a o.created_by)

-- The first approval of a submitted order above the threshold, by anyone but its creator, only
-- records the approver: the order stays submitted and no event is appended.
approve_first_of_two :
    (a : String) (t : Money → Result MoneyError Bool) (n : ℕ) (o : ProductionOrder)
    → o.status ≡ submitted
    → o.first_approver ≡ none
    → a ≢ o.created_by
    → t o.total_amount ≡ ok true
    → approve a t n o ≡ (ok tt, record o { first_approver = some a; updated_at = n })
unfolding approve
approve_first_of_two a t n o s f c d = ground (arith, eq_iff a o.created_by)
