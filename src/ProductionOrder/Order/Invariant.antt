-- ===== src/ProductionOrder/Order/Invariant.antt =====
-- What holds of an order between two calls.
use nestjs_api_template.ProductionOrder.Quantity
use nestjs_api_template.Prelude.{
  Bool, List, Option, Result, String, [], arith, false, inl, inr, none, ok, some, ℕ, ◌++◌, ◌∷◌, ◌≡◌,
  ◌≢◌, ◌≤◌, ◌⊎◌,
}
use nestjs_api_template.Prelude.Int.{int_laws, pos, ℤ, ◌+ℤ◌, ◌≤ℤ◌}
use nestjs_api_template.Prelude.Lists.{sum_by, sum_by-append}
use nestjs_api_template.Prelude.Text.{eq_iff, opt_str_eq}
use nestjs_api_template.ProductionOrder.Money.{Money, MoneyError}
use nestjs_api_template.ProductionOrder.Order.Commands.{
  Command, approve_command, cancel_command, recall_command, release_command, report_command, run,
  submit_command,
}
use nestjs_api_template.ProductionOrder.Order.Methods.{
  approve, cancel, complete_at_floor, draft_order, recall, record_progress, release,
  report_progress, submit,
}
use nestjs_api_template.ProductionOrder.Order.Progress.{
  complete_at_floor_lem, report_progress-cases,
}
use nestjs_api_template.ProductionOrder.Order.State.{DraftInput, ProductionOrder, ProgressReport}
use nestjs_api_template.ProductionOrder.Policies.{TolerancePolicy}
use nestjs_api_template.ProductionOrder.Quantity.{IsQuantity, Quantity, add-eq-ok}
use nestjs_api_template.ProductionOrder.Status.{
  can_transition, cancelled, in_progress, released, stage,
}

-- The quantity reported so far.
abbrev pub reported_total : List ProgressReport → ℤ
reported_total = sum_by (λ r. r.reported.value)

pub record IsValid (o : ProductionOrder) : Type 0 where
  pub ordered : IsQuantity o.ordered_quantity
  pub produced : pos 0 ≤ℤ o.produced_quantity.value
  pub one_unit : o.produced_quantity.uom ≡ o.ordered_quantity.uom
  pub first_is_not_creator : o.first_approver ≢ some o.created_by
  pub second_is_not_creator : o.second_approver ≢ some o.created_by
  pub approvers_differ :
      o.second_approver ≢ none → (o.first_approver ≢ none) × (o.first_approver ≢ o.second_approver)
  pub draft_unsigned : stage o.status ≤ 0 → o.first_approver ≡ none
  pub one_signature : stage o.status ≤ 1 → o.second_approver ≡ none
  pub signed : (2 ≤ stage o.status) → (stage o.status ≤ 5) → o.first_approver ≢ none
  pub not_started :
      (stage o.status ≤ 3) ⊎ (o.status ≡ cancelled) → o.produced_quantity.value ≡ pos 0
  pub accounted : o.produced_quantity.value ≡ reported_total o.progress_reports

-- A new order is valid, if its quantity is.
pub draft_order-IsValid :
    (i : DraftInput) {o : ProductionOrder}
    → IsQuantity i.ordered_quantity
    → draft_order i ≡ ok o
    → IsValid o
unfolding draft_order Quantity.zero_of
draft_order-IsValid i v h = ground arith

submit-IsValid : (a : String) (n : ℕ) (o : ProductionOrder) → IsValid o → IsValid (submit a n o).1
unfolding submit can_transition
submit-IsValid a n o v = ground arith

recall-IsValid : (a : String) (n : ℕ) (o : ProductionOrder) → IsValid o → IsValid (recall a n o).1
unfolding recall can_transition
recall-IsValid a n o v = ground arith

release-IsValid : (a : String) (n : ℕ) (o : ProductionOrder) → IsValid o → IsValid (release a n o).1
unfolding release can_transition
release-IsValid a n o v = ground arith

cancel-IsValid :
    (a r : String) (n : ℕ) (o : ProductionOrder) → IsValid o → IsValid (cancel a r n o).1
unfolding cancel can_transition
cancel-IsValid a r n o v = ground arith

-- Equality of optional ids is decided by `opt_str_eq`.
pub opt_str_eq-some : (a : String) (x : Option String) → opt_str_eq (some a) x ≡ false → x ≢ some a
opt_str_eq-some a none h e = cc
opt_str_eq-some a (some b) h e = ground (arith, eq_iff a b)

approve-IsValid :
    (a : String) (t : Money → Result MoneyError Bool) (n : ℕ) (o : ProductionOrder)
    → IsValid o
    → IsValid (approve a t n o).1
unfolding approve
approve-IsValid a t n o v =
    ground (arith, eq_iff a o.created_by, opt_str_eq-some a o.first_approver)

reported_total-append :
    (rs : List ProgressReport) (r : ProgressReport)
    → reported_total (rs ++ r ∷ []) ≡ reported_total rs +ℤ r.reported.value
reported_total-append rs r = rw (sum_by-append (λ x. x.reported.value) rs (r ∷ [])) (omega int_laws)

pub recorded-IsValid :
    (q w : Quantity) (a : String) (n : ℕ) (o : ProductionOrder)
    → IsValid o
    → (o.status ≡ released) ⊎ (o.status ≡ in_progress)
    → Quantity.add o.produced_quantity q ≡ ok w
    → IsValid (record_progress q w a n o).1 × ((record_progress q w a n o).1.status ≡ in_progress)
unfolding record_progress
recorded-IsValid q w a n o v s e = ground (
  arith,
  add-eq-ok o.produced_quantity q e,
  reported_total-append o.progress_reports (record { reported = q; by = a; at = n }),
)

completed-IsValid :
    (a : String) (n : ℕ) (p : TolerancePolicy) (o : ProductionOrder)
    → IsValid o
    → o.status ≡ in_progress
    → IsValid (complete_at_floor a n p o).1
completed-IsValid a n p o v s =
    let (f, _, e) = complete_at_floor_lem a n p o v.ordered v.one_unit in rw e (ground arith)

report-IsValid :
    (q : Quantity) (a : String) (n : ℕ) (p : TolerancePolicy) (o : ProductionOrder)
    → IsValid o
    → IsValid (report_progress q a n p o).1
report-IsValid q a n p o v = elim (report_progress-cases q a n p o) [
  | inl (e, h) ↦ rw h v
  | inr (w, acc, h) ↦
      let (v', s') = recorded-IsValid q w a n o v acc.producing acc.cumulative in
      rw h (completed-IsValid a n p (record_progress q w a n o).1 v' s')
]

-- Every call keeps the invariant, whether it returns or throws.
pub run-IsValid : (c : Command) (o : ProductionOrder) → IsValid o → IsValid (run c o).1
unfolding run
run-IsValid (submit_command a n) o v = submit-IsValid a n o v
run-IsValid (recall_command a n) o v = recall-IsValid a n o v
run-IsValid (approve_command a t n) o v = approve-IsValid a t n o v
run-IsValid (release_command a n) o v = release-IsValid a n o v
run-IsValid (report_command q a n p) o v = report-IsValid q a n p o v
run-IsValid (cancel_command a r n) o v = cancel-IsValid a r n o v
