-- ===== src/ProductionOrder/Order/Transitions.antt =====
-- How calls move an order through the table of transitions, and what a throw leaves behind.
use nestjs_api_template.Prelude.{
  Bool, Bool-cases, Result, String, arith, err, inl, inr, ok, refl, true, ℕ, ◌≡◌, ◌⊎◌,
}
use nestjs_api_template.Prelude.Int.{leb_ℤ}
use nestjs_api_template.ProductionOrder.Money.{Money, MoneyError}
use nestjs_api_template.ProductionOrder.Order.Commands.{
  Command, approve_command, cancel_command, recall_command, release_command, report_command, run,
  submit_command,
}
use nestjs_api_template.ProductionOrder.Order.Invariant.{IsValid, recorded-IsValid}
use nestjs_api_template.ProductionOrder.Order.Methods.{
  approve, cancel, complete_at_floor, recall, record_progress, release, report_progress, submit,
}
use nestjs_api_template.ProductionOrder.Order.Progress.{
  complete_at_floor_lem, report_progress-cases,
}
use nestjs_api_template.ProductionOrder.Order.State.{
  OrderError, ProductionOrder, illegal_status_transition,
}
use nestjs_api_template.ProductionOrder.Policies.{TolerancePolicy}
use nestjs_api_template.ProductionOrder.Quantity.{Quantity}
use nestjs_api_template.ProductionOrder.Status.{
  ProductionOrderStatus, approved, can_transition, cancelled, completed, draft, in_progress,
  is_terminal, released, submitted,
}

-- A chain of legal transitions.
infix 40 ◌⟶*◌
pub data ◌⟶*◌ : ProductionOrderStatus → ProductionOrderStatus → Type 0 where
  arrived : {s : ProductionOrderStatus} → s ⟶* s
  onward : {s t u : ProductionOrderStatus} → can_transition s t ≡ true → t ⟶* u → s ⟶* u

report_floor_ok :
    (a : String) (n : ℕ) (p : TolerancePolicy) (o : ProductionOrder)
    → IsValid o
    → (complete_at_floor a n p o).0 ≡ ok tt
report_floor_ok a n p o v =
    let (f, _, e) = complete_at_floor_lem a n p o v.ordered v.one_unit in rw e (ground arith)

-- A call that throws leaves a valid order as it was.
pub run_throws_unchanged :
    (c : Command) (o : ProductionOrder) {e : OrderError}
    → IsValid o
    → (run c o).0 ≡ err e
    → (run c o).1 ≡ o
unfolding run submit recall approve release cancel
run_throws_unchanged (submit_command a n) o v h = ground arith
run_throws_unchanged (recall_command a n) o v h = ground arith
run_throws_unchanged (approve_command a t n) o v h = ground arith
run_throws_unchanged (release_command a n) o v h = ground arith
run_throws_unchanged (report_command q a n p) o v h = elim (report_progress-cases q a n p o) [
  | inl (_, same) ↦ rw same
  | inr (w, acc, same) ↦
      let (v', _) = recorded-IsValid q w a n o v acc.producing acc.cumulative in
      cc (same, report_floor_ok a n p (record_progress q w a n o).1 v')
]
run_throws_unchanged (cancel_command a r n) o v h = ground arith

recorded_path :
    (q w : Quantity) (a : String) (n : ℕ) (o : ProductionOrder)
    → (o.status ≡ released) ⊎ (o.status ≡ in_progress)
    → o.status ⟶* (record_progress q w a n o).1.status
unfolding record_progress can_transition
recorded_path q w a n o (inl s) = rw s (onward {t = in_progress} refl arrived)
recorded_path q w a n o (inr s) = rw s arrived

floor_path :
    (a : String) (n : ℕ) (p : TolerancePolicy) (o : ProductionOrder)
    → IsValid o
    → o.status ≡ in_progress
    → o.status ⟶* (complete_at_floor a n p o).1.status
unfolding can_transition
floor_path a n p o v s =
    let (f, _, e) = complete_at_floor_lem a n p o v.ordered v.one_unit in
    elim (Bool-cases (leb_ℤ f.value o.produced_quantity.value)) [
      | inl t ↦ rw (e, t, s) (onward {t = completed} refl arrived)
      | inr t ↦ rw (e, t) arrived
    ]

⟶*-trans : {s t u : ProductionOrderStatus} → s ⟶* t → t ⟶* u → s ⟶* u
⟶*-trans arrived r = r
⟶*-trans (onward e p) r = onward e (⟶*-trans p r)

-- At most one transition.
abbrev Moves : ProductionOrderStatus → ProductionOrderStatus → Type 0
Moves s t = (t ≡ s) ⊎ (can_transition s t ≡ true)

path_of_Moves : (s t : ProductionOrderStatus) → Moves s t → s ⟶* t
path_of_Moves s t (inl e) = rw e arrived
path_of_Moves s t (inr e) = onward e arrived

report_path :
    (q : Quantity) (a : String) (n : ℕ) (p : TolerancePolicy) (o : ProductionOrder)
    → IsValid o
    → o.status ⟶* (report_progress q a n p o).1.status
report_path q a n p o v = elim (report_progress-cases q a n p o) [
  | inl (_, same) ↦ rw same arrived
  | inr (w, acc, same) ↦
      let (v', s') = recorded-IsValid q w a n o v acc.producing acc.cumulative in
      rw same (
        ⟶*-trans (recorded_path q w a n o acc.producing)
          (floor_path a n p (record_progress q w a n o).1 v' s'))
]

module _ (o : ProductionOrder) where
  submit-Moves : (a : String) (n : ℕ) → Moves o.status (submit a n o).1.status
  unfolding submit
  submit-Moves a n = ground arith

  recall-Moves : (a : String) (n : ℕ) → Moves o.status (recall a n o).1.status
  unfolding recall
  recall-Moves a n = ground arith

  release-Moves : (a : String) (n : ℕ) → Moves o.status (release a n o).1.status
  unfolding release
  release-Moves a n = ground arith

  cancel-Moves : (a r : String) (n : ℕ) → Moves o.status (cancel a r n o).1.status
  unfolding cancel
  cancel-Moves a r n = ground arith

  approve-Moves :
      (a : String) (t : Money → Result MoneyError Bool) (n : ℕ)
      → Moves o.status (approve a t n o).1.status
  unfolding approve can_transition
  approve-Moves a t n = ground arith

-- Every call moves a valid order along legal transitions only.
run_path : (c : Command) (o : ProductionOrder) → IsValid o → o.status ⟶* (run c o).1.status
unfolding run
run_path (submit_command a n) o v = path_of_Moves _ _ (submit-Moves o a n)
run_path (recall_command a n) o v = path_of_Moves _ _ (recall-Moves o a n)
run_path (approve_command a t n) o v = path_of_Moves _ _ (approve-Moves o a t n)
run_path (release_command a n) o v = path_of_Moves _ _ (release-Moves o a n)
run_path (report_command q a n p) o v = report_path q a n p o v
run_path (cancel_command a r n) o v = path_of_Moves _ _ (cancel-Moves o a r n)

-- A completed or cancelled order refuses every call and stays as it is.
run-terminal :
    (c : Command) (o : ProductionOrder)
    → is_terminal o.status ≡ true
    → ((e : OrderError) × (run c o ≡ (err e, o)))
unfolding run submit recall approve release cancel report_progress can_transition
run-terminal (submit_command a n) o t = (illegal_status_transition o.status submitted, ground arith)
run-terminal (recall_command a n) o t = (illegal_status_transition o.status draft, ground arith)
run-terminal (approve_command a p n) o t =
    (illegal_status_transition o.status approved, ground arith)
run-terminal (release_command a n) o t = (illegal_status_transition o.status released, ground arith)
run-terminal (report_command q a n p) o t =
    (illegal_status_transition o.status in_progress, ground arith)
run-terminal (cancel_command a r n) o t =
    (illegal_status_transition o.status cancelled, ground arith)
