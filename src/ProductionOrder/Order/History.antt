-- ===== src/ProductionOrder/Order/History.antt =====
-- An order over a whole sequence of calls, from its draft.
use nestjs_api_template.ProductionOrder.Quantity
use nestjs_api_template.Prelude.{
  List, Option-cases, String, [], ap, arith, inl, inr, none, ok, some, sym, true, ℕ, ◌∙◌, ◌∷◌, ◌≡◌,
  ◌≢◌, ◌≤◌, ◌⊎◌,
}
use nestjs_api_template.Prelude.Lists.{All}
use nestjs_api_template.ProductionOrder.Money.{Money}
use nestjs_api_template.ProductionOrder.Order.Commands.{
  Command, approve_command, cancel_command, recall_command, release_command, report_command, run,
  submit_command,
}
use nestjs_api_template.ProductionOrder.Order.Invariant.{
  IsValid, draft_order-IsValid, recorded-IsValid, run-IsValid,
}
use nestjs_api_template.ProductionOrder.Order.Methods.{
  approve, cancel, complete_at_floor, draft_order, recall, record_progress, release, submit,
}
use nestjs_api_template.ProductionOrder.Order.Progress.{
  complete_at_floor_lem, report_progress-cases,
}
use nestjs_api_template.ProductionOrder.Order.State.{DraftInput, ProductionOrder}
use nestjs_api_template.ProductionOrder.Policies.{TolerancePolicy}
use nestjs_api_template.ProductionOrder.Quantity.{IsQuantity, Quantity}
use nestjs_api_template.ProductionOrder.Status.{can_transition, in_progress, released, stage}

unfoldable pub run_all : List Command → ProductionOrder → ProductionOrder
run_all [] o = o
run_all (c ∷ cs) o = run_all cs (run c o).1

pub run_all-IsValid : (cs : List Command) (o : ProductionOrder) → IsValid o → IsValid (run_all cs o)
unfolding run_all
run_all-IsValid [] o v = v
run_all-IsValid (c ∷ cs) o v = run_all-IsValid cs (run c o).1 (run-IsValid c o v)

-- The call's threshold policy, if it is an approval, wants two approvers for this amount.
abbrev pub WantsTwo : Money → Command → Type 0
WantsTwo m (submit_command a n) = Unit
WantsTwo m (recall_command a n) = Unit
WantsTwo m (approve_command a t n) = t m ≡ ok true
WantsTwo m (release_command a n) = Unit
WantsTwo m (report_command q a n p) = Unit
WantsTwo m (cancel_command a r n) = Unit

-- The order was created by this user for this amount, and has two signatures once it is approved.
record SignedTwice (by : String) (m : Money) (o : ProductionOrder) : Type 0 where
  creator : o.created_by ≡ by
  amount : o.total_amount ≡ m
  both : 2 ≤ stage o.status → stage o.status ≤ 5 → o.second_approver ≢ none

completed-SignedTwice :
    (by : String) (m : Money) (a : String) (n : ℕ) (p : TolerancePolicy) (o : ProductionOrder)
    → IsValid o
    → o.status ≡ in_progress
    → SignedTwice by m o
    → SignedTwice by m (complete_at_floor a n p o).1
completed-SignedTwice by m a n p o v s h =
    let (f, _, e) = complete_at_floor_lem a n p o v.ordered v.one_unit in rw e (ground arith)

recorded-SignedTwice :
    (by : String) (m : Money) (q w : Quantity) (a : String) (n : ℕ) (o : ProductionOrder)
    → (o.status ≡ released) ⊎ (o.status ≡ in_progress)
    → SignedTwice by m o
    → SignedTwice by m (record_progress q w a n o).1
unfolding record_progress
recorded-SignedTwice by m q w a n o s h = ground arith

run-SignedTwice :
    (by : String) (m : Money) (c : Command) (o : ProductionOrder)
    → IsValid o
    → WantsTwo m c
    → SignedTwice by m o
    → SignedTwice by m (run c o).1
unfolding run submit recall approve release cancel can_transition
run-SignedTwice by m (submit_command a n) o v d h = ground arith
run-SignedTwice by m (recall_command a n) o v d h = ground arith
run-SignedTwice by m (approve_command a t n) o v d h =
    let dual : t o.total_amount ≡ ok true = rw h.amount d in ground arith
run-SignedTwice by m (release_command a n) o v d h = ground arith
run-SignedTwice by m (report_command q a n p) o v d h = elim (report_progress-cases q a n p o) [
  | inl (_, same) ↦ rw same h
  | inr (w, acc, same) ↦
      let (v', s') = recorded-IsValid q w a n o v acc.producing acc.cumulative in
      rw same (
        completed-SignedTwice by m a n p (record_progress q w a n o).1 v' s'
          (recorded-SignedTwice by m q w a n o acc.producing h))
]
run-SignedTwice by m (cancel_command a r n) o v d h = ground arith

run_all-SignedTwice :
    (by : String) (m : Money) (cs : List Command) (o : ProductionOrder)
    → IsValid o
    → All (WantsTwo m) cs
    → SignedTwice by m o
    → SignedTwice by m (run_all cs o)
unfolding run_all
run_all-SignedTwice by m [] o v d h = h
run_all-SignedTwice by m (c ∷ cs) o v d h =
    run_all-SignedTwice by m cs (run c o).1 (run-IsValid c o v) d.1
      (run-SignedTwice by m c o v d.0 h)

draft-SignedTwice :
    (i : DraftInput) {o : ProductionOrder}
    → draft_order i ≡ ok o
    → SignedTwice i.created_by i.total_amount o
unfolding draft_order Quantity.zero_of Quantity.of
draft-SignedTwice i e = ground arith

two_signatures :
    (by : String) (o : ProductionOrder)
    → IsValid o
    → o.created_by ≡ by
    → o.second_approver ≢ none
    → (x : String) × (y : String) × (o.first_approver ≡ some x)
      × (o.second_approver ≡ some y)
      × (x ≢ y)
      × (x ≢ by)
      × (y ≢ by)
two_signatures by o v c s = elim (Option-cases o.first_approver) [
  | inl e ↦ absurd ((v.approvers_differ s).0 e)
  | inr (x, ex) ↦ elim (Option-cases o.second_approver) [
    | inl e ↦ absurd (s e)
    | inr (y, ey) ↦ (
      x,
      y,
      ex,
      ey,
      λ e. (v.approvers_differ s).1 (ex ∙ ap some e ∙ sym ey),
      λ e. v.first_is_not_creator (ex ∙ ap some (e ∙ sym c)),
      λ e. v.second_is_not_creator (ey ∙ ap some (e ∙ sym c)),
    )
  ]
]

-- Whatever calls are made on a new order whose amount wants two approvers, once it is approved,
-- released, in progress or completed it carries two signatures, of two users, neither of whom drafted
-- it; who submitted it is not looked at.
pub run_all_two_approvers :
    (i : DraftInput) {o : ProductionOrder} (cs : List Command)
    → IsQuantity i.ordered_quantity
    → draft_order i ≡ ok o
    → All (WantsTwo i.total_amount) cs
    → 2 ≤ stage (run_all cs o).status
    → stage (run_all cs o).status ≤ 5
    → (x : String) × (y : String) × ((run_all cs o).first_approver ≡ some x)
      × ((run_all cs o).second_approver ≡ some y)
      × (x ≢ y)
      × (x ≢ i.created_by)
      × (y ≢ i.created_by)
run_all_two_approvers i {o} cs q e d lo hi =
    let v = draft_order-IsValid i q e in
    let s = run_all-SignedTwice i.created_by i.total_amount cs o v d (draft-SignedTwice i e) in
    two_signatures i.created_by (run_all cs o) (run_all-IsValid cs o v) s.creator (s.both lo hi)

-- In every history, no matter the calls and the policies, the order stays valid.
pub run_all_draft-IsValid :
    (i : DraftInput) {o : ProductionOrder} (cs : List Command)
    → IsQuantity i.ordered_quantity
    → draft_order i ≡ ok o
    → IsValid (run_all cs o)
run_all_draft-IsValid i cs q e = run_all-IsValid cs _ (draft_order-IsValid i q e)
