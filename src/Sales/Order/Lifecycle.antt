-- ===== src/Sales/Order/Lifecycle.antt =====
-- The life of a sales order: the calls as a relation, and what no sequence of calls breaks.
use nestjs_api_template.Prelude.{
  Bool, List, Option, String, arith, false, inl, inr, ok, refl, true, ℕ, ◌↔◌, ◌≡◌, ◌⊎◌,
}
use nestjs_api_template.Prelude.Int.{ℤ}
use nestjs_api_template.Prelude.Text.{Unicode}
use nestjs_api_template.Sales.Order.Created.{Given-IsValid, create_order-Given, replace_lines-Given}
use nestjs_api_template.Sales.Order.Delivery.{record_delivery}
use nestjs_api_template.Sales.Order.Invariant.{DeliveredAs, IsValid, record_delivery-IsValid}
use nestjs_api_template.Sales.Order.Methods.{
  apply_approval_outcome, cancel, create_order, has_deliveries, reopen, replace_lines, submit,
  transition, update_header,
}
use nestjs_api_template.Sales.Order.State.{
  ApprovalOutcome, CreateSalesOrderProps, CreditCheck, DeliveryPosting, SalesOrder,
  SalesOrderHeaderPatch, SalesOrderLine, SalesOrderStatus, SubmitApproval, SubmitOutcome,
  approved_at_once, approvers_must_act, can_transition, cancelled, confirmed, delivered, draft,
  outcome_approved, outcome_cancelled, outcome_none, outcome_pending, outcome_rejected,
  partially_delivered, pending_approval, rejected, transitions,
}
use nestjs_api_template.Shared.Line.{DocumentLineInput}

-- The statuses of an order of which nothing has been delivered.
abbrev pub is_before : SalesOrderStatus → Bool
is_before partially_delivered = false
is_before delivered = false
is_before _ = true

DeliveredAs-before :
    (a : SalesOrderStatus) (ls : List SalesOrderLine)
    → is_before a ≡ true
    → DeliveredAs a ls ↔ (has_deliveries ls ≡ false)
DeliveredAs-before draft ls h = (λ x. x, λ x. x)
DeliveredAs-before pending_approval ls h = (λ x. x, λ x. x)
DeliveredAs-before confirmed ls h = (λ x. x, λ x. x)
DeliveredAs-before rejected ls h = (λ x. x, λ x. x)
DeliveredAs-before cancelled ls h = (λ x. x, λ x. x)
DeliveredAs-before partially_delivered ls h = absurd (ground arith)
DeliveredAs-before delivered ls h = absurd (ground arith)

before_of_transition :
    (a b : SalesOrderStatus) → can_transition a b ≡ true → is_before b ≡ true → is_before a ≡ true
unfolding can_transition transitions
before_of_transition draft b h k = refl
before_of_transition pending_approval b h k = refl
before_of_transition confirmed b h k = refl
before_of_transition rejected b h k = refl
before_of_transition cancelled b h k = refl
before_of_transition delivered b h k = absurd (ground arith)
before_of_transition partially_delivered delivered h k = absurd (ground arith)
before_of_transition partially_delivered draft h k = absurd (ground arith)
before_of_transition partially_delivered pending_approval h k = absurd (ground arith)
before_of_transition partially_delivered confirmed h k = absurd (ground arith)
before_of_transition partially_delivered partially_delivered h k = absurd (ground arith)
before_of_transition partially_delivered rejected h k = absurd (ground arith)
before_of_transition partially_delivered cancelled h k = absurd (ground arith)

-- A call that keeps the lines and moves to a status before any delivery.
pub record Moves (s t : SalesOrder) : Type 0 where
  pub allowed : can_transition s.status t.status ≡ true
  pub before : is_before t.status ≡ true
  pub same_lines : t.lines ≡ s.lines
  pub same_currency : t.currency ≡ s.currency
  pub same_totals : t.totals ≡ s.totals

Moves-IsValid : {s t : SalesOrder} → Moves s t → IsValid s → IsValid t
Moves-IsValid {s} {t} m v = record {
  distinct = rw m.same_lines v.distinct;
  within = rw m.same_lines v.within;
  progress = (DeliveredAs-before t.status t.lines m.before).1 (
      rw m.same_lines (
        (DeliveredAs-before s.status s.lines
            (before_of_transition s.status t.status m.allowed m.before)).0
          v.progress));
}

pub SubmitApproval-cases : (a : SubmitApproval) → (a ≡ approved_at_once) ⊎ (a ≡ approvers_must_act)
SubmitApproval-cases approved_at_once = inl refl
SubmitApproval-cases approvers_must_act = inr refl

pub submit-Moves :
    (s : SalesOrder) (c : CreditCheck) (a : SubmitOutcome) (limit : ℤ) (now : ℕ) {t : SalesOrder}
    → submit s c a limit now ≡ ok t
    → Moves s t
unfolding submit transition
submit-Moves s c a limit now h = elim (SubmitApproval-cases a.approval) [
  | inl e ↦ record {
    allowed = ground arith;
    before = ground arith;
    same_lines = ground arith;
    same_currency = ground arith;
    same_totals = ground arith;
  }
  | inr e ↦ record {
    allowed = ground arith;
    before = ground arith;
    same_lines = ground arith;
    same_currency = ground arith;
    same_totals = ground arith;
  }
]

pub apply_approval_outcome-Moves :
    (s : SalesOrder) (a : ApprovalOutcome) (now : ℕ) {t : SalesOrder}
    → apply_approval_outcome s a now ≡ ok t
    → Moves s t
unfolding apply_approval_outcome transition
apply_approval_outcome-Moves s outcome_approved now h = record {
  allowed = ground arith;
  before = ground arith;
  same_lines = ground arith;
  same_currency = ground arith;
  same_totals = ground arith;
}
apply_approval_outcome-Moves s outcome_rejected now h = record {
  allowed = ground arith;
  before = ground arith;
  same_lines = ground arith;
  same_currency = ground arith;
  same_totals = ground arith;
}
apply_approval_outcome-Moves s outcome_cancelled now h = record {
  allowed = ground arith;
  before = ground arith;
  same_lines = ground arith;
  same_currency = ground arith;
  same_totals = ground arith;
}
apply_approval_outcome-Moves s outcome_none now h = record {
  allowed = ground arith;
  before = ground arith;
  same_lines = ground arith;
  same_currency = ground arith;
  same_totals = ground arith;
}
apply_approval_outcome-Moves s outcome_pending now h = absurd (ground arith)

pub reopen-Moves : (s : SalesOrder) (now : ℕ) {t : SalesOrder} → reopen s now ≡ ok t → Moves s t
unfolding reopen transition
reopen-Moves s now h = record {
  allowed = ground arith;
  before = ground arith;
  same_lines = ground arith;
  same_currency = ground arith;
  same_totals = ground arith;
}

pub cancel-Moves :
    (s : SalesOrder) (reason : Option String) (now : ℕ) {t : SalesOrder}
    → cancel s reason now ≡ ok t
    → Moves s t
unfolding cancel transition
cancel-Moves s reason now h = record {
  allowed = ground arith;
  before = ground arith;
  same_lines = ground arith;
  same_currency = ground arith;
  same_totals = ground arith;
}

module _ ⦃u : Unicode⦄ where
  infix 40 ◌⇒◌ ◌⇒*◌
  -- One call that returns.
  pub data ◌⇒◌ : SalesOrder → SalesOrder → Type 0 where
    reheaded :
        {s t : SalesOrder} (p : SalesOrderHeaderPatch) (now : ℕ)
        → update_header s p now ≡ ok t
        → s ⇒ t
    relined :
        {s t : SalesOrder} (ls : List DocumentLineInput) (now : ℕ)
        → replace_lines s ls now ≡ ok t
        → s ⇒ t
    submits :
        {s t : SalesOrder} (c : CreditCheck) (a : SubmitOutcome) (limit : ℤ) (now : ℕ)
        → submit s c a limit now ≡ ok t
        → s ⇒ t
    answered :
        {s t : SalesOrder} (a : ApprovalOutcome) (now : ℕ)
        → apply_approval_outcome s a now ≡ ok t
        → s ⇒ t
    reopens : {s t : SalesOrder} (now : ℕ) → reopen s now ≡ ok t → s ⇒ t
    cancels :
        {s t : SalesOrder} (reason : Option String) (now : ℕ) → cancel s reason now ≡ ok t → s ⇒ t
    delivers :
        {s t : SalesOrder} (ps : List DeliveryPosting) (now : ℕ)
        → record_delivery s ps now ≡ ok t
        → s ⇒ t

  pub data ◌⇒*◌ : SalesOrder → SalesOrder → Type 0 where
    unchanged : {s : SalesOrder} → s ⇒* s
    onward : {s t u : SalesOrder} → s ⇒ t → t ⇒* u → s ⇒* u

  pub create_order-IsValid :
      (props : CreateSalesOrderProps) {o : SalesOrder} → create_order props ≡ ok o → IsValid o
  create_order-IsValid props h = Given-IsValid props.lines (create_order-Given props h)

  pub ⇒-IsValid : {s t : SalesOrder} → s ⇒ t → IsValid s → IsValid t
  unfolding update_header replace_lines reopen
  ⇒-IsValid {s} {t} (reheaded p now h) v =
      let same : t.lines ≡ s.lines = ground arith in
      let still : t.status ≡ s.status = ground arith in
      record {
        distinct = rw same v.distinct;
        within = rw same v.within;
        progress = rw (same, still) v.progress;
      }
  ⇒-IsValid {s} {t} (relined ls now h) v = Given-IsValid ls (replace_lines-Given s ls now h)
  ⇒-IsValid {s} {t} (submits c a limit now h) v = Moves-IsValid (submit-Moves s c a limit now h) v
  ⇒-IsValid {s} {t} (answered a now h) v = Moves-IsValid (apply_approval_outcome-Moves s a now h) v
  ⇒-IsValid {s} {t} (reopens now h) v = Moves-IsValid (reopen-Moves s now h) v
  ⇒-IsValid {s} {t} (cancels reason now h) v = Moves-IsValid (cancel-Moves s reason now h) v
  ⇒-IsValid {s} {t} (delivers ps now h) v = record_delivery-IsValid s ps now v h
