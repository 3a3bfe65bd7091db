-- ===== src/Sales/Order/Credit.antt =====
-- An order over the credit limit of its customer is confirmed by an approval only.
use nestjs_api_template.Prelude.{
  Bool, Bool-cases, List, arith, false, inl, inr, ok, refl, true, ℕ, ◌&&◌, ◌≡◌, ◌⊎◌,
}
use nestjs_api_template.Prelude.Int.{ℤ}
use nestjs_api_template.Prelude.Text.{Unicode}
use nestjs_api_template.Sales.Order.Created.{create_order-Given, replace_lines-Given}
use nestjs_api_template.Sales.Order.Delivery.{record_delivery}
use nestjs_api_template.Sales.Order.Invariant.{Deliverable, IsValid, record_delivery_iff}
use nestjs_api_template.Sales.Order.Lifecycle.{
  SubmitApproval-cases, answered, cancels, create_order-IsValid, delivers, onward, reheaded,
  relined, reopens, submits, unchanged, ⇒-IsValid, ◌⇒*◌, ◌⇒◌,
}
use nestjs_api_template.Sales.Order.Methods.{
  apply_approval_outcome, cancel, create_order, is_exceeded, reopen, replace_lines, submit,
  transition, update_header,
}
use nestjs_api_template.Sales.Order.State.{
  CreateSalesOrderProps, CreditCheck, DeliveryPosting, SalesOrder, SalesOrderStatus, SubmitOutcome,
  confirmed, delivered, exceeded, outcome_approved, outcome_cancelled, outcome_none,
  outcome_pending, outcome_rejected, partially_delivered,
}

-- The statuses of an order that is confirmed, with or without deliveries.
abbrev pub is_confirmed : SalesOrderStatus → Bool
is_confirmed confirmed = true
is_confirmed partially_delivered = true
is_confirmed delivered = true
is_confirmed _ = false

-- Not both confirmed and over the limit.
abbrev pub Covered : SalesOrder → Type 0
Covered s = (is_confirmed s.status && is_exceeded s.credit_status) ≡ false

module _ ⦃u : Unicode⦄ where
  abbrev pub is_approval : {s t : SalesOrder} → s ⇒ t → Bool
  is_approval (answered outcome_approved now h) = true
  is_approval _ = false

  -- An approval is among the calls.
  abbrev pub HasApproval : {s t : SalesOrder} → s ⇒* t → Type 0
  HasApproval unchanged = ⊥
  HasApproval (onward a p) = (is_approval a ≡ true) ⊎ HasApproval p

  submit-Covered :
      (s : SalesOrder) (c : CreditCheck) (a : SubmitOutcome) (limit : ℤ) (now : ℕ) {t : SalesOrder}
      → submit s c a limit now ≡ ok t
      → Covered t
  unfolding submit transition
  submit-Covered s c a limit now h = elim (SubmitApproval-cases a.approval) [
    | inl e ↦ ground arith
    | inr e ↦ ground arith
  ]

  Deliverable-confirmed : (st : SalesOrderStatus) → Deliverable st → is_confirmed st ≡ true
  Deliverable-confirmed st (inl e) = rw e refl
  Deliverable-confirmed st (inr e) = rw e refl

  record_delivery-Covered :
      (s : SalesOrder) (ps : List DeliveryPosting) (now : ℕ) {t : SalesOrder}
      → IsValid s
      → Covered s
      → record_delivery s ps now ≡ ok t
      → Covered t
  record_delivery-Covered s ps now v k h =
      let (can, _, _, _, end) = (record_delivery_iff s ps now v).0 h in
      let within : is_exceeded s.credit_status ≡ false =
        ground (arith, Deliverable-confirmed s.status can) in
      rw (end, within) (ground arith)

  -- No other call leaves an order that is not covered.
  ⇒-Covered :
      {s t : SalesOrder} (a : s ⇒ t) → IsValid s → Covered s → is_approval a ≡ false → Covered t
  unfolding update_header replace_lines apply_approval_outcome reopen cancel transition
  ⇒-Covered (reheaded q now h) v k n = ground arith
  ⇒-Covered {s} {t} (relined ls now h) v k n =
      let g = replace_lines-Given s ls now h in rw g.is_draft refl
  ⇒-Covered {s} (submits c o limit now h) v k n = submit-Covered s c o limit now h
  ⇒-Covered (answered outcome_approved now h) v k n = absurd (ground arith)
  ⇒-Covered (answered outcome_rejected now h) v k n = ground arith
  ⇒-Covered (answered outcome_cancelled now h) v k n = ground arith
  ⇒-Covered (answered outcome_none now h) v k n = ground arith
  ⇒-Covered (answered outcome_pending now h) v k n = absurd (ground arith)
  ⇒-Covered (reopens now h) v k n = ground arith
  ⇒-Covered (cancels r now h) v k n = ground arith
  ⇒-Covered {s} (delivers ps now h) v k n = record_delivery-Covered s ps now v k h

  history-Covered :
      {s t : SalesOrder} (p : s ⇒* t)
      → IsValid s
      → Covered s
      → is_confirmed t.status ≡ true
      → t.credit_status ≡ exceeded
      → HasApproval p
  history-Covered unchanged v k c e = absurd (ground arith)
  history-Covered (onward a p) v k c x = elim (Bool-cases (is_approval a)) [
    | inl e ↦ inl e
    | inr n ↦ inr (history-Covered p (⇒-IsValid a v) (⇒-Covered a v k n) c x)
  ]

  -- A sales order that is confirmed with its credit exceeded has been approved: an approval is among
  -- the calls since its creation.
  pub exceeded_needs_approval :
      (props : CreateSalesOrderProps) {s t : SalesOrder} (p : s ⇒* t)
      → create_order props ≡ ok s
      → is_confirmed t.status ≡ true
      → t.credit_status ≡ exceeded
      → HasApproval p
  exceeded_needs_approval props p h c e =
      let g = create_order-Given props h in
      history-Covered p (create_order-IsValid props h) (rw g.is_draft refl) c e
