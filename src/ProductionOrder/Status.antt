-- ===== src/ProductionOrder/Status.antt =====
-- production-order-status.ts and state-machine.ts: the statuses and the table of legal transitions.
use nestjs_api_template.Prelude.{
  Bool, List, [], arith, false, true, ℕ, ◌&&◌, ◌+◌, ◌↔◌, ◌∷◌, ◌≡◌, ◌≤◌, ◌⊎◌,
}
use nestjs_api_template.Prelude.Lists.{any}

pub data ProductionOrderStatus : Type 0 where
  draft : ProductionOrderStatus
  submitted : ProductionOrderStatus
  approved : ProductionOrderStatus
  released : ProductionOrderStatus
  in_progress : ProductionOrderStatus
  completed : ProductionOrderStatus
  cancelled : ProductionOrderStatus

abbrev pub status_eq : ProductionOrderStatus → ProductionOrderStatus → Bool
status_eq draft draft = true
status_eq submitted submitted = true
status_eq approved approved = true
status_eq released released = true
status_eq in_progress in_progress = true
status_eq completed completed = true
status_eq cancelled cancelled = true
status_eq _ _ = false

pub allowed_transitions : List (ProductionOrderStatus × ProductionOrderStatus)
allowed_transitions =
    (draft, submitted)
    ∷ (draft, cancelled)
    ∷ (submitted, draft)
    ∷ (submitted, approved)
    ∷ (submitted, cancelled)
    ∷ (approved, released)
    ∷ (approved, cancelled)
    ∷ (released, in_progress)
    ∷ (released, cancelled)
    ∷ (in_progress, completed)
    ∷ []

unfoldable pub can_transition : ProductionOrderStatus → ProductionOrderStatus → Bool
unfolding allowed_transitions
can_transition from to = any (λ t. status_eq t.0 from && status_eq t.1 to) allowed_transitions

-- An order that is completed or cancelled.
abbrev pub is_terminal : ProductionOrderStatus → Bool
is_terminal completed = true
is_terminal cancelled = true
is_terminal _ = false

-- The life of an order as a graph, by stage: how far production has come.
abbrev pub stage : ProductionOrderStatus → ℕ
stage draft = 0
stage submitted = 1
stage approved = 2
stage released = 3
stage in_progress = 4
stage completed = 5
stage cancelled = 6

-- The table goes forward by one stage, cancels before any progress, or recalls a submitted order.
transition_shape :
    (from to : ProductionOrderStatus)
    → (can_transition from to ≡ true) ↔ (
        ((stage to ≡ stage from + 1) × (stage from ≤ 4))
        ⊎ ((to ≡ cancelled) × (stage from ≤ 3))
        ⊎ ((from ≡ submitted) × (to ≡ draft)))
unfolding can_transition
transition_shape from to = ground arith
