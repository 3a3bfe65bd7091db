-- ===== src/ProductionOrder/Order/State.antt =====
-- The state of a ProductionOrder, its errors and its events. Ids are texts (branded strings in the
-- source) and a Date is its number of milliseconds.
use nestjs_api_template.Prelude.{
  Bool, List, Option, Result, String, [], err, map_err, ok, throw_if, ℕ, ◌++◌, ◌∷◌,
}
use nestjs_api_template.ProductionOrder.Money.{Money, MoneyError}
use nestjs_api_template.ProductionOrder.Quantity.{Quantity, QuantityError}
use nestjs_api_template.ProductionOrder.Status.{ProductionOrderStatus}

pub data OrderError : Type 0 where
  illegal_status_transition : ProductionOrderStatus → ProductionOrderStatus → OrderError
  segregation_of_duties : String → String → OrderError
  second_approver_must_differ : String → String → OrderError
  overproduction : String → Quantity → Quantity → Quantity → OrderError
  quantity_error : QuantityError → OrderError
  money_error : MoneyError → OrderError

pub record EventBase : Type 0 where
  pub aggregate_id : String
  pub tenant_id : String
  pub occurred_at : ℕ
  pub actor : String
  pub from_status : ProductionOrderStatus
  pub to_status : ProductionOrderStatus

pub data OrderEvent : Type 0 where
  submitted_event : EventBase → OrderEvent
  recalled_event : EventBase → OrderEvent
  approved_event : EventBase → Option String → Option String → Money → OrderEvent
  released_event : EventBase → OrderEvent
  progress_reported_event : EventBase → Quantity → Quantity → OrderEvent
  completed_event : EventBase → Quantity → OrderEvent
  cancelled_event : EventBase → String → OrderEvent

pub record ProgressReport : Type 0 where
  pub reported : Quantity
  pub by : String
  pub at : ℕ

pub record ProductionOrder : Type 0 where
  pub id : String
  pub tenant_id : String
  pub created_by : String
  pub product_sku : Option String
  pub ordered_quantity : Quantity
  pub total_amount : Money
  pub created_at : ℕ
  pub version : ℕ
  pub status : ProductionOrderStatus
  pub first_approver : Option String
  pub second_approver : Option String
  pub produced_quantity : Quantity
  pub progress_reports : List ProgressReport
  pub updated_at : ℕ
  pub pending_events : List OrderEvent

pub record DraftInput : Type 0 where
  pub id : String
  pub tenant_id : String
  pub created_by : String
  pub product_sku : Option String
  pub ordered_quantity : Quantity
  pub total_amount : Money
  pub now : ℕ

pub record ProductionOrderSnapshot : Type 0 where
  pub id : String
  pub tenant_id : String
  pub created_by : String
  pub status : ProductionOrderStatus
  pub product_sku : Option String
  pub ordered_quantity : Quantity
  pub total_amount : Money
  pub first_approver : Option String
  pub second_approver : Option String
  pub produced_quantity : Quantity
  pub progress_reports : List ProgressReport
  pub version : ℕ
  pub created_at : ℕ
  pub updated_at : ℕ

-- A method call: what it returns or throws, and the order afterwards.
abbrev pub Method : Type 0 → Type 0
Method A = ProductionOrder → Result OrderError A × ProductionOrder

infixl 5 ◌>>=◌ ◌>>◌
abbrev pub ◌>>=◌ : {A B : Type 0} → Method A → (A → Method B) → Method B
◌>>=◌ m f o = let (r, o') = m o in elim r [ ok a ↦ f a o' | err e ↦ (err e, o') ]

abbrev pub ◌>>◌ : {A B : Type 0} → Method A → Method B → Method B
m >> k = m >>= λ _. k

abbrev pub get : Method ProductionOrder
get o = (ok o, o)

abbrev pub modify : (ProductionOrder → ProductionOrder) → Method (Unit {0})
modify f o = (ok tt, f o)

abbrev pub skip : Method (Unit {0})
skip o = (ok tt, o)

abbrev pub lift : {E A : Type 0} → (E → OrderError) → Result E A → Method A
lift f r o = (map_err f r, o)

abbrev pub throw_when : Bool → OrderError → Method (Unit {0})
throw_when c e o = (throw_if c e, o)

-- `this._pendingEvents.push(event)`
abbrev pub push_event : OrderEvent → Method (Unit {0})
push_event e o = (ok tt, record o { pending_events = o.pending_events ++ e ∷ [] })
