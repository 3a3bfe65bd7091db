-- ===== src/Sales/Order/State.antt =====
-- sales-order.ts: the statuses, errors, lines and the record of a sales order.
use nestjs_api_template.Prelude.{Bool, List, Option, String, [], false, true, ℕ, ◌∷◌}
use nestjs_api_template.Prelude.Int.{ℤ}
use nestjs_api_template.Prelude.Lists.{any}
use nestjs_api_template.Prelude.Text.{Number}
use nestjs_api_template.Shared.Line.{
  DocumentError, DocumentLineInput, DocumentLineSnapshot, DocumentTotals,
}
use nestjs_api_template.Shared.Money.{MoneyError}

pub data SalesOrderStatus : Type 0 where
  draft : SalesOrderStatus
  pending_approval : SalesOrderStatus
  confirmed : SalesOrderStatus
  partially_delivered : SalesOrderStatus
  delivered : SalesOrderStatus
  rejected : SalesOrderStatus
  cancelled : SalesOrderStatus

pub data CreditStatus : Type 0 where
  not_checked : CreditStatus
  no_limit : CreditStatus
  within_limit : CreditStatus
  exceeded : CreditStatus

abbrev pub status_eq : SalesOrderStatus → SalesOrderStatus → Bool
status_eq draft draft = true
status_eq pending_approval pending_approval = true
status_eq confirmed confirmed = true
status_eq partially_delivered partially_delivered = true
status_eq delivered delivered = true
status_eq rejected rejected = true
status_eq cancelled cancelled = true
status_eq _ _ = false

unfoldable pub transitions : SalesOrderStatus → List SalesOrderStatus
transitions draft = pending_approval ∷ confirmed ∷ cancelled ∷ []
transitions pending_approval = confirmed ∷ rejected ∷ draft ∷ cancelled ∷ []
transitions confirmed = partially_delivered ∷ delivered ∷ cancelled ∷ []
transitions partially_delivered = delivered ∷ []
transitions delivered = []
transitions rejected = draft ∷ []
transitions cancelled = []

unfoldable pub can_transition : SalesOrderStatus → SalesOrderStatus → Bool
unfolding transitions
can_transition from to = any (status_eq to) (transitions from)

pub data SalesOrderError : Type 0 where
  illegal_transition : String → SalesOrderStatus → SalesOrderStatus → SalesOrderError
  not_editable : String → SalesOrderStatus → SalesOrderError
  invalid_sales_order : SalesOrderError
  credit_limit_exceeded : String → ℤ → ℤ → SalesOrderError
  approval_pending : String → Option String → SalesOrderError
  over_delivery : String → ℤ → ℤ → SalesOrderError
  order_has_deliveries : String → SalesOrderError
  order_money : MoneyError → SalesOrderError
  order_document : DocumentError → SalesOrderError

pub record SalesOrderLine : Type 0 where
  pub line : DocumentLineSnapshot
  pub open line use *
  pub delivered_qty : ℤ

pub record DeliveryPosting : Type 0 where
  pub sales_order_line_id : String
  pub quantity : ℤ

pub record SalesOrder : Type 0 where
  pub id : String
  pub tenant_id : String
  pub company_id : String
  pub number : String
  pub quotation_id : Option String
  pub customer_id : String
  pub currency : String
  pub order_date : String
  pub requested_delivery_date : Option String
  pub status : SalesOrderStatus
  pub payment_terms_days : Number
  pub notes : Option String
  pub totals : DocumentTotals
  pub credit_status : CreditStatus
  pub credit_exposure_minor : ℤ
  pub approval_request_id : Option String
  pub version : ℕ
  pub created_by : String
  pub submitted_at : Option ℕ
  pub confirmed_at : Option ℕ
  pub resolved_at : Option ℕ
  pub cancel_reason : Option String
  pub lines : List SalesOrderLine
  pub created_at : ℕ
  pub updated_at : ℕ

pub record CreateSalesOrderProps : Type 0 where
  pub id : String
  pub tenant_id : String
  pub company_id : String
  pub number : String
  pub quotation_id : Option String
  pub customer_id : String
  pub currency : String
  pub order_date : String
  pub requested_delivery_date : Option String
  pub payment_terms_days : Number
  pub notes : Option String
  pub created_by : String
  pub lines : List DocumentLineInput
  pub now : ℕ

-- A field of a patch that is undefined is `none`, one that is null is `some none`.
pub record SalesOrderHeaderPatch : Type 0 where
  pub requested_delivery_date : Option (Option String)
  pub payment_terms_days : Option Number
  pub notes : Option (Option String)

pub record CreditCheck : Type 0 where
  pub status : CreditStatus
  pub exposure_minor : ℤ

pub data SubmitApproval : Type 0 where
  approved_at_once : SubmitApproval
  approvers_must_act : SubmitApproval

pub record SubmitOutcome : Type 0 where
  pub approval_request_id : String
  pub approval : SubmitApproval

pub data ApprovalOutcome : Type 0 where
  outcome_approved : ApprovalOutcome
  outcome_rejected : ApprovalOutcome
  outcome_cancelled : ApprovalOutcome
  outcome_pending : ApprovalOutcome
  outcome_none : ApprovalOutcome
