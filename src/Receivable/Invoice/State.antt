-- ===== src/Receivable/Invoice/State.antt =====
-- sales-invoice.ts: the types, statuses and errors, the lines and the record of an invoice.
use nestjs_api_template.Prelude.{List, Option, String, ℕ}
use nestjs_api_template.Prelude.Int.{ℤ}
use nestjs_api_template.Prelude.Text.{Number}
use nestjs_api_template.Shared.Line.{
  DocumentError, DocumentLineInput, DocumentLineSnapshot, DocumentTotals,
}
use nestjs_api_template.Shared.Money.{MoneyError}

pub data InvoiceType : Type 0 where
  invoice : InvoiceType
  credit_note : InvoiceType
  debit_note : InvoiceType

pub data InvoiceStatus : Type 0 where
  draft : InvoiceStatus
  issued : InvoiceStatus
  partially_paid : InvoiceStatus
  paid : InvoiceStatus
  applied : InvoiceStatus
  void : InvoiceStatus

pub data NoteReason : Type 0 where
  return : NoteReason
  price_adjustment : NoteReason
  discount : NoteReason
  quantity_error : NoteReason
  other : NoteReason

pub data InvoiceError : Type 0 where
  illegal_invoice_transition : String → InvoiceStatus → InvoiceStatus → InvoiceError
  invoice_not_editable : String → InvoiceStatus → InvoiceError
  invalid_invoice : InvoiceError
  settlement_exceeds_balance : String → ℤ → ℤ → InvoiceError
  invoice_money : MoneyError → InvoiceError
  invoice_document : DocumentError → InvoiceError

pub record SalesInvoiceLineInput : Type 0 where
  pub input : DocumentLineInput
  pub open input use *
  pub sales_order_line_id : Option String

pub record SalesInvoiceLine : Type 0 where
  pub line : DocumentLineSnapshot
  pub open line use *
  pub sales_order_line_id : Option String

pub record CustomerIdentity : Type 0 where
  pub customer_id : String
  pub customer_name : String
  pub customer_tax_id : Option String
  pub customer_branch_number : Option String
  pub billing_address : Option String

pub record SalesInvoice : Type 0 where
  pub id : String
  pub tenant_id : String
  pub company_id : String
  pub branch_id : String
  pub number : Option String
  pub type : InvoiceType
  pub original_invoice_id : Option String
  pub reason : Option NoteReason
  pub reason_text : Option String
  pub customer : CustomerIdentity
  pub sales_order_id : Option String
  pub currency : String
  pub invoice_date : String
  pub due_date : String
  pub payment_terms_days : Number
  pub status : InvoiceStatus
  pub totals : DocumentTotals
  pub settled_minor : ℤ
  pub balance_minor : ℤ
  pub notes : Option String
  pub version : ℕ
  pub created_by : String
  pub issued_at : Option ℕ
  pub voided_at : Option ℕ
  pub void_reason : Option String
  pub lines : List SalesInvoiceLine
  pub created_at : ℕ
  pub updated_at : ℕ

pub record CreateInvoiceProps : Type 0 where
  pub id : String
  pub tenant_id : String
  pub company_id : String
  pub branch_id : String
  pub type : Option InvoiceType
  pub original_invoice_id : Option String
  pub reason : Option NoteReason
  pub reason_text : Option String
  pub customer : CustomerIdentity
  pub sales_order_id : Option String
  pub currency : String
  pub invoice_date : String
  pub payment_terms_days : Number
  pub notes : Option String
  pub created_by : String
  pub lines : List SalesInvoiceLineInput
  pub now : ℕ

-- A field of a patch that is undefined is `none`, one that is null is `some none`.
pub record InvoiceHeaderPatch : Type 0 where
  pub invoice_date : Option String
  pub payment_terms_days : Option Number
  pub notes : Option (Option String)

-- What `Date` of the runtime computes: the ISO date a number of days after another.
pub record Calendar : Type 0 where
  pub add_days : String → Number → String
