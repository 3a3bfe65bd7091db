-- ===== src/Payable/Batch.antt =====
-- payment.ts: `class PaymentBatch`. The methods return a new batch and leave the old one.
use nestjs_api_template.Payable.Voucher.{
  PaymentMethod, PaymentVoucher, cash, cheque, is_draft, transfer,
}
use nestjs_api_template.Prelude.{
  Bool, List, Option, Result, String, [], false, none, not, ok, some, throw_if, true, ℕ, ◌==◌,
  ◌>>=◌, ◌>>◌, ◌||◌, ◌∷◌,
}
use nestjs_api_template.Prelude.Int.{pos, ℤ, ◌+ℤ◌}
use nestjs_api_template.Prelude.Lists.{length}
use nestjs_api_template.Prelude.Text.{str_eq}
use nestjs_api_template.Shared.IsoDate.{is_iso_date}

pub data BatchStatus : Type 0 where
  draft : BatchStatus
  posted : BatchStatus
  void : BatchStatus

pub data BatchError : Type 0 where
  invalid_batch : BatchError

pub record PaymentBatch : Type 0 where
  pub id : String
  pub tenant_id : String
  pub company_id : String
  pub number : String
  pub payment_date : String
  pub method : PaymentMethod
  pub currency : String
  pub status : BatchStatus
  pub voucher_count : ℕ
  pub total_net_minor : ℤ
  pub total_wht_minor : ℤ
  pub version : ℕ
  pub created_by : String
  pub posted_at : Option ℕ
  pub created_at : ℕ
  pub updated_at : ℕ

pub record CreateBatchProps : Type 0 where
  pub id : String
  pub tenant_id : String
  pub company_id : String
  pub number : String
  pub payment_date : String
  pub method : PaymentMethod
  pub currency : String
  pub created_by : String
  pub vouchers : List PaymentVoucher
  pub now : ℕ

abbrev pub method_eq : PaymentMethod → PaymentMethod → Bool
method_eq cash cash = true
method_eq transfer transfer = true
method_eq cheque cheque = true
method_eq _ _ = false

-- The body of the loop over the vouchers.
unfoldable pub check_voucher : CreateBatchProps → PaymentVoucher → Result BatchError (Unit {0})
check_voucher props v = do
  throw_if (not (is_draft v.status)) invalid_batch
  throw_if
      (not (str_eq v.company_id props.company_id)
        || not (method_eq v.method props.method)
        || not (str_eq v.currency props.currency))
      invalid_batch

-- The loop: the sums of what is paid and of what is withheld.
unfoldable pub add_vouchers :
    CreateBatchProps → ℤ → ℤ → List PaymentVoucher → Result BatchError (ℤ × ℤ)
unfolding check_voucher
add_vouchers props net wht [] = ok (net, wht)
add_vouchers props net wht (v ∷ rest) =
    check_voucher props v >> add_vouchers props (net +ℤ v.net_paid_minor) (wht +ℤ v.wht_minor) rest

unfoldable pub create_batch : CreateBatchProps → Result BatchError PaymentBatch
create_batch props = do
  throw_if (not (is_iso_date props.payment_date)) invalid_batch
  throw_if (length props.vouchers == 0) invalid_batch
  (net, wht) ← add_vouchers props (pos 0) (pos 0) props.vouchers
  ok (record {
    id = props.id;
    tenant_id = props.tenant_id;
    company_id = props.company_id;
    number = props.number;
    payment_date = props.payment_date;
    method = props.method;
    currency = props.currency;
    status = draft;
    voucher_count = length props.vouchers;
    total_net_minor = net;
    total_wht_minor = wht;
    version = 0;
    created_by = props.created_by;
    posted_at = none;
    created_at = props.now;
    updated_at = props.now;
  })

abbrev pub is_draft_batch : BatchStatus → Bool
is_draft_batch draft = true
is_draft_batch _ = false

unfoldable pub post_batch : PaymentBatch → ℕ → Result BatchError PaymentBatch
post_batch s now = do
  throw_if (not (is_draft_batch s.status)) invalid_batch
  ok (record s { status = posted; posted_at = some now; updated_at = now })

unfoldable pub void_batch : PaymentBatch → ℕ → Result BatchError PaymentBatch
void_batch s now = do
  throw_if (not (is_draft_batch s.status)) invalid_batch
  ok (record s { status = void; updated_at = now })
