-- ===== src/Payable/Paid.antt =====
-- What paying does to the invoices and to their open balances.
use nestjs_api_template.Prelude.Maps
use nestjs_api_template.Payable.Batch.{PaymentBatch, invalid_batch, post_batch}
use nestjs_api_template.Payable.Certificate.{Certificate}
use nestjs_api_template.Payable.Invoice.{VendorInvoice, apply_settlement}
use nestjs_api_template.Payable.Paying.{
  Invoices, assert_version, execute_post_batch, find_invoice, post_drafts, post_if_draft,
  post_payment, saved_invoice, settle_all, settle_one,
}
use nestjs_api_template.Payable.Settlement.{IsValid, apply_settlement_lem}
use nestjs_api_template.Payable.Voucher.{
  PaymentAllocation, PaymentVoucher, VoucherStatus, gross_of, is_draft, post_voucher,
}
use nestjs_api_template.Payable.Wht.{WhtLineInput, wht_lines_for}
use nestjs_api_template.Prelude.{
  Bool, Bool-cases, List, Option, Option-cases, Result-cases, String, [], ap, arith, err,
  if◌then◌else◌, inl, inr, map, ok, refl, some, suc, true, ℕ, ◌++◌, ◌∷◌, ◌≡◌,
}
use nestjs_api_template.Prelude.Int.{add_zero, int_laws, neg_part, pos, pos_part, ℤ, ◌+ℤ◌}
use nestjs_api_template.Prelude.Lists.{All, sum_by}

abbrev pub AllValid : Invoices → Type 0
AllValid = All (λ p. IsValid p.1)

-- What is open on all invoices together.
abbrev pub open_balance : Invoices → ℤ
open_balance invoices = sum_by (λ inv. inv.balance_minor) (Maps.values invoices)

pub find_invoice_lem :
    (id : String) (invoices : Invoices) {inv : VendorInvoice}
    → find_invoice id invoices ≡ ok inv
    → Maps.get id invoices ≡ some inv
unfolding find_invoice
find_invoice_lem id invoices h = elim (Option-cases (Maps.get id invoices)) [
  | inl e ↦ absurd (ground (arith, e))
  | inr (v, e) ↦ ground (arith, e)
]

put_balance :
    (invoices : Invoices) (id : String) (inv t : VendorInvoice)
    → Maps.get id invoices ≡ some inv
    → open_balance (Maps.put id t invoices) +ℤ inv.balance_minor
      ≡ open_balance invoices +ℤ t.balance_minor
put_balance invoices id inv t e = rw e at (Maps.sum_by-put (λ i. i.balance_minor) id t invoices)

fall :
    (after old before new amount : ℤ)
    → after +ℤ old ≡ before +ℤ new
    → new +ℤ amount ≡ old
    → after +ℤ amount ≡ before
fall after old before new amount e f =
    omega (int_laws, ap pos_part e, ap neg_part e, ap pos_part f, ap neg_part f)

rise :
    (after old before new amount : ℤ)
    → after +ℤ old ≡ before +ℤ new
    → new ≡ old +ℤ amount
    → after ≡ before +ℤ amount
rise after old before new amount e f =
    omega (int_laws, ap pos_part e, ap neg_part e, ap pos_part f, ap neg_part f)

chain :
    (end rest next one start : ℤ)
    → end +ℤ rest ≡ next
    → next +ℤ one ≡ start
    → end +ℤ (one +ℤ rest) ≡ start
chain end rest next one start e f =
    omega (int_laws, ap pos_part e, ap neg_part e, ap pos_part f, ap neg_part f)

-- The parts of one settlement.
pub settle_one_parts :
    (now : ℕ) (invoices : Invoices) (wht : List WhtLineInput) (a : PaymentAllocation)
    {r : Invoices × List WhtLineInput}
    → settle_one now (invoices, wht) a ≡ ok r
    → (inv : VendorInvoice) × (t : VendorInvoice) × (lines : List WhtLineInput) × (Maps.get
          a.invoice_id invoices
        ≡ some inv)
      × (wht_lines_for inv a.amount_minor ≡ ok lines)
      × (apply_settlement inv a.amount_minor now ≡ ok t)
      × (r ≡ (Maps.put a.invoice_id (saved_invoice t) invoices, wht ++ lines))
unfolding settle_one
settle_one_parts now invoices wht a {r} h =
    elim (Result-cases (find_invoice a.invoice_id invoices)) [
      | inr (e, bad) ↦ absurd (ground (arith, bad))
      | inl (inv, found) ↦ elim (Result-cases (wht_lines_for inv a.amount_minor)) [
        | inr (e, bad) ↦ absurd (ground (arith, bad))
        | inl (lines, taxed) ↦ elim (Result-cases (apply_settlement inv a.amount_minor now)) [
          | inr (e, bad) ↦ absurd (ground (arith, bad))
          | inl (t, applied) ↦ (
            inv,
            t,
            lines,
            find_invoice_lem a.invoice_id invoices found,
            taxed,
            applied,
            ground arith,
          )
        ]
      ]
    ]

settle_one_lem :
    (now : ℕ) (invoices : Invoices) (wht : List WhtLineInput) (a : PaymentAllocation)
    {r : Invoices × List WhtLineInput}
    → AllValid invoices
    → settle_one now (invoices, wht) a ≡ ok r
    → AllValid r.0 × (open_balance r.0 +ℤ a.amount_minor ≡ open_balance invoices)
settle_one_lem now invoices wht a {r} v h =
    let (inv, t, lines, found, _, applied, end) = settle_one_parts now invoices wht a h in
    let old = Maps.get-All (λ p. IsValid p.1) a.invoice_id invoices v found in
    let (valid, less) = apply_settlement_lem inv a.amount_minor now old applied in
    rw end (
      Maps.put-All (λ p. IsValid p.1) a.invoice_id (saved_invoice t) invoices valid v,
      fall _ _ _ _ _ (put_balance invoices a.invoice_id inv (saved_invoice t) found) less,
    )

settle_all_lem :
    (now : ℕ) (invoices : Invoices) (wht : List WhtLineInput) (list : List PaymentAllocation)
    {r : Invoices × List WhtLineInput}
    → AllValid invoices
    → settle_all now (invoices, wht) list ≡ ok r
    → AllValid r.0 × (open_balance r.0 +ℤ gross_of list ≡ open_balance invoices)
unfolding settle_all
settle_all_lem now invoices wht [] {r} v h =
    let end : r ≡ (invoices, wht) = ground arith in rw end (v, add_zero _)
settle_all_lem now invoices wht (a ∷ rest) {r} v h =
    elim (Result-cases (settle_one now (invoices, wht) a)) [
      | inr (e, bad) ↦ absurd (ground (arith, bad))
      | inl ((next, more), fine) ↦
          let (w, one) = settle_one_lem now invoices wht a v fine in
          let (x, others) = settle_all_lem now next more rest {r = r} w (rw fine at h) in
          (x, chain _ _ _ _ _ others one)
    ]

-- A payment that is posted keeps every invoice valid and takes exactly its gross amount from the
-- balances that are open; the voucher was a draft and is posted, with its amounts.
post_payment_lem :
    (gate_open : Bool) (invoices : Invoices) (v : PaymentVoucher) (new_id : ℕ → String) (now : ℕ)
    {settled : Invoices} {done : PaymentVoucher} {cert : Option Certificate}
    → AllValid invoices
    → post_payment gate_open invoices v new_id now ≡ ok (settled, done, cert)
    → AllValid settled
      × (open_balance settled +ℤ gross_of v.allocations ≡ open_balance invoices)
      × (is_draft v.status ≡ true)
      × (done ≡ record v {
        status = VoucherStatus.posted;
        posted_at = some now;
        updated_at = now;
        version = suc v.version;
      })
unfolding post_payment post_voucher
post_payment_lem gate_open invoices v new_id now {settled} {done} {cert} valid h =
    elim (Result-cases (settle_all now (invoices, []) v.allocations)) [
      | inr (e, bad) ↦ absurd (ground (arith, bad))
      | inl ((next, wht), fine) ↦
          let (w, less) = settle_all_lem now invoices [] v.allocations valid fine in
          let end : settled ≡ next = ground (arith, fine) in
          rw end (w, less, ground (arith, fine), ground (arith, fine))
    ]

-- The vouchers of a batch after its posting.
abbrev pub posted_now : ℕ → PaymentVoucher → PaymentVoucher
posted_now now v =
    if is_draft v.status
    then record v {
      status = VoucherStatus.posted;
      posted_at = some now;
      updated_at = now;
      version = suc v.version;
    }
    else v

-- What the drafts of a batch pay.
abbrev pub draft_gross : List PaymentVoucher → ℤ
draft_gross = sum_by (λ v. if is_draft v.status then gross_of v.allocations else pos 0)

post_if_draft_lem :
    (gate_open : Bool) (new_id : ℕ → String) (now : ℕ) (invoices : Invoices) (w : PaymentVoucher)
    {r : Invoices × PaymentVoucher}
    → AllValid invoices
    → post_if_draft gate_open new_id now invoices w ≡ ok r
    → AllValid r.0
      × (open_balance r.0 +ℤ (if is_draft w.status then gross_of w.allocations else pos 0)
          ≡ open_balance invoices)
      × (r.1 ≡ posted_now now w)
unfolding post_if_draft
post_if_draft_lem gate_open new_id now invoices w {r} v h = elim (Bool-cases (is_draft w.status)) [
  | inr e ↦ let same : r ≡ (invoices, w) = ground arith in rw (same, e) (v, add_zero _, refl)
  | inl e ↦ elim (Result-cases (post_payment gate_open invoices w new_id now)) [
    | inr (x, bad) ↦ absurd (ground arith)
    | inl ((next, done, cert), fine) ↦
        let (valid, less, _, done_is) = post_payment_lem gate_open invoices w new_id now v fine in
        let same : r ≡ (next, done) = ground arith in rw (same, e) (valid, less, done_is)
  ]
]

post_drafts_lem :
    (gate : PaymentVoucher → Bool) (new_id : PaymentVoucher → ℕ → String) (now : ℕ)
    (invoices : Invoices) (vouchers : List PaymentVoucher) {r : Invoices × List PaymentVoucher}
    → AllValid invoices
    → post_drafts gate new_id now invoices vouchers ≡ ok r
    → AllValid r.0
      × (open_balance r.0 +ℤ draft_gross vouchers ≡ open_balance invoices)
      × (r.1 ≡ map (posted_now now) vouchers)
unfolding post_drafts
post_drafts_lem gate new_id now invoices [] {r} v h =
    let same : r ≡ (invoices, []) = ground arith in rw same (v, add_zero _, refl)
post_drafts_lem gate new_id now invoices (w ∷ rest) {r} v h =
    elim (Result-cases (post_if_draft (gate w) (new_id w) now invoices w)) [
      | inr (x, bad) ↦ absurd (ground (arith, bad))
      | inl ((mid, first), one) ↦
          let (mid_valid, paid_first, first_is) =
            post_if_draft_lem (gate w) (new_id w) now invoices w v one in
          elim (Result-cases (post_drafts gate new_id now mid rest)) [
            | inr (x, bad) ↦ absurd (ground (arith, one, bad))
            | inl ((next, others), fine) ↦
                let (valid, less, same) = post_drafts_lem gate new_id now mid rest mid_valid fine in
                let end_is : r ≡ (next, first ∷ others) = ground (arith, one, fine) in
                rw end_is (valid, chain _ _ _ _ _ less paid_first, rw (same, first_is) refl)
          ]
    ]

-- A batch that is posted on valid invoices keeps every invoice valid and takes exactly the gross
-- amounts of the allocations of its drafts from the balances that are open; every draft among its
-- vouchers is posted, the others stay as they are, and the batch cannot be posted again.
pub execute_post_batch_lem :
    (gate : PaymentVoucher → Bool) (new_id : PaymentVoucher → ℕ → String) (invoices : Invoices)
    (b : PaymentBatch) (vouchers : List PaymentVoucher) (expected_version : Option ℕ)
    (now later : ℕ) {end : Invoices} {done : List PaymentVoucher} {batch : PaymentBatch}
    → AllValid invoices
    → execute_post_batch gate new_id invoices b vouchers expected_version now
      ≡ ok (end, done, batch)
    → AllValid end
      × (open_balance end +ℤ draft_gross vouchers ≡ open_balance invoices)
      × (done ≡ map (posted_now now) vouchers)
      × (post_batch batch later ≡ err invalid_batch)
unfolding execute_post_batch post_batch
execute_post_batch_lem gate new_id invoices b vouchers expected_version now later {end} {done}
      {batch} v h =
    elim (Result-cases (assert_version b.id b.version expected_version)) [
      | inr (x, bad) ↦ absurd (ground (arith, bad))
      | inl (_, current) ↦ elim (Result-cases (post_drafts gate new_id now invoices vouchers)) [
        | inr (x, bad) ↦ absurd (ground (arith, current, bad))
        | inl ((next, others), fine) ↦
            let (valid, less, same) = post_drafts_lem gate new_id now invoices vouchers v fine in
            let end_is : end ≡ next = ground (arith, current, fine) in
            let done_is : done ≡ others = ground (arith, current, fine) in
            rw (end_is, done_is) (valid, less, same, ground (arith, current, fine))
      ]
    ]
