-- ===== src/Payable/Lifecycle.antt =====
-- The life of a vendor invoice: the calls as a relation, and what no sequence of calls breaks.
use nestjs_api_template.Payable.Invoice.{
  Calendar, CreateVendorInvoiceProps, VendorInvoice, VendorInvoiceStatus, ap_open_statuses,
  apply_settlement, create_vendor_invoice, draft, is_matched, open_status, paid, partially_paid,
  post_invoice, reverse_settlement, status_eq, void, void_invoice,
}
use nestjs_api_template.Payable.Match.{MatchStatus, matched, unmatched, variance}
use nestjs_api_template.Payable.Settlement.{
  IsValid, SettledAs, apply_settlement_lem, reverse_settlement_lem,
}
use nestjs_api_template.Prelude.{
  Bool, Bool-cases, String, arith, false, inl, inr, not, ok, refl, true, ℕ, ◌&&◌, ◌||◌, ◌≡◌, ◌⊎◌,
}
use nestjs_api_template.Prelude.Int.{pos, ℤ}
use nestjs_api_template.Prelude.Lists.{any}
use nestjs_api_template.Prelude.Text.{Unicode}
use nestjs_api_template.Shared.Money.{same}

draft_of_test : (st : VendorInvoiceStatus) → status_eq st draft ≡ true → st ≡ draft
draft_of_test draft h = refl
draft_of_test open_status h = absurd (ground arith)
draft_of_test partially_paid h = absurd (ground arith)
draft_of_test paid h = absurd (ground arith)
draft_of_test void h = absurd (ground arith)

unsettled :
    (st : VendorInvoiceStatus) (total settled balance : ℤ)
    → (not (status_eq st draft) && not (status_eq st open_status)) ≡ false
    → SettledAs st total settled balance
    → settled ≡ pos 0
unsettled draft total settled balance h v = v.0
unsettled open_status total settled balance h v = v.0
unsettled partially_paid total settled balance h v = absurd (ground arith)
unsettled paid total settled balance h v = absurd (ground arith)
unsettled void total settled balance h v = absurd (ground arith)

infix 40 ◌⇒◌ ◌⇒*◌
-- One call that returns.
pub data ◌⇒◌ : VendorInvoice → VendorInvoice → Type 0 where
  posts :
      {s t : VendorInvoice} (now : ℕ) (accept_variance : Bool)
      → post_invoice s now accept_variance ≡ ok t
      → s ⇒ t
  settles :
      {s t : VendorInvoice} (amount : ℤ) (now : ℕ) → apply_settlement s amount now ≡ ok t → s ⇒ t
  unsettles :
      {s t : VendorInvoice} (amount : ℤ) (now : ℕ) → reverse_settlement s amount now ≡ ok t → s ⇒ t
  voids :
      {s t : VendorInvoice} (reason : String) (now : ℕ) → void_invoice s reason now ≡ ok t → s ⇒ t

pub data ◌⇒*◌ : VendorInvoice → VendorInvoice → Type 0 where
  unchanged : {s : VendorInvoice} → s ⇒* s
  onward : {s t u : VendorInvoice} → s ⇒ t → t ⇒* u → s ⇒* u

-- The call is a posting that accepts a variance.
abbrev pub accepts : {s t : VendorInvoice} → s ⇒ t → Bool
accepts (posts now accept_variance h) = accept_variance
accepts (settles amount now h) = false
accepts (unsettles amount now h) = false
accepts (voids reason now h) = false

abbrev pub some_accepts : {s t : VendorInvoice} → s ⇒* t → Bool
some_accepts unchanged = false
some_accepts (onward a p) = accepts a || some_accepts p

⇒-IsValid : {s t : VendorInvoice} → s ⇒ t → IsValid s → IsValid t
unfolding post_invoice void_invoice
⇒-IsValid {s} {t} (posts now accept_variance h) v =
    let was : s.status ≡ draft = draft_of_test s.status (ground arith) in
    let (none_yet, full) = rw was at v in
    let status_is : t.status ≡ open_status = ground arith in
    let totals_are : t.totals ≡ s.totals = ground arith in
    let settled_is : t.settled_minor ≡ s.settled_minor = ground arith in
    let balance_is : t.balance_minor ≡ s.balance_minor = ground arith in
    rw (status_is, totals_are, settled_is, balance_is) (none_yet, full, ground arith)
⇒-IsValid {s} (settles amount now h) v = (apply_settlement_lem s amount now v h).0
⇒-IsValid {s} (unsettles amount now h) v = (reverse_settlement_lem s amount now v h).0
⇒-IsValid {s} {t} (voids reason now h) v =
    let none_yet =
      unsettled s.status s.totals.total_minor s.settled_minor s.balance_minor (ground arith) v in
    let status_is : t.status ≡ void = ground arith in
    let settled_is : t.settled_minor ≡ s.settled_minor = ground arith in
    let balance_is : t.balance_minor ≡ pos 0 = ground arith in
    rw (status_is, settled_is, balance_is) (none_yet, refl)

history-IsValid : {s t : VendorInvoice} → s ⇒* t → IsValid s → IsValid t
history-IsValid unchanged v = v
history-IsValid (onward a p) v = history-IsValid p (⇒-IsValid a v)

-- The invoice has been posted and is not void.
abbrev pub is_in_force : VendorInvoiceStatus → Bool
is_in_force draft = false
is_in_force open_status = true
is_in_force partially_paid = true
is_in_force paid = true
is_in_force void = false

opened :
    (st : VendorInvoiceStatus) (x y : Bool)
    → any (status_eq st) ap_open_statuses ≡ true
    → (is_in_force st || x || y) ≡ true
opened open_status x y h = refl
opened partially_paid x y h = refl
opened draft x y h = absurd (ground arith)
opened paid x y h = absurd (ground arith)
opened void x y h = absurd (ground arith)

was_settled :
    (st : VendorInvoiceStatus) (x y : Bool)
    → (not (status_eq st paid) && not (status_eq st partially_paid)) ≡ false
    → (is_in_force st || x || y) ≡ true
was_settled paid x y h = refl
was_settled partially_paid x y h = refl
was_settled draft x y h = absurd (ground arith)
was_settled open_status x y h = absurd (ground arith)
was_settled void x y h = absurd (ground arith)

next_in_force :
    (fs ft m a p : Bool)
    → (ft ≡ true → (fs || m || a) ≡ true)
    → (ft || m || p) ≡ true
    → (fs || m || (a || p)) ≡ true
next_in_force fs false m a p step later = ground arith
next_in_force fs true m a p step later = ground (arith, step refl)

no_void : {m : Bool} → false ≡ true → m ≡ true
no_void h = absurd (cc)

-- A call keeps the result of the match, and only a posting puts an invoice in force.
⇒-match :
    {s t : VendorInvoice} (a : s ⇒ t)
    → (t.match_status ≡ s.match_status)
      × (is_in_force t.status ≡ true
          → (is_in_force s.status || is_matched s.match_status || accepts a) ≡ true)
unfolding post_invoice apply_settlement reverse_settlement void_invoice
⇒-match {s} {t} (posts now accept_variance h) = (ground arith, λ f. ground arith)
⇒-match {s} {t} (settles amount now h) = (ground arith, λ f. opened s.status _ _ (ground arith))
⇒-match {s} {t} (unsettles amount now h) =
    (ground arith, λ f. was_settled s.status _ _ (ground arith))
⇒-match {s} {t} (voids reason now h) =
    let gone : t.status ≡ void = ground arith in (ground arith, λ f. no_void (rw gone at f))

history-match :
    {s t : VendorInvoice} (p : s ⇒* t)
    → is_in_force t.status ≡ true
    → (is_in_force s.status || is_matched s.match_status || some_accepts p) ≡ true
history-match unchanged f = ground arith
history-match {s} (onward a p) f =
    let (same, step) = ⇒-match a in
    let later = history-match p f in next_in_force _ _ _ _ _ step (rw same at later)

matched_or :
    (st : MatchStatus) (b : Bool) → (is_matched st || b) ≡ true → (st ≡ matched) ⊎ (b ≡ true)
matched_or matched b h = inl refl
matched_or variance b h = inr h
matched_or unmatched b h = inr h

module _ ⦃u : Unicode⦄ ⦃k : Calendar⦄ where
  created_draft :
      (props : CreateVendorInvoiceProps) {s : VendorInvoice}
      → create_vendor_invoice props ≡ ok s
      → (s.status ≡ draft) × IsValid s × (s.match_status ≡ props.match_result.status)
  unfolding create_vendor_invoice
  created_draft props {s} h =
      let is_draft : s.status ≡ draft = ground arith in
      let nothing_yet : s.settled_minor ≡ pos 0 = ground arith in
      let full : s.balance_minor ≡ s.totals.total_minor = ground arith in
      (is_draft, rw is_draft (nothing_yet, full), ground arith)

  -- Whatever calls follow the creation of a vendor invoice, its status says what is settled and
  -- what is open; and it is a draft or void, or it matched its purchase order, or one of the calls
  -- was a posting that accepted the variance.
  pub created_invoice_in_force :
      (props : CreateVendorInvoiceProps) {s t : VendorInvoice}
      → create_vendor_invoice props ≡ ok s
      → (p : s ⇒* t)
      → IsValid t
        × ((is_in_force t.status ≡ false)
            ⊎ ((props.match_result.status ≡ matched) ⊎ (some_accepts p ≡ true)))
  created_invoice_in_force props {s} {t} h p =
      let (is_draft, valid, same) = created_draft props h in
      (
        history-IsValid p valid,
        elim (Bool-cases (is_in_force t.status)) [
          | inr f ↦ inl f
          | inl f ↦ inr (matched_or _ _ (rw (is_draft, same) at (history-match p f)))
        ],
      )
