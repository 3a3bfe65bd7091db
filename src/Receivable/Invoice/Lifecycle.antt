-- ===== src/Receivable/Invoice/Lifecycle.antt =====
-- The life of an invoice: the calls as a relation, and what no sequence of calls breaks.
use nestjs_api_template.Prelude.{List, String, arith, false, not, ok, refl, true, ℕ, ◌&&◌, ◌∙◌, ◌≡◌}
use nestjs_api_template.Prelude.Int.{int_laws, pos, ℤ, ◌-ℤ◌}
use nestjs_api_template.Prelude.Text.{Unicode}
use nestjs_api_template.Receivable.Invoice.Methods.{
  apply_settlement, assert_editable, create_invoice, issue, mark_applied, replace_lines,
  reverse_settlement, status_eq, update_header, void_invoice,
}
use nestjs_api_template.Receivable.Invoice.Settlement.{
  IsValid, SettledAs, apply_settlement-IsValid, reverse_settlement-IsValid,
}
use nestjs_api_template.Receivable.Invoice.State.{
  Calendar, CreateInvoiceProps, InvoiceHeaderPatch, InvoiceStatus, SalesInvoice,
  SalesInvoiceLineInput, applied, draft, issued, paid, partially_paid, void,
}

draft_of_test : (st : InvoiceStatus) → status_eq st draft ≡ true → st ≡ draft
draft_of_test draft h = refl
draft_of_test issued h = absurd (ground arith)
draft_of_test partially_paid h = absurd (ground arith)
draft_of_test paid h = absurd (ground arith)
draft_of_test applied h = absurd (ground arith)
draft_of_test void h = absurd (ground arith)

issued_of_test : (st : InvoiceStatus) → status_eq st issued ≡ true → st ≡ issued
issued_of_test issued h = refl
issued_of_test draft h = absurd (ground arith)
issued_of_test partially_paid h = absurd (ground arith)
issued_of_test paid h = absurd (ground arith)
issued_of_test applied h = absurd (ground arith)
issued_of_test void h = absurd (ground arith)

unsettled :
    (st : InvoiceStatus) (total settled balance : ℤ)
    → (not (status_eq st draft) && not (status_eq st issued)) ≡ false
    → SettledAs st total settled balance
    → settled ≡ pos 0
unsettled draft total settled balance h v = v.0
unsettled issued total settled balance h v = v.0
unsettled partially_paid total settled balance h v = absurd (ground arith)
unsettled paid total settled balance h v = absurd (ground arith)
unsettled applied total settled balance h v = absurd (ground arith)
unsettled void total settled balance h v = absurd (ground arith)

module _ ⦃u : Unicode⦄ ⦃k : Calendar⦄ where
  infix 40 ◌⇒◌ ◌⇒*◌
  -- One call that returns.
  pub data ◌⇒◌ : SalesInvoice → SalesInvoice → Type 0 where
    reheaded :
        {s t : SalesInvoice} (p : InvoiceHeaderPatch) (now : ℕ)
        → update_header s p now ≡ ok t
        → s ⇒ t
    relined :
        {s t : SalesInvoice} (ls : List SalesInvoiceLineInput) (now : ℕ)
        → replace_lines s ls now ≡ ok t
        → s ⇒ t
    issues : {s t : SalesInvoice} (number : String) (now : ℕ) → issue s number now ≡ ok t → s ⇒ t
    settles :
        {s t : SalesInvoice} (amount : ℤ) (now : ℕ) → apply_settlement s amount now ≡ ok t → s ⇒ t
    unsettles :
        {s t : SalesInvoice} (amount : ℤ) (now : ℕ) → reverse_settlement s amount now ≡ ok t → s ⇒ t
    applies : {s t : SalesInvoice} (now : ℕ) → mark_applied s now ≡ ok t → s ⇒ t
    voids :
        {s t : SalesInvoice} (reason : String) (now : ℕ) → void_invoice s reason now ≡ ok t → s ⇒ t

  pub data ◌⇒*◌ : SalesInvoice → SalesInvoice → Type 0 where
    unchanged : {s : SalesInvoice} → s ⇒* s
    onward : {s t u : SalesInvoice} → s ⇒ t → t ⇒* u → s ⇒* u

  create_invoice-IsValid :
      (props : CreateInvoiceProps) {s : SalesInvoice} → create_invoice props ≡ ok s → IsValid s
  unfolding create_invoice
  create_invoice-IsValid props {s} h =
      let is_draft : s.status ≡ draft = ground arith in
      let nothing_yet : s.settled_minor ≡ pos 0 = ground arith in
      let full : s.balance_minor ≡ s.totals.total_minor = ground arith in
      rw is_draft (nothing_yet, full)

  ⇒-IsValid : {s t : SalesInvoice} → s ⇒ t → IsValid s → IsValid t
  unfolding update_header replace_lines issue mark_applied void_invoice assert_editable
  ⇒-IsValid {s} {t} (reheaded p now h) v =
      let status_is : t.status ≡ s.status = ground arith in
      let totals_are : t.totals ≡ s.totals = ground arith in
      let settled_is : t.settled_minor ≡ s.settled_minor = ground arith in
      let balance_is : t.balance_minor ≡ s.balance_minor = ground arith in
      rw (status_is, totals_are, settled_is, balance_is) v
  ⇒-IsValid {s} {t} (relined ls now h) v =
      let was : s.status ≡ draft = draft_of_test s.status (ground arith) in
      let (none_yet, _) = rw was at v in
      let status_is : t.status ≡ draft = ground (arith, was) in
      let settled_is : t.settled_minor ≡ pos 0 = ground (arith, none_yet) in
      let balance_is : t.balance_minor ≡ t.totals.total_minor -ℤ s.settled_minor = ground arith in
      rw status_is (settled_is, balance_is ∙ rw none_yet (omega int_laws))
  ⇒-IsValid {s} {t} (issues number now h) v =
      let was : s.status ≡ draft = draft_of_test s.status (ground arith) in
      let (none_yet, full) = rw was at v in
      let status_is : t.status ≡ issued = ground arith in
      let totals_are : t.totals ≡ s.totals = ground arith in
      let settled_is : t.settled_minor ≡ s.settled_minor = ground arith in
      let balance_is : t.balance_minor ≡ s.balance_minor = ground arith in
      rw (status_is, totals_are, settled_is, balance_is) (none_yet, full, ground arith)
  ⇒-IsValid {s} (settles amount now h) v = apply_settlement-IsValid s amount now v h
  ⇒-IsValid {s} (unsettles amount now h) v = reverse_settlement-IsValid s amount now v h
  ⇒-IsValid {s} {t} (applies now h) v =
      let was : s.status ≡ issued = issued_of_test s.status (ground arith) in
      let (none_yet, full, positive) = rw was at v in
      let status_is : t.status ≡ applied = ground arith in
      let totals_are : t.totals ≡ s.totals = ground arith in
      let settled_is : t.settled_minor ≡ s.totals.total_minor = ground arith in
      let balance_is : t.balance_minor ≡ pos 0 = ground arith in
      rw (status_is, totals_are, settled_is, balance_is) (refl, refl, positive)
  ⇒-IsValid {s} {t} (voids reason now h) v =
      let none_yet =
        unsettled s.status s.totals.total_minor s.settled_minor s.balance_minor (ground arith) v in
      let status_is : t.status ≡ void = ground arith in
      let settled_is : t.settled_minor ≡ s.settled_minor = ground arith in
      let balance_is : t.balance_minor ≡ pos 0 = ground arith in
      rw (status_is, settled_is, balance_is) (none_yet, refl)

  history-IsValid : {s t : SalesInvoice} → s ⇒* t → IsValid s → IsValid t
  history-IsValid unchanged v = v
  history-IsValid (onward a p) v = history-IsValid p (⇒-IsValid a v)

  -- Whatever calls follow the creation of an invoice, its status says what is settled and what is
  -- open: nothing is settled of a draft, an issued or a void one, a part strictly between nothing and
  -- the total of one that is partially paid, all of one that is paid or applied, and the balance is
  -- the rest, or nothing if the invoice is void.
  pub created_invoice-IsValid :
      (props : CreateInvoiceProps) {s t : SalesInvoice}
      → create_invoice props ≡ ok s
      → s ⇒* t
      → IsValid t
  created_invoice-IsValid props h p = history-IsValid p (create_invoice-IsValid props h)
