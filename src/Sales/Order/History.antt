-- ===== src/Sales/Order/History.antt =====
-- What sequences of calls on a sales order preserve.
use nestjs_api_template.Prelude.{Bool, List, [], arith, false, map, ok, refl, true, ◌∷◌, ◌≡◌}
use nestjs_api_template.Prelude.Int.{pos, ◌<ℤ◌}
use nestjs_api_template.Prelude.Lists.{All}
use nestjs_api_template.Prelude.Text.{Unicode}
use nestjs_api_template.Sales.Order.Created.{
  Given, create_order-Given, documents-with_delivered, replace_lines-Given,
}
use nestjs_api_template.Sales.Order.Invariant.{IsValid, line_with, record_delivery_iff}
use nestjs_api_template.Sales.Order.Lifecycle.{
  Moves, answered, apply_approval_outcome-Moves, cancel-Moves, cancels, create_order-IsValid,
  delivers, onward, reheaded, relined, reopen-Moves, reopens, submit-Moves, submits, unchanged,
  ⇒-IsValid, ◌⇒*◌, ◌⇒◌,
}
use nestjs_api_template.Sales.Order.Methods.{create_order, documents, update_header}
use nestjs_api_template.Sales.Order.State.{
  CreateSalesOrderProps, DeliveryPosting, SalesOrder, SalesOrderLine, SalesOrderStatus, cancelled,
  confirmed, delivered, partially_delivered,
}
use nestjs_api_template.Shared.Line.{DocumentLineInput, compute_document_totals}

-- The totals are those of the lines.
abbrev pub TotalsOfLines : ⦃u : Unicode⦄ → SalesOrder → Type 0
TotalsOfLines t = compute_document_totals (documents t.lines) t.currency ≡ ok t.totals

Given-TotalsOfLines :
    ⦃u : Unicode⦄ (inputs : List DocumentLineInput) {t : SalesOrder}
    → Given inputs t
    → TotalsOfLines t
Given-TotalsOfLines inputs g = rw (g.lines_are, documents-with_delivered g.built) g.totals_are

documents-line_with :
    (ps : List DeliveryPosting) (ls : List SalesOrderLine)
    → documents (map (line_with ps) ls) ≡ documents ls
documents-line_with ps [] = refl
documents-line_with ps (l ∷ ls) = rw (documents-line_with ps ls) refl

module _ ⦃u : Unicode⦄ where
  Moves-TotalsOfLines : {s t : SalesOrder} → Moves s t → TotalsOfLines s → TotalsOfLines t
  Moves-TotalsOfLines m h = rw (m.same_lines, m.same_currency, m.same_totals) h

  ⇒-TotalsOfLines : {s t : SalesOrder} → s ⇒ t → IsValid s → TotalsOfLines s → TotalsOfLines t
  unfolding update_header
  ⇒-TotalsOfLines {s} {t} (reheaded p now h) v w =
      let lines_are : t.lines ≡ s.lines = ground arith in
      let currency_is : t.currency ≡ s.currency = ground arith in
      let totals_are : t.totals ≡ s.totals = ground arith in
      rw (lines_are, currency_is, totals_are) w
  ⇒-TotalsOfLines {s} (relined ls now h) v w =
      Given-TotalsOfLines ls (replace_lines-Given s ls now h)
  ⇒-TotalsOfLines {s} (submits c a limit now h) v w =
      Moves-TotalsOfLines (submit-Moves s c a limit now h) w
  ⇒-TotalsOfLines {s} (answered a now h) v w =
      Moves-TotalsOfLines (apply_approval_outcome-Moves s a now h) w
  ⇒-TotalsOfLines {s} (reopens now h) v w = Moves-TotalsOfLines (reopen-Moves s now h) w
  ⇒-TotalsOfLines {s} (cancels reason now h) v w =
      Moves-TotalsOfLines (cancel-Moves s reason now h) w
  ⇒-TotalsOfLines {s} {t} (delivers ps now h) v w =
      let (_, _, _, _, end) = (record_delivery_iff s ps now v).0 h in
      rw (end, documents-line_with ps s.lines) w

  history-both :
      {s t : SalesOrder} → s ⇒* t → IsValid s → TotalsOfLines s → IsValid t × TotalsOfLines t
  history-both unchanged v w = (v, w)
  history-both (onward a p) v w = history-both p (⇒-IsValid a v) (⇒-TotalsOfLines a v w)

  -- Whatever calls follow the creation of a sales order: every line is delivered between nothing and
  -- its quantity, nothing is delivered before the order is confirmed or of one that is cancelled, the
  -- order is delivered exactly when every line is, and the totals are those of the lines.
  pub created_history-IsValid :
      (props : CreateSalesOrderProps) {s t : SalesOrder}
      → create_order props ≡ ok s
      → s ⇒* t
      → IsValid t × TotalsOfLines t
  created_history-IsValid props h p =
      let g = create_order-Given props h in
      history-both p (create_order-IsValid props h) (Given-TotalsOfLines props.lines g)

-- The statuses from which an order goes back to a draft no more.
abbrev pub is_settled : SalesOrderStatus → Bool
is_settled confirmed = true
is_settled partially_delivered = true
is_settled delivered = true
is_settled cancelled = true
is_settled _ = false

-- From the lines of one order to those of another: positive postings are added.
abbrev pub Grows : SalesOrder → SalesOrder → List DeliveryPosting → Type 0
Grows s t ps = All (λ p. pos 0 <ℤ p.quantity) ps × (t.lines ≡ map (line_with ps) s.lines)
