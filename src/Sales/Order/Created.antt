-- ===== src/Sales/Order/Created.antt =====
-- The lines that an order is given: they are valid, nothing is delivered, and the totals are theirs.
use nestjs_api_template.Shared.Money
use nestjs_api_template.Prelude.Maps
use nestjs_api_template.Prelude.{
  List, Result-cases, String, [], arith, false, inl, inr, map, ok, refl, true, ℕ, ◌+◌, ◌∙◌, ◌∷◌,
  ◌≡◌,
}
use nestjs_api_template.Prelude.Int.{pos, ◌<ℤ◌}
use nestjs_api_template.Prelude.Lists.{All, Pairs, Pairs-map, Pairs-unmap}
use nestjs_api_template.Prelude.Text.{Unicode, str_eq}
use nestjs_api_template.Sales.Order.Invariant.{IsValid, Within}
use nestjs_api_template.Sales.Order.Methods.{
  assert_editable, create_order, documents, has_deliveries, normalise_notes, replace_lines,
  validate_header, with_delivered,
}
use nestjs_api_template.Sales.Order.Posted.{DistinctIds}
use nestjs_api_template.Sales.Order.State.{
  CreateSalesOrderProps, SalesOrder, SalesOrderStatus, cancelled, confirmed, delivered, draft,
  partially_delivered, pending_approval, rejected, status_eq,
}
use nestjs_api_template.Shared.Built.{AreFresh-Pairs, Zip-All, Zip-map, build_document_lines-Zip}
use nestjs_api_template.Shared.Line.{
  DocumentLineInput, DocumentLineSnapshot, build_document_lines, compute_document_totals,
}
use nestjs_api_template.Shared.LineAmounts.{Amounts}
use nestjs_api_template.Shared.Money.{Money}

with_delivered-none :
    (built : List DocumentLineSnapshot)
    → All (λ s. pos 0 <ℤ s.quantity) built
    → All Within (with_delivered [] built) × (has_deliveries (with_delivered [] built) ≡ false)
unfolding with_delivered Maps.get
with_delivered-none [] h = (tt, refl)
with_delivered-none (s ∷ ss) h =
    let (within, undelivered) = with_delivered-none ss h.1 in
    (((h.0, omega arith, omega (arith, h.0)), within), undelivered)

with_delivered_ids :
    (built : List DocumentLineSnapshot)
    → map (λ l. l.id) (with_delivered [] built) ≡ map (λ s. s.id) built
unfolding with_delivered
with_delivered_ids [] = refl
with_delivered_ids (s ∷ ss) = rw (with_delivered_ids ss) refl

pub documents-with_delivered :
    (built : List DocumentLineSnapshot) → documents (with_delivered [] built) ≡ built
unfolding with_delivered
documents-with_delivered [] = refl
documents-with_delivered (s ∷ ss) = rw (documents-with_delivered ss) refl

-- The lines that are built for an order.
pub built_lines :
    ⦃u : Unicode⦄ (inputs : List DocumentLineInput) (currency : String)
    {built : List DocumentLineSnapshot}
    → build_document_lines inputs currency ≡ ok built
    → DistinctIds (with_delivered [] built)
      × All Within (with_delivered [] built)
      × (has_deliveries (with_delivered [] built) ≡ false)
built_lines inputs currency {built} h =
    let (_, fresh, zipped) = build_document_lines-Zip inputs currency h in
    let R = λ (l : DocumentLineInput) (i : ℕ) (s : DocumentLineSnapshot). Amounts l (i + 1) s in
    let ids : map (λ l. l.id) (with_delivered [] built) ≡ map (λ l. l.id) inputs =
      with_delivered_ids built
      ∙ Zip-map R (λ l. l.id) (λ s. s.id) (λ x i y a. a.id_is) 0 inputs built zipped in
    let positive =
      Zip-All R (λ s. pos 0 <ℤ s.quantity) (λ x i y a. a.quantity_positive) 0 inputs built zipped in
    let (within, undelivered) = with_delivered-none built positive in
    let far : String → String → Type 0 = λ a b. str_eq b a ≡ false in
    let apart : Pairs far (map (λ l. l.id) (with_delivered [] built)) =
      rw ids (Pairs-map far (λ l. l.id) inputs (AreFresh-Pairs [] inputs fresh)) in
    (Pairs-unmap far (λ l. l.id) (with_delivered [] built) apart, within, undelivered)

draft_of_test : (st : SalesOrderStatus) → status_eq st draft ≡ true → st ≡ draft
draft_of_test draft h = refl
draft_of_test pending_approval h = absurd (ground arith)
draft_of_test confirmed h = absurd (ground arith)
draft_of_test partially_delivered h = absurd (ground arith)
draft_of_test delivered h = absurd (ground arith)
draft_of_test rejected h = absurd (ground arith)
draft_of_test cancelled h = absurd (ground arith)

-- A draft whose lines were built from inputs.
pub record Given ⦃u : Unicode⦄ (inputs : List DocumentLineInput) (t : SalesOrder) : Type 0 where
  pub built : List DocumentLineSnapshot
  pub built_is : build_document_lines inputs t.currency ≡ ok built
  pub lines_are : t.lines ≡ with_delivered [] built
  pub totals_are : compute_document_totals built t.currency ≡ ok t.totals
  pub is_draft : t.status ≡ draft

pub Given-IsValid :
    ⦃u : Unicode⦄ (inputs : List DocumentLineInput) {t : SalesOrder} → Given inputs t → IsValid t
Given-IsValid inputs {t} g =
    let (distinct, within, undelivered) = built_lines inputs t.currency g.built_is in
    record {
      distinct = rw g.lines_are distinct;
      within = rw g.lines_are within;
      progress = rw (g.is_draft, g.lines_are) undelivered;
    }

pub create_order-Given :
    ⦃u : Unicode⦄ (props : CreateSalesOrderProps) {t : SalesOrder}
    → create_order props ≡ ok t
    → Given props.lines t
unfolding create_order
create_order-Given props {t} h = elim (Result-cases (Money.zero_of props.currency)) [
  | inr (e, bad) ↦ absurd (ground arith)
  | inl (z, nothing) ↦
      elim (Result-cases (
        validate_header props.order_date props.requested_delivery_date props.payment_terms_days
          (normalise_notes props.notes))) [
            | inr (e, bad) ↦ absurd (ground arith)
            | inl (_, checked) ↦ elim (Result-cases (build_document_lines props.lines z.currency)) [
              | inr (e, bad) ↦ absurd (ground arith)
              | inl (built, fine) ↦
                  elim (Result-cases
                    (compute_document_totals (documents (with_delivered [] built)) z.currency)) [
                      | inr (e, bad) ↦ absurd (ground arith)
                      | inl (totals, sums) ↦
                          let same : t.currency ≡ z.currency = ground arith in
                          let have_totals : t.totals ≡ totals = ground arith in
                          record {
                            built = built;
                            built_is = rw same fine;
                            lines_are = ground arith;
                            totals_are =
                                rw (same, have_totals)
                                  (rw (documents-with_delivered built) at sums);
                            is_draft = ground arith;
                          }
                    ]
            ]
          ]
]

pub replace_lines-Given :
    ⦃u : Unicode⦄ (s : SalesOrder) (inputs : List DocumentLineInput) (now : ℕ) {t : SalesOrder}
    → replace_lines s inputs now ≡ ok t
    → Given inputs t
unfolding replace_lines assert_editable
replace_lines-Given s inputs now {t} h =
    elim (Result-cases (build_document_lines inputs s.currency)) [
      | inr (e, bad) ↦ absurd (ground arith)
      | inl (built, fine) ↦
          elim (Result-cases
            (compute_document_totals (documents (with_delivered [] built)) s.currency)) [
              | inr (e, bad) ↦ absurd (ground arith)
              | inl (totals, sums) ↦
                  let same : t.currency ≡ s.currency = ground arith in
                  let have_totals : t.totals ≡ totals = ground arith in
                  record {
                    built = built;
                    built_is = rw same fine;
                    lines_are = ground arith;
                    totals_are =
                        rw (same, have_totals) (rw (documents-with_delivered built) at sums);
                    is_draft = ground (arith, draft_of_test s.status);
                  }
            ]
    ]
