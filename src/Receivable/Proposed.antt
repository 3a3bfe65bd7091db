-- ===== src/Receivable/Proposed.antt =====
-- Receipts whose allocations are those proposed (receipt.use-cases.ts).
use nestjs_api_template.Prelude.{List, Option, String, [], ap, map, ok, refl, ◌∷◌, ◌≡◌}
use nestjs_api_template.Prelude.Int.{int_laws, pos, ℤ, ◌+ℤ◌, ◌≤ℤ◌}
use nestjs_api_template.Prelude.Lists.{All, All-of_map, Pairs-map, sum_by}
use nestjs_api_template.Prelude.Text.{Unicode}
use nestjs_api_template.Receivable.AutoMatch.{
  OpenInvoiceRef, ProposedAllocation, propose_allocations,
}
use nestjs_api_template.Receivable.Proposal.{IsCovered, proposal-IsMatch, proposed}
use nestjs_api_template.Receivable.Receipt.{
  Allocation, validate_allocations, validate_allocations_of,
}

-- A proposed allocation with an id.
abbrev pub with_id : (ProposedAllocation → String) → ProposedAllocation → Allocation
with_id new_id a = record {
  id = new_id a;
  invoice_id = a.invoice_id;
  amount_minor = a.amount_minor;
}

sum_with_id :
    (new_id : ProposedAllocation → String) (ps : List ProposedAllocation)
    → sum_by (λ a. a.amount_minor) (map (with_id new_id) ps) ≡ proposed ps
sum_with_id new_id [] = refl
sum_with_id new_id (a ∷ ps) = ap (λ x. a.amount_minor +ℤ x) (sum_with_id new_id ps)

part_of : (a r s : ℤ) → a +ℤ r ≡ s → pos 0 ≤ℤ r → a ≤ℤ s
part_of a r s e h = rw (← e) (omega (int_laws, h))

-- What is proposed for a settlement that is not negative is accepted as the allocations of a receipt,
-- whatever their ids. What is proposed and what is left unapplied make up the settlement, and each
-- amount is within the balance of an invoice that has what all the open invoices have.
pub proposal_is_accepted :
    ⦃u : Unicode⦄ (P : OpenInvoiceRef → Type 0) (new_id : ProposedAllocation → String)
    (settlement : ℤ) (reference : Option String) (open_refs : List OpenInvoiceRef)
    → pos 0 ≤ℤ settlement
    → All P open_refs
    → (validate_allocations
          (map (with_id new_id) (propose_allocations settlement reference open_refs).allocations)
          settlement
        ≡ ok tt)
      × (proposed (propose_allocations settlement reference open_refs).allocations
            +ℤ (propose_allocations settlement reference open_refs).unapplied_minor
          ≡ settlement)
      × All (IsCovered P) (propose_allocations settlement reference open_refs).allocations
proposal_is_accepted P new_id settlement reference open_refs h p =
    let (st, m, allocations_are, left) = proposal-IsMatch P settlement reference open_refs h p in
    let within = part_of (proposed st.allocations) st.remaining settlement m.adds_up m.left_over in
    rw (allocations_are, left)
      (
        validate_allocations_of (map (with_id new_id) st.allocations) settlement
            (All-of_map _ (with_id new_id) st.allocations m.positive)
            (Pairs-map _ (with_id new_id) st.allocations m.distinct)
            (rw (sum_with_id new_id st.allocations) within),
        m.adds_up,
        m.covered,
      )
