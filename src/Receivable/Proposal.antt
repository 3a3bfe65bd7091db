-- ===== src/Receivable/Proposal.antt =====
-- What is proposed is a valid allocation of the receipt.
use nestjs_api_template.Prelude.{
  Bool, Bool-cases, List, Option, String, [], arith, false, if◌then◌else◌, inl, inr, refl, true,
  ◌||◌, ◌∙◌, ◌∷◌, ◌≡◌,
}
use nestjs_api_template.Prelude.Int.{
  int_laws, leb_ℤ, ltb_ℤ, pos, zero_add, ℤ, ◌+ℤ◌, ◌-ℤ◌, ◌<ℤ◌, ◌≤ℤ◌,
}
use nestjs_api_template.Prelude.Lists.{
  All, All-append, Pairs, Pairs-snoc, any, filter, sum_by, sum_by-append,
}
use nestjs_api_template.Prelude.Text.{Unicode, is_empty, or_empty, str_eq, text_lt}
use nestjs_api_template.Receivable.AutoMatch.{
  MatchRule, MatchState, OpenInvoiceRef, ProposedAllocation, by_due_date, by_exact_amount,
  by_reference, insert_due, is_exact, is_quoted, match_due, match_exact, match_reference,
  propose_allocations, smaller_of, sort_due, take_from, take_only, taken,
}

-- No invoice is proposed twice.
abbrev pub DistinctProposals : List ProposedAllocation → Type 0
DistinctProposals = Pairs (λ a b. str_eq b.invoice_id a.invoice_id ≡ false)

abbrev pub proposed : List ProposedAllocation → ℤ
proposed = sum_by (λ a. a.amount_minor)

moved_over : (a x r : ℤ) → a +ℤ (x +ℤ pos 0) +ℤ (r -ℤ x) ≡ a +ℤ r
moved_over a x r = omega int_laws

smaller_of_bounds :
    (balance remaining : ℤ)
    → pos 0 <ℤ balance
    → pos 0 <ℤ remaining
    → (pos 0 <ℤ smaller_of balance remaining)
      × (smaller_of balance remaining ≤ℤ balance)
      × (smaller_of balance remaining ≤ℤ remaining)
smaller_of_bounds balance remaining h k = elim (Bool-cases (ltb_ℤ balance remaining)) [
  | inl e ↦ rw e (h, omega arith, ground arith)
  | inr e ↦ rw e (k, ground arith, omega arith)
]

module _ (P : OpenInvoiceRef → Type 0) where
  -- An allocation within the balance of an open invoice.
  abbrev pub IsCovered : ProposedAllocation → Type 0
  IsCovered a =
      (inv : OpenInvoiceRef) × P inv
      × (inv.invoice_id ≡ a.invoice_id)
      × (a.amount_minor ≤ℤ inv.balance_minor)

  pub record IsMatch (settlement : ℤ) (st : MatchState) : Type 0 where
    pub left_over : pos 0 ≤ℤ st.remaining
    pub adds_up : proposed st.allocations +ℤ st.remaining ≡ settlement
    pub positive : All (λ a. pos 0 <ℤ a.amount_minor) st.allocations
    pub distinct : DistinctProposals st.allocations
    pub covered : All IsCovered st.allocations
    fresh :
        (k : String)
        → any (str_eq k) st.used ≡ false
        → All (λ a. str_eq k a.invoice_id ≡ false) st.allocations

  taken-IsMatch :
      (settlement : ℤ) (inv : OpenInvoiceRef) (rule : MatchRule) (amount : ℤ) (st : MatchState)
      → P inv
      → IsMatch settlement st
      → any (str_eq inv.invoice_id) st.used ≡ false
      → pos 0 <ℤ amount
      → amount ≤ℤ inv.balance_minor
      → amount ≤ℤ st.remaining
      → IsMatch settlement (taken inv rule amount st)
  taken-IsMatch settlement inv rule amount st p m unused above balance rest = record {
    left_over = omega (int_laws, rest);
    adds_up =
        rw
          (sum_by-append (λ a. a.amount_minor) st.allocations
            (record { invoice_id = inv.invoice_id; amount_minor = amount; rule = rule } ∷ []))
          (moved_over (proposed st.allocations) amount st.remaining ∙ m.adds_up);
    positive = All-append _ st.allocations _ m.positive (above, tt);
    distinct = Pairs-snoc _ st.allocations _ m.distinct (m.fresh inv.invoice_id unused);
    covered = All-append _ st.allocations _ m.covered ((inv, p, refl, balance), tt);
    fresh = λ k e.
        All-append _ st.allocations _ (m.fresh k (ground (arith, e))) (ground (arith, e), tt);
  }

  either :
      {settlement : ℤ} {s t : MatchState} (c : Bool)
      → IsMatch settlement s
      → IsMatch settlement t
      → IsMatch settlement (if c then s else t)
  either true h k = h
  either false h k = k

  take_from-IsMatch :
      (settlement : ℤ) (inv : OpenInvoiceRef) (rule : MatchRule) (st : MatchState)
      → P inv
      → IsMatch settlement st
      → IsMatch settlement (take_from inv rule st)
  unfolding take_from
  take_from-IsMatch settlement inv rule st p m =
      elim (Bool-cases (
        leb_ℤ st.remaining (pos 0)
        || any (str_eq inv.invoice_id) st.used
        || leb_ℤ inv.balance_minor (pos 0))) [
          | inl e ↦ rw e m
          | inr e ↦
              let (above, balance, rest) =
                smaller_of_bounds inv.balance_minor st.remaining (ground (arith, e))
                  (ground (arith, e)) in
              rw e
                (taken-IsMatch settlement inv rule _ st p m (ground (arith, e)) above balance rest)
        ]

  match_reference-IsMatch :
      ⦃u : Unicode⦄ (settlement : ℤ) (ref : String) (invs : List OpenInvoiceRef) (st : MatchState)
      → All P invs
      → IsMatch settlement st
      → IsMatch settlement (match_reference ref invs st)
  unfolding match_reference
  match_reference-IsMatch settlement ref [] st p m = m
  match_reference-IsMatch settlement ref (inv ∷ rest) st p m =
      elim (Bool-cases (is_quoted ref inv.number)) [
        | inl e ↦ rw e (
            match_reference-IsMatch settlement ref rest _ p.1
              (take_from-IsMatch settlement inv by_reference st p.0 m))
        | inr e ↦ rw e (match_reference-IsMatch settlement ref rest st p.1 m)
      ]

  match_due-IsMatch :
      (settlement : ℤ) (invs : List OpenInvoiceRef) (st : MatchState)
      → All P invs
      → IsMatch settlement st
      → IsMatch settlement (match_due invs st)
  unfolding match_due
  match_due-IsMatch settlement [] st p m = m
  match_due-IsMatch settlement (inv ∷ rest) st p m =
      match_due-IsMatch settlement rest _ p.1
        (take_from-IsMatch settlement inv by_due_date st p.0 m)

  take_only-IsMatch :
      (settlement : ℤ) (invs : List OpenInvoiceRef) (st : MatchState)
      → All P invs
      → IsMatch settlement st
      → IsMatch settlement (take_only invs st)
  unfolding take_only
  take_only-IsMatch settlement [] st p m = m
  take_only-IsMatch settlement (inv ∷ []) st p m =
      take_from-IsMatch settlement inv by_exact_amount st p.0 m
  take_only-IsMatch settlement (inv ∷ next ∷ rest) st p m = m

  insert_due-All :
      (x : OpenInvoiceRef) (invs : List OpenInvoiceRef)
      → P x
      → All P invs
      → All P (insert_due x invs)
  unfolding insert_due
  insert_due-All x [] p h = (p, tt)
  insert_due-All x (y ∷ ys) p h = elim (Bool-cases (text_lt y.due_date x.due_date)) [
    | inl e ↦ rw e (h.0, insert_due-All x ys p h.1)
    | inr e ↦ rw e (p, h)
  ]

  sort_due-All : (invs : List OpenInvoiceRef) → All P invs → All P (sort_due invs)
  unfolding sort_due
  sort_due-All [] h = tt
  sort_due-All (x ∷ xs) h = insert_due-All x (sort_due xs) h.0 (sort_due-All xs h.1)

  filter-All :
      (q : OpenInvoiceRef → Bool) (invs : List OpenInvoiceRef) → All P invs → All P (filter q invs)
  filter-All q [] h = tt
  filter-All q (x ∷ xs) h = elim (Bool-cases (q x)) [
    | inl e ↦ rw e (h.0, filter-All q xs h.1)
    | inr e ↦ rw e (filter-All q xs h.1)
  ]

  match_exact-IsMatch :
      (settlement : ℤ) (invs : List OpenInvoiceRef) (st : MatchState)
      → All P invs
      → IsMatch settlement st
      → IsMatch settlement (match_exact invs st)
  unfolding match_exact
  match_exact-IsMatch settlement invs st p m = elim (Bool-cases (ltb_ℤ (pos 0) st.remaining)) [
    | inl e ↦ rw e (
        take_only-IsMatch settlement (filter (is_exact st) invs) st
          (filter-All (is_exact st) invs p) m)
    | inr e ↦ rw e m
  ]

  -- The end of the proposal.
  pub proposal-IsMatch :
      ⦃u : Unicode⦄ (settlement : ℤ) (reference : Option String) (invs : List OpenInvoiceRef)
      → pos 0 ≤ℤ settlement
      → All P invs
      → (st : MatchState) × IsMatch settlement st
        × ((propose_allocations settlement reference invs).allocations ≡ st.allocations)
        × ((propose_allocations settlement reference invs).unapplied_minor ≡ st.remaining)
  unfolding propose_allocations
  proposal-IsMatch ⦃u⦄ settlement reference invs h p =
      let ref = u.to_upper_case (or_empty reference) in
      let start : MatchState = record { allocations = []; used = []; remaining = settlement } in
      let begun : IsMatch settlement start = record {
        left_over = h;
        adds_up = zero_add settlement;
        positive = tt;
        distinct = tt;
        covered = tt;
        fresh = λ k e. tt;
      } in
      let quoted = if is_empty ref then start else match_reference ref invs start in
      let quoted_is : IsMatch settlement quoted =
        either (is_empty ref) begun (match_reference-IsMatch settlement ref invs start p begun) in
      let exact = match_exact invs quoted in
      let exact_is = match_exact-IsMatch settlement invs quoted p quoted_is in
      (
        (if ltb_ℤ (pos 0) exact.remaining then match_due (sort_due invs) exact else exact),
        either (ltb_ℤ (pos 0) exact.remaining)
            (match_due-IsMatch settlement (sort_due invs) exact (sort_due-All invs p) exact_is)
            exact_is,
        refl,
        refl,
      )
