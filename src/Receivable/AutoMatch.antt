-- ===== src/Receivable/AutoMatch.antt =====
-- auto-match.ts: what is proposed to allocate of a receipt.
use nestjs_api_template.Prelude.{
  Bool, List, Option, String, [], false, if◌then◌else◌, none, not, some, ◌&&◌, ◌++◌, ◌||◌, ◌∷◌,
}
use nestjs_api_template.Prelude.Int.{eqb_ℤ, leb_ℤ, ltb_ℤ, pos, ℤ, ◌-ℤ◌}
use nestjs_api_template.Prelude.Lists.{any, filter}
use nestjs_api_template.Prelude.Text.{Unicode, includes, is_empty, or_empty, str_eq, text_lt}
use nestjs_api_template.Receivable.Receipt.{settlement_minor}

pub record OpenInvoiceRef : Type 0 where
  pub invoice_id : String
  pub number : Option String
  pub due_date : String
  pub balance_minor : ℤ

pub data MatchRule : Type 0 where
  by_reference : MatchRule
  by_exact_amount : MatchRule
  by_due_date : MatchRule

pub record ProposedAllocation : Type 0 where
  pub invoice_id : String
  pub amount_minor : ℤ
  pub rule : MatchRule

pub record MatchProposal : Type 0 where
  pub allocations : List ProposedAllocation
  pub unapplied_minor : ℤ

-- The variables of the function.
pub record MatchState : Type 0 where
  pub allocations : List ProposedAllocation
  pub used : List String
  pub remaining : ℤ

-- `amount`
abbrev pub smaller_of : ℤ → ℤ → ℤ
smaller_of balance remaining = if ltb_ℤ balance remaining then balance else remaining

-- An invoice with an amount of it.
abbrev pub taken : OpenInvoiceRef → MatchRule → ℤ → MatchState → MatchState
taken inv rule amount st = record {
  allocations =
      st.allocations
      ++ record { invoice_id = inv.invoice_id; amount_minor = amount; rule = rule } ∷ [];
  used = inv.invoice_id ∷ st.used;
  remaining = st.remaining -ℤ amount;
}

unfoldable pub take_from : OpenInvoiceRef → MatchRule → MatchState → MatchState
take_from inv rule st =
    if leb_ℤ st.remaining (pos 0)
      || any (str_eq inv.invoice_id) st.used
      || leb_ℤ inv.balance_minor (pos 0)
    then st
    else taken inv rule (smaller_of inv.balance_minor st.remaining) st

-- `inv.number && ref.includes(inv.number.toUpperCase())`
abbrev pub is_quoted : ⦃u : Unicode⦄ → String → Option String → Bool
is_quoted ref none = false
is_quoted ⦃u⦄ ref (some number) = not (is_empty number) && includes ref (u.to_upper_case number)

-- The first loop.
unfoldable pub match_reference :
    ⦃u : Unicode⦄ → String → List OpenInvoiceRef → MatchState → MatchState
match_reference ref [] st = st
match_reference ref (inv ∷ rest) st =
    match_reference ref rest
      (if is_quoted ref inv.number then take_from inv by_reference st else st)

-- An invoice if it is the only one.
unfoldable pub take_only : List OpenInvoiceRef → MatchState → MatchState
take_only [] st = st
take_only (inv ∷ []) st = take_from inv by_exact_amount st
take_only (inv ∷ next ∷ rest) st = st

abbrev pub is_exact : MatchState → OpenInvoiceRef → Bool
is_exact st i = not (any (str_eq i.invoice_id) st.used) && eqb_ℤ i.balance_minor st.remaining

unfoldable pub match_exact : List OpenInvoiceRef → MatchState → MatchState
match_exact open_refs st =
    if ltb_ℤ (pos 0) st.remaining then take_only (filter (is_exact st) open_refs) st else st

-- The stable sort by the due date.
unfoldable pub insert_due : OpenInvoiceRef → List OpenInvoiceRef → List OpenInvoiceRef
insert_due x [] = x ∷ []
insert_due x (y ∷ ys) =
    let later = insert_due x ys in if text_lt y.due_date x.due_date then y ∷ later else x ∷ y ∷ ys

unfoldable pub sort_due : List OpenInvoiceRef → List OpenInvoiceRef
sort_due [] = []
sort_due (x ∷ xs) = insert_due x (sort_due xs)

-- The last loop.
unfoldable pub match_due : List OpenInvoiceRef → MatchState → MatchState
match_due [] st = st
match_due (inv ∷ rest) st = match_due rest (take_from inv by_due_date st)

unfoldable pub propose_allocations :
    ⦃u : Unicode⦄ → ℤ → Option String → List OpenInvoiceRef → MatchProposal
propose_allocations ⦃u⦄ settlement_minor reference open_refs =
    let ref = u.to_upper_case (or_empty reference) in
    let start : MatchState = record { allocations = []; used = []; remaining = settlement_minor } in
    let quoted = if is_empty ref then start else match_reference ref open_refs start in
    let exact = match_exact open_refs quoted in
    let done =
      if ltb_ℤ (pos 0) exact.remaining then match_due (sort_due open_refs) exact else exact in
    record { allocations = done.allocations; unapplied_minor = done.remaining }
