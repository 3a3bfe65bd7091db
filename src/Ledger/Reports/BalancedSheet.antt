-- ===== src/Ledger/Reports/BalancedSheet.antt =====
-- What the sections of the statements add up to, and when the balance sheet is balanced.
use nestjs_api_template.Prelude.Maps
use nestjs_api_template.Ledger.Reports.{
  AccountInfo, AccountSum, LedgerAccountType, asset, by_code, equity, expense, index, liability,
  natural_balance, revenue,
}
use nestjs_api_template.Ledger.Reports.AccountSums.{
  AreDistinct, Covers, credit_in, debit_in, if_postable, index_net, net_in, net_of_sum,
  posted_to_all,
}
use nestjs_api_template.Ledger.Reports.Balanced.{IsBalanced, eqb_same, net_balanced}
use nestjs_api_template.Ledger.Reports.Statements.{
  StatementSection, add_amount, add_sum, build_balance_sheet, section, section_loop, section_step,
  type_eq,
}
use nestjs_api_template.Prelude.{
  Bool, Bool-cases, List, Option, String, [], ap, arith, false, if◌then◌else◌, inl, inr, none, refl,
  some, true, ◌∙◌, ◌∷◌, ◌≡◌,
}
use nestjs_api_template.Prelude.Int.{
  +ℤ_assoc, eq_of_sub, eqb_ℤ, int_laws, pos, zero_add, ℤ, ◌+ℤ◌, ◌-ℤ◌,
}
use nestjs_api_template.Prelude.Lists.{All-every, sort_by, sum_by, sum_by-All, sum_by-sort_by}

-- What an account adds to the section of a type.
abbrev share : LedgerAccountType → List (String × AccountSum) → AccountInfo → ℤ
share type sums a = if_postable a (
    if type_eq a.type type
    then natural_balance type (debit_in (Maps.get a.id sums)) (credit_in (Maps.get a.id sums))
    else pos 0)

add_amount_total :
    (st : StatementSection) (a : AccountInfo) (v : ℤ)
    → (add_amount st a v).total_minor ≡ st.total_minor +ℤ v
unfolding add_amount
add_amount_total st a v = elim (Bool-cases (eqb_ℤ v (pos 0))) [
  | inl e ↦ let zero : v ≡ pos 0 = ground arith in rw zero (omega int_laws)
  | inr e ↦ rw e refl
]

natural_zero : (type : LedgerAccountType) → natural_balance type (pos 0) (pos 0) ≡ pos 0
unfolding natural_balance
natural_zero asset = omega int_laws
natural_zero liability = omega int_laws
natural_zero equity = omega int_laws
natural_zero revenue = omega int_laws
natural_zero expense = omega int_laws

add_sum_total :
    (type : LedgerAccountType) (st : StatementSection) (a : AccountInfo) (o : Option AccountSum)
    → (add_sum type st a o).total_minor
      ≡ st.total_minor +ℤ natural_balance type (debit_in o) (credit_in o)
unfolding add_sum
add_sum_total type st a none = rw (natural_zero type) (omega int_laws)
add_sum_total type st a (some s) = add_amount_total st a _

section_step_total :
    (type : LedgerAccountType) (sums : List (String × AccountSum)) (st : StatementSection)
    (a : AccountInfo)
    → (section_step type sums st a).total_minor ≡ st.total_minor +ℤ share type sums a
unfolding section_step
section_step_total type sums st a = elim (Bool-cases a.is_postable) [
  | inr e ↦ elim (Bool-cases (type_eq a.type type)) [
    | inl t ↦ rw (e, t) (omega int_laws)
    | inr t ↦ rw (e, t) (omega int_laws)
  ]
  | inl e ↦ elim (Bool-cases (type_eq a.type type)) [
    | inl t ↦ rw (e, t) (add_sum_total type st a (Maps.get a.id sums))
    | inr t ↦ rw (e, t) (omega int_laws)
  ]
]

section_loop_total :
    (type : LedgerAccountType) (sums : List (String × AccountSum)) (st : StatementSection)
    (accounts : List AccountInfo)
    → (section_loop type sums st accounts).total_minor
      ≡ st.total_minor +ℤ sum_by (share type sums) accounts
unfolding section_loop
section_loop_total type sums st [] = omega int_laws
section_loop_total type sums st (a ∷ rest) =
    section_loop_total type sums (section_step type sums st a) rest
    ∙ rw (section_step_total type sums st a) (+ℤ_assoc _ _ _)

section_total :
    (accounts : List AccountInfo) (sums : List (String × AccountSum)) (type : LedgerAccountType)
    → (section accounts sums type).total_minor ≡ sum_by (share type sums) accounts
unfolding section
section_total accounts sums type =
    section_loop_total type sums _ (sort_by by_code accounts)
    ∙ zero_add _
    ∙ sum_by-sort_by by_code (share type sums) accounts

-- The five types tile what is posted to an account, debits counted above zero.
shares :
    (b : Bool) (type : LedgerAccountType) (d c : ℤ)
    → let part = λ (t : LedgerAccountType).
      if b then (if type_eq type t then natural_balance t d c else pos 0) else pos 0 in
      part asset -ℤ (part liability +ℤ part equity +ℤ (part revenue -ℤ part expense))
      ≡ (if b then d -ℤ c else pos 0)
unfolding natural_balance
shares false type d c = omega int_laws
shares true asset d c = omega int_laws
shares true liability d c = omega int_laws
shares true equity d c = omega int_laws
shares true revenue d c = omega int_laws
shares true expense d c = omega int_laws

tile :
    (a l e r x a' l' e' r' x' : ℤ)
    → a +ℤ a' -ℤ (l +ℤ l' +ℤ (e +ℤ e') +ℤ (r +ℤ r' -ℤ (x +ℤ x')))
      ≡ a -ℤ (l +ℤ e +ℤ (r -ℤ x)) +ℤ (a' -ℤ (l' +ℤ e' +ℤ (r' -ℤ x')))
tile a l e r x a' l' e' r' x' = omega int_laws

sum_shares :
    (accounts : List AccountInfo) (sums : List (String × AccountSum))
    → sum_by (share asset sums) accounts
        -ℤ (sum_by (share liability sums) accounts
            +ℤ sum_by (share equity sums) accounts
            +ℤ (sum_by (share revenue sums) accounts -ℤ sum_by (share expense sums) accounts))
      ≡ sum_by (λ a. if_postable a (net_in (Maps.get a.id sums))) accounts
sum_shares [] sums = omega int_laws
sum_shares (a ∷ rest) sums =
    tile _ _ _ _ _ _ _ _ _ _
    ∙ rw
        (shares a.is_postable a.type (debit_in (Maps.get a.id sums))
          (credit_in (Maps.get a.id sums)))
        (rw (sum_shares rest sums) refl)

-- Where the accounts have distinct ids, every sum belongs to one of them that can be posted to, and
-- there are as many debits as credits, the balance sheet is balanced: the assets are the
-- liabilities, the equity and what the year has earned so far.
pub balance_sheet-IsBalanced :
    (as_of : String) (accounts : List AccountInfo) (cumulative : List AccountSum)
    → AreDistinct accounts
    → Covers accounts cumulative
    → IsBalanced cumulative
    → let b = build_balance_sheet as_of accounts cumulative in
      (b.total_assets_minor ≡ b.total_liabilities_and_equity_minor) × (b.balanced ≡ true)
unfolding build_balance_sheet
balance_sheet-IsBalanced as_of accounts cumulative distinct covered balance =
    let sums = index cumulative in
    let net_zero : sum_by (λ a. if_postable a (net_in (Maps.get a.id sums))) accounts ≡ pos 0 =
      sum_by-All _ _ accounts
        (All-every (λ a. ap (if_postable a) (index_net a.id cumulative)) accounts)
      ∙ posted_to_all net_of_sum accounts cumulative distinct covered
      ∙ net_balanced cumulative balance in
    let equal = eq_of_sub (
      rw
        (
          section_total accounts sums asset,
          section_total accounts sums liability,
          section_total accounts sums equity,
          section_total accounts sums revenue,
          section_total accounts sums expense,
        )
        (sum_shares accounts sums ∙ net_zero)) in
    (equal, rw (eqb_same equal) refl)
