-- ===== src/Ledger/Reports/Balanced.antt =====
-- What the loop of the trial balance adds up, and when the trial balance is balanced.
use nestjs_api_template.Prelude.Maps
use nestjs_api_template.Ledger.Reports.{AccountInfo, AccountSum, by_code, index, zero_sum}
use nestjs_api_template.Ledger.Reports.AccountSums.{
  AreDistinct, Covers, credit_in, debit_in, if_postable, index_net, index_sides, net_in, net_of_sum,
  posted_to, posted_to_all,
}
use nestjs_api_template.Ledger.Reports.Trial.{
  TrialBalanceRow, TrialLoop, add_row, build_trial_balance, is_idle, trial_loop, trial_row,
  trial_step,
}
use nestjs_api_template.Prelude.{
  Bool, Bool-cases, List, String, [], ap, arith, false, if◌then◌else◌, inl, inr, or_else, refl, sym,
  true, ◌∙◌, ◌∷◌, ◌≡◌,
}
use nestjs_api_template.Prelude.Int.{
  +ℤ_assoc, eq_of_sub, eqb_ℤ, int_laws, ltb_ℤ, pos, same_sub, zero_add, ℤ, ◌+ℤ◌, ◌-ℤ◌,
}
use nestjs_api_template.Prelude.Lists.{
  All-every, sort_by, sum_by, sum_by-All, sum_by-add, sum_by-sort_by, sum_by-sub,
}

abbrev row_of :
    List (String × AccountSum) → List (String × AccountSum) → AccountInfo → TrialBalanceRow
row_of open_sums mov a =
    trial_row a (or_else (Maps.get a.id open_sums) zero_sum) (or_else (Maps.get a.id mov) zero_sum)

-- What a row adds to the sums of the loop.
record Adds (st next : TrialLoop) (debit credit closing : ℤ) : Type 0 where
  debits_add : next.total_debit ≡ st.total_debit +ℤ debit
  credits_add : next.total_credit ≡ st.total_credit +ℤ credit
  closings_add : next.closing_dr -ℤ next.closing_cr ≡ st.closing_dr -ℤ st.closing_cr +ℤ closing

add_row-Adds :
    (st : TrialLoop) (r : TrialBalanceRow)
    → Adds st (add_row st r) r.debit_minor r.credit_minor r.closing_minor
unfolding add_row
add_row-Adds st r = elim (Bool-cases (ltb_ℤ (pos 0) r.closing_minor)) [
  | inl e ↦ record { debits_add = refl; credits_add = refl; closings_add = rw e (omega int_laws) }
  | inr e ↦ record { debits_add = refl; credits_add = refl; closings_add = rw e (omega int_laws) }
]

Adds-nothing : (st : TrialLoop) → Adds st st (pos 0) (pos 0) (pos 0)
Adds-nothing st = record {
  debits_add = omega int_laws;
  credits_add = omega int_laws;
  closings_add = omega int_laws;
}

Adds-idle :
    (st : TrialLoop) (r : TrialBalanceRow)
    → is_idle r ≡ true
    → Adds st st r.debit_minor r.credit_minor r.closing_minor
Adds-idle st r e =
    let d : r.debit_minor ≡ pos 0 = ground arith in
    let c : r.credit_minor ≡ pos 0 = ground arith in
    let n : r.closing_minor ≡ pos 0 = ground arith in rw (d, c, n) (Adds-nothing st)

trial_step-Adds :
    (o m : List (String × AccountSum)) (st : TrialLoop) (a : AccountInfo)
    → Adds st
        (trial_step o m st a)
        (if_postable a (row_of o m a).debit_minor)
        (if_postable a (row_of o m a).credit_minor)
        (if_postable a (row_of o m a).closing_minor)
unfolding trial_step
trial_step-Adds o m st a = elim (Bool-cases a.is_postable) [
  | inr e ↦ rw e (Adds-nothing st)
  | inl e ↦ elim (Bool-cases (is_idle (row_of o m a))) [
    | inl i ↦ rw (e, i) (Adds-idle st (row_of o m a) i)
    | inr i ↦ rw (e, i) (add_row-Adds st (row_of o m a))
  ]
]

trial_loop-Adds :
    (o m : List (String × AccountSum)) (st : TrialLoop) (accounts : List AccountInfo)
    → Adds st
        (trial_loop o m st accounts)
        (sum_by (λ a. if_postable a (row_of o m a).debit_minor) accounts)
        (sum_by (λ a. if_postable a (row_of o m a).credit_minor) accounts)
        (sum_by (λ a. if_postable a (row_of o m a).closing_minor) accounts)
unfolding trial_loop
trial_loop-Adds o m st [] = Adds-nothing st
trial_loop-Adds o m st (a ∷ rest) =
    let one = trial_step-Adds o m st a in
    let all_rest = trial_loop-Adds o m (trial_step o m st a) rest in
    record {
      debits_add = all_rest.debits_add ∙ rw one.debits_add (+ℤ_assoc _ _ _);
      credits_add = all_rest.credits_add ∙ rw one.credits_add (+ℤ_assoc _ _ _);
      closings_add = all_rest.closings_add ∙ rw one.closings_add (+ℤ_assoc _ _ _);
    }

-- The amounts of the rows, summed over the accounts, are those posted.
module _ (accounts : List AccountInfo) (opening period : List AccountSum)
    (distinct : AreDistinct accounts) (moved : Covers accounts period) where
  row_debits :
      sum_by (λ a. if_postable a (row_of (index opening) (index period) a).debit_minor) accounts
      ≡ sum_by (λ s. s.debit_minor) period
  unfolding trial_row
  row_debits =
      sum_by-All _ _ accounts
        (All-every (λ a. ap (if_postable a) (index_sides a.id period).0) accounts)
      ∙ posted_to_all (λ s. s.debit_minor) accounts period distinct moved

  row_credits :
      sum_by (λ a. if_postable a (row_of (index opening) (index period) a).credit_minor) accounts
      ≡ sum_by (λ s. s.credit_minor) period
  unfolding trial_row
  row_credits =
      sum_by-All _ _ accounts
        (All-every (λ a. ap (if_postable a) (index_sides a.id period).1) accounts)
      ∙ posted_to_all (λ s. s.credit_minor) accounts period distinct moved

closing_amount :
    (b : Bool) (x d c : ℤ)
    → (if b then x +ℤ d -ℤ c else pos 0) ≡ (if b then x else pos 0) +ℤ (if b then d -ℤ c else pos 0)
closing_amount true x d c = omega int_laws
closing_amount false x d c = omega int_laws

row_closing :
    (opening period : List AccountSum) (a : AccountInfo)
    → if_postable a (row_of (index opening) (index period) a).closing_minor
      ≡ if_postable a (posted_to net_of_sum a.id opening)
        +ℤ if_postable a (posted_to net_of_sum a.id period)
unfolding trial_row
row_closing opening period a =
    closing_amount a.is_postable (net_in (Maps.get a.id (index opening)))
      (debit_in (Maps.get a.id (index period))) (credit_in (Maps.get a.id (index period)))
    ∙ rw (index_net a.id opening, index_net a.id period) refl

row_closings :
    (accounts : List AccountInfo) (opening period : List AccountSum)
    → AreDistinct accounts
    → Covers accounts opening
    → Covers accounts period
    → sum_by (λ a. if_postable a (row_of (index opening) (index period) a).closing_minor) accounts
      ≡ sum_by net_of_sum opening +ℤ sum_by net_of_sum period
row_closings accounts opening period distinct opened moved =
    sum_by-All _ _ accounts (All-every (row_closing opening period) accounts)
    ∙ sum_by-add _ _ accounts
    ∙ rw
        (
          posted_to_all net_of_sum accounts opening distinct opened,
          posted_to_all net_of_sum accounts period distinct moved,
        )
        refl

-- What a balanced ledger shows: as many debits as credits.
abbrev pub IsBalanced : List AccountSum → Type 0
IsBalanced sums = sum_by (λ s. s.debit_minor) sums ≡ sum_by (λ s. s.credit_minor) sums

pub net_balanced : (sums : List AccountSum) → IsBalanced sums → sum_by net_of_sum sums ≡ pos 0
net_balanced sums b = sum_by-sub (λ s. s.debit_minor) (λ s. s.credit_minor) sums ∙ same_sub b

pub eqb_same : {a b : ℤ} → a ≡ b → eqb_ℤ a b ≡ true
eqb_same {a} {b} e = rw e (ground arith)

-- Where the accounts have distinct ids, every sum belongs to one of them that can be posted to, and
-- the sums before and in the period each have as many debits as credits, the trial balance is
-- balanced: its total debits are those of the period and equal its total credits, and its closing
-- debits equal its closing credits.
pub trial_balance-IsBalanced :
    (from_date to_date : String) (accounts : List AccountInfo) (opening period : List AccountSum)
    → AreDistinct accounts
    → Covers accounts opening
    → Covers accounts period
    → IsBalanced opening
    → IsBalanced period
    → let t = build_trial_balance from_date to_date accounts opening period in
      (t.total_debit_minor ≡ sum_by (λ s. s.debit_minor) period)
      × (t.total_credit_minor ≡ t.total_debit_minor)
      × (t.total_closing_debit_minor ≡ t.total_closing_credit_minor)
      × (t.balanced ≡ true)
unfolding build_trial_balance
trial_balance-IsBalanced from_date to_date accounts opening period distinct opened moved ob pb =
    let sorted = sort_by by_code accounts in
    let sums = trial_loop-Adds (index opening) (index period) _ sorted in
    let debits =
      sums.debits_add
      ∙ zero_add _
      ∙ sum_by-sort_by by_code _ accounts
      ∙ row_debits accounts opening period distinct moved in
    let credits =
      sums.credits_add
      ∙ zero_add _
      ∙ sum_by-sort_by by_code _ accounts
      ∙ row_credits accounts opening period distinct moved in
    let same_sides = debits ∙ pb ∙ sym credits in
    let closing = eq_of_sub (
      sums.closings_add
      ∙ rw
          (
            sum_by-sort_by by_code
                (λ a. if_postable a (row_of (index opening) (index period) a).closing_minor)
                accounts,
            row_closings accounts opening period distinct opened moved,
            net_balanced opening ob,
            net_balanced period pb,
          )
          (omega int_laws)) in
    (debits, sym same_sides, closing, rw (eqb_same same_sides, eqb_same closing) refl)
