-- ===== src/Ledger/Reports/AccountSums.antt =====
-- The sums of what was posted to each account, and the map of `index`.
use nestjs_api_template.Prelude.Maps
use nestjs_api_template.Ledger.Reports.{
  AccountInfo, AccountSum, index, index_from, summed_with, zero_sum,
}
use nestjs_api_template.Prelude.{
  Bool, Bool-cases, List, Option, String, [], arith, false, if◌then◌else◌, inl, inr, none, or_else,
  refl, some, sym, true, ◌∙◌, ◌∷◌, ◌≡◌,
}
use nestjs_api_template.Prelude.Int.{int_laws, pos, zero_add, ℤ, ◌+ℤ◌, ◌-ℤ◌}
use nestjs_api_template.Prelude.Lists.{
  All, All-every, All-imp, Pairs, find, sum_by, sum_by-All, sum_by-add, sum_by-sub, sum_by-zero,
}
use nestjs_api_template.Prelude.Text.{eq_iff, str_eq, str_eq_sym}

-- What was posted to an account, of either side.
abbrev pub posted_to : (AccountSum → ℤ) → String → List AccountSum → ℤ
posted_to f k = sum_by (λ s. if str_eq s.account_id k then f s else pos 0)

abbrev pub net_of_sum : AccountSum → ℤ
net_of_sum s = s.debit_minor -ℤ s.credit_minor

-- The sides of an account in the map.
abbrev pub debit_in : Option AccountSum → ℤ
debit_in o = (or_else o zero_sum).debit_minor

abbrev pub credit_in : Option AccountSum → ℤ
credit_in o = (or_else o zero_sum).credit_minor

debit_summed :
    (o : Option AccountSum) (s : AccountSum)
    → debit_in (some (summed_with o s)) ≡ debit_in o +ℤ s.debit_minor
unfolding summed_with
debit_summed none s = omega int_laws
debit_summed (some p) s = refl

credit_summed :
    (o : Option AccountSum) (s : AccountSum)
    → credit_in (some (summed_with o s)) ≡ credit_in o +ℤ s.credit_minor
unfolding summed_with
credit_summed none s = omega int_laws
credit_summed (some p) s = refl

get_step :
    (k : String) (m : List (String × AccountSum)) (s : AccountSum)
    → Maps.get k (Maps.put s.account_id (summed_with (Maps.get s.account_id m) s) m)
      ≡ (if str_eq s.account_id k then some (summed_with (Maps.get k m) s) else Maps.get k m)
get_step k m s = elim (Bool-cases (str_eq s.account_id k)) [
  | inl e ↦ Maps.get-put s.account_id k _ m ∙ rw (e, (eq_iff s.account_id k).0 e) refl
  | inr e ↦ Maps.get-put s.account_id k _ m ∙ rw e refl
]

index_from_sides :
    (k : String) (m : List (String × AccountSum)) (sums : List AccountSum)
    → (debit_in (Maps.get k (index_from m sums))
        ≡ debit_in (Maps.get k m) +ℤ posted_to (λ s. s.debit_minor) k sums)
      × (credit_in (Maps.get k (index_from m sums))
          ≡ credit_in (Maps.get k m) +ℤ posted_to (λ s. s.credit_minor) k sums)
unfolding index_from
index_from_sides k m [] = (omega int_laws, omega int_laws)
index_from_sides k m (s ∷ rest) =
    let next = Maps.put s.account_id (summed_with (Maps.get s.account_id m) s) m in
    let (d, c) = index_from_sides k next rest in
    elim (Bool-cases (str_eq s.account_id k)) [
      | inl e ↦
          let now : Maps.get k next ≡ some (summed_with (Maps.get k m) s) =
            get_step k m s ∙ rw e refl in
          (
            d ∙ rw (now, e, debit_summed (Maps.get k m) s) (omega int_laws),
            c ∙ rw (now, e, credit_summed (Maps.get k m) s) (omega int_laws),
          )
      | inr e ↦
          let now : Maps.get k next ≡ Maps.get k m = get_step k m s ∙ rw e refl in
          (d ∙ rw (now, e) (omega int_laws), c ∙ rw (now, e) (omega int_laws))
    ]

sub_amount :
    (b : Bool) (x y : ℤ)
    → (if b then x else pos 0) -ℤ (if b then y else pos 0) ≡ (if b then x -ℤ y else pos 0)
sub_amount true x y = refl
sub_amount false x y = omega int_laws

-- The map in which the reports look accounts up implements the sums by account: for every account
-- it holds the sum of all debits and of all credits posted to it, and zero for an account without
-- any.
pub index_sides :
    (k : String) (sums : List AccountSum)
    → (debit_in (Maps.get k (index sums)) ≡ posted_to (λ s. s.debit_minor) k sums)
      × (credit_in (Maps.get k (index sums)) ≡ posted_to (λ s. s.credit_minor) k sums)
unfolding index Maps.get
index_sides k sums =
    let (d, c) = index_from_sides k [] sums in
    (
      d ∙ zero_add (posted_to (λ s. s.debit_minor) k sums),
      c ∙ zero_add (posted_to (λ s. s.credit_minor) k sums),
    )

abbrev pub net_in : Option AccountSum → ℤ
net_in o = debit_in o -ℤ credit_in o

pub index_net :
    (k : String) (sums : List AccountSum)
    → net_in (Maps.get k (index sums)) ≡ posted_to net_of_sum k sums
index_net k sums =
    let (d, c) = index_sides k sums in
    rw (d, c)
      (sym (sum_by-sub _ _ sums)
        ∙ sum_by-All _ _ sums (All-every (λ s. sub_amount (str_eq s.account_id k) _ _) sums))

-- What a report reads is posted to accounts of the list that can be posted to, each of them once.
abbrev pub Covers : List AccountInfo → List AccountSum → Type 0
Covers accounts sums =
    All
      (λ s.
        (a : AccountInfo) × (find (λ b. str_eq b.id s.account_id) accounts ≡ some a)
        × (a.is_postable ≡ true))
      sums

abbrev pub AreDistinct : List AccountInfo → Type 0
AreDistinct = Pairs (λ a b. str_eq a.id b.id ≡ false)

-- An amount, if the account can be posted to.
abbrev pub if_postable : AccountInfo → ℤ → ℤ
if_postable a v = if a.is_postable then v else pos 0

none_amount : (b : Bool) → (if b then pos 0 else pos 0) ≡ pos 0
none_amount true = refl
none_amount false = refl

split_amount :
    (b : Bool) (x y : ℤ)
    → (if b then x +ℤ y else pos 0) ≡ (if b then x else pos 0) +ℤ (if b then y else pos 0)
split_amount true x y = refl
split_amount false x y = omega int_laws

none_of :
    (x : ℤ) (k : String) (list : List AccountInfo)
    → All (λ b. str_eq b.id k ≡ false) list
    → sum_by (λ a. if_postable a (if str_eq k a.id then x else pos 0)) list ≡ pos 0
none_of x k list h =
    sum_by-zero _ list
      (All-imp (λ b e. rw (str_eq_sym k b.id, e) (none_amount b.is_postable)) list h)

once :
    (x : ℤ) (k : String) (list : List AccountInfo) {a : AccountInfo}
    → AreDistinct list
    → find (λ b. str_eq b.id k) list ≡ some a
    → a.is_postable ≡ true
    → sum_by (λ b. if_postable b (if str_eq k b.id then x else pos 0)) list ≡ x
once x k [] d f p = absurd (ground arith)
once x k (b ∷ bs) {a} d f p = elim (Bool-cases (str_eq b.id k)) [
  | inl e ↦
      let same : b ≡ a = ground arith in
      let key : b.id ≡ k = (eq_iff b.id k).0 e in
      let others : All (λ c. str_eq c.id k ≡ false) bs =
        All-imp (λ c h. str_eq_sym c.id k ∙ rw (← key) h) bs d.0 in
      rw (none_of x k bs others, str_eq_sym k b.id, e, same, p) (omega int_laws)
  | inr e ↦
      rw (once x k bs d.1 (rw e at f) p, str_eq_sym k b.id, e, none_amount b.is_postable)
        (omega int_laws)
]

-- What is posted to the accounts together is all that is posted.
pub posted_to_all :
    (f : AccountSum → ℤ) (accounts : List AccountInfo) (sums : List AccountSum)
    → AreDistinct accounts
    → Covers accounts sums
    → sum_by (λ a. if_postable a (posted_to f a.id sums)) accounts ≡ sum_by f sums
posted_to_all f accounts [] d c =
    sum_by-zero _ accounts (All-every (λ a. none_amount a.is_postable) accounts)
posted_to_all f accounts (s ∷ rest) d ((a, found, p), c) =
    sum_by-All _
      (λ b.
        if_postable b (if str_eq s.account_id b.id then f s else pos 0)
        +ℤ if_postable b (posted_to f b.id rest))
      accounts (All-every (λ b. split_amount b.is_postable _ _) accounts)
    ∙ sum_by-add _ _ accounts
    ∙ rw (once (f s) s.account_id accounts d found p, posted_to_all f accounts rest d c) refl
