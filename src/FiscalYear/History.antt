-- ===== src/FiscalYear/History.antt =====
-- The life of a fiscal year: the calls as a relation, and what no sequence of calls breaks.
use nestjs_api_template.FiscalYear.Periods.{
  ClosedAs, closed_check, is_settled, numbers, numbers_closed,
}
use nestjs_api_template.FiscalYear.Year.{
  CreateFiscalYearProps, FiscalPeriod, FiscalPeriodStatus, FiscalYear, FiscalYearStatus, Months,
  change_period, close_year, closed, closed_period, closed_year, create_year, is_closed_year,
  is_legal, lock_period, locked, monthly_period, monthly_periods, open_period, open_year, or_null,
  posting_check, transition_period, unlock_period, updated_period,
}
use nestjs_api_template.Prelude.{
  Bool-cases, List, Option, String, [], arith, false, if◌then◌else◌, inl, inr, map, none, ok, refl,
  some, suc, sym, true, zero, ℕ, ◌==◌, ◌∙◌, ◌∷◌, ◌≡◌,
}
use nestjs_api_template.Prelude.Lists.{All, find, find-test, length}
use nestjs_api_template.Prelude.Text.{or_empty, trim}
use nestjs_api_template.Shared.Money.{same}

infix 40 ◌⇒◌ ◌⇒*◌
-- One call that returns.
pub data ◌⇒◌ : FiscalYear → FiscalYear → Type 0 where
  locks :
      {s t : FiscalYear} (n : ℕ) (by : String) (now : ℕ) (reason : Option String)
      → lock_period s n by now reason ≡ ok t
      → s ⇒ t
  unlocks :
      {s t : FiscalYear} (n : ℕ) (by : String) (now : ℕ) (reason : String)
      → unlock_period s n by now reason ≡ ok t
      → s ⇒ t
  closes : {s t : FiscalYear} (by : String) (now : ℕ) → close_year s by now ≡ ok t → s ⇒ t

pub data ◌⇒*◌ : FiscalYear → FiscalYear → Type 0 where
  unchanged : {s : FiscalYear} → s ⇒* s
  onward : {s t u : FiscalYear} → s ⇒ t → t ⇒* u → s ⇒* u

-- The numbers from one on.
abbrev count_from : ℕ → ℕ → List ℕ
count_from n zero = []
count_from n (suc k) = n ∷ count_from (suc n) k

numbers_monthly :
    ⦃c : Months⦄ (props : CreateFiscalYearProps) (i : ℕ) (ids : List String)
    → numbers (monthly_periods props i ids) ≡ count_from (suc i) (length ids)
unfolding monthly_periods monthly_period
numbers_monthly props i [] = refl
numbers_monthly props i (id ∷ rest) = rw (numbers_monthly props (suc i) rest) refl

monthly_open :
    ⦃c : Months⦄ (props : CreateFiscalYearProps) (i : ℕ) (ids : List String)
    → All (λ p. is_settled p.status ≡ false) (monthly_periods props i ids)
unfolding monthly_periods monthly_period
monthly_open props i [] = tt
monthly_open props i (id ∷ rest) = (refl, monthly_open props (suc i) rest)

abbrev pub one_to_twelve : List ℕ
one_to_twelve = 1 ∷ 2 ∷ 3 ∷ 4 ∷ 5 ∷ 6 ∷ 7 ∷ 8 ∷ 9 ∷ 10 ∷ 11 ∷ 12 ∷ []

create_year_lem :
    ⦃c : Months⦄ (props : CreateFiscalYearProps) {s : FiscalYear}
    → create_year props ≡ ok s
    → (numbers s.periods ≡ one_to_twelve) × ClosedAs s.status s.periods
unfolding create_year
create_year_lem props {s} h =
    let twelve : length props.period_ids ≡ 12 = ground arith in
    let periods_are : s.periods ≡ monthly_periods props 0 props.period_ids = ground arith in
    let status_is : s.status ≡ open_year = ground arith in
    rw (periods_are, status_is)
      (
        numbers_monthly props 0 props.period_ids ∙ rw twelve refl,
        monthly_open props 0 props.period_ids,
      )

replaced_numbers :
    (u : FiscalPeriod) (n : ℕ) (list : List FiscalPeriod)
    → u.period_no ≡ n
    → numbers (map (λ q. if q.period_no == n then u else q) list) ≡ numbers list
replaced_numbers u n [] e = refl
replaced_numbers u n (q ∷ rest) e = elim (Bool-cases (q.period_no == n)) [
  | inl same ↦
      let here : u.period_no ≡ q.period_no = ground (arith, e) in
      rw (same, replaced_numbers u n rest e, here) refl
  | inr other ↦ rw (other, replaced_numbers u n rest e) refl
]

replaced_open :
    (u : FiscalPeriod) (n : ℕ) (list : List FiscalPeriod)
    → is_settled u.status ≡ false
    → All (λ p. is_settled p.status ≡ false) list
    → All (λ p. is_settled p.status ≡ false) (map (λ q. if q.period_no == n then u else q) list)
replaced_open u n [] e h = tt
replaced_open u n (q ∷ rest) e (g, h) = elim (Bool-cases (q.period_no == n)) [
  | inl same ↦ rw same (e, replaced_open u n rest e h)
  | inr other ↦ rw other (g, replaced_open u n rest e h)
]

-- Both of the statuses that a transition leads to are not closed.
legal_target : (from to : FiscalPeriodStatus) → is_legal from to ≡ true → is_settled to ≡ false
legal_target open_period locked h = refl
legal_target locked open_period h = refl
legal_target open_period open_period h = refl
legal_target locked locked h = refl
legal_target open_period closed h = absurd (ground arith)
legal_target locked closed h = absurd (ground arith)
legal_target closed to h = absurd (ground arith)

change_keeps :
    (s : FiscalYear) (n : ℕ) (to : FiscalPeriodStatus) (by : String) (now : ℕ)
    (reason : Option String) (o : Option FiscalPeriod) {t : FiscalYear}
    → find (λ p. p.period_no == n) s.periods ≡ o
    → s.status ≡ open_year
    → ClosedAs s.status s.periods
    → change_period s n to by now reason o ≡ ok t
    → (numbers t.periods ≡ numbers s.periods) × ClosedAs t.status t.periods
unfolding change_period
change_keeps s n to by now reason none f st v h = absurd (ground arith)
change_keeps s n to by now reason (some p) {t} f st v h =
    let u = updated_period p to by now (or_null (trim (or_empty reason))) in
    let test = find-test (λ q. q.period_no == n) s.periods f in
    let here : u.period_no ≡ n = ground arith in
    let legal : is_legal p.status to ≡ true = ground arith in
    let periods_are : t.periods ≡ map (λ q. if q.period_no == n then u else q) s.periods =
      ground arith in
    let status_is : t.status ≡ open_year = ground (arith, st) in
    rw (periods_are, status_is)
      (
        replaced_numbers u n s.periods here,
        replaced_open u n s.periods (legal_target p.status to legal) (rw st at v),
      )

open_of_test : (st : FiscalYearStatus) → is_closed_year st ≡ false → st ≡ open_year
open_of_test open_year h = refl
open_of_test closed_year h = absurd (ground arith)

transition_keeps :
    (s : FiscalYear) (n : ℕ) (to : FiscalPeriodStatus) (by : String) (now : ℕ)
    (reason : Option String) {t : FiscalYear}
    → ClosedAs s.status s.periods
    → transition_period s n to by now reason ≡ ok t
    → (s.status ≡ open_year) × (numbers t.periods ≡ numbers s.periods) × ClosedAs t.status t.periods
unfolding transition_period
transition_keeps s n to by now reason {t} v h =
    let st = open_of_test s.status (ground arith) in
    let (same, w) = change_keeps s n to by now reason _ {t = t} refl st v (ground arith) in
    (st, same, w)

settled-All :
    (now : ℕ) (list : List FiscalPeriod)
    → All (λ p. is_settled p.status ≡ true) (map (closed_period now) list)
settled-All now [] = tt
settled-All now (p ∷ rest) = (refl, settled-All now rest)

⇒-keeps :
    {s t : FiscalYear}
    → s ⇒ t
    → ClosedAs s.status s.periods
    → (s.status ≡ open_year) × (numbers t.periods ≡ numbers s.periods) × ClosedAs t.status t.periods
unfolding lock_period unlock_period close_year
⇒-keeps {s} (locks n by now reason h) v = transition_keeps s n locked by now reason v h
⇒-keeps {s} {t} (unlocks n by now reason h) v =
    transition_keeps s n open_period by now (some reason) {t = t} v (ground arith)
⇒-keeps {s} {t} (closes by now h) v =
    let st = open_of_test s.status (ground arith) in
    let periods_are : t.periods ≡ map (closed_period now) s.periods = ground arith in
    let status_is : t.status ≡ closed_year = ground arith in
    rw (periods_are, status_is) (st, numbers_closed now s.periods, settled-All now s.periods)

history-keeps :
    {s t : FiscalYear}
    → s ⇒* t
    → ClosedAs s.status s.periods
    → (numbers t.periods ≡ numbers s.periods) × ClosedAs t.status t.periods
history-keeps unchanged v = (refl, v)
history-keeps (onward a p) v =
    let (_, same, w) = ⇒-keeps a v in let (sames, x) = history-keeps p w in (sames ∙ same, x)

-- Whatever calls follow the creation of a fiscal year, it has the periods 1 to 12 in order, and they
-- are all closed once the year is closed and none of them is before.
created_year-IsValid :
    ⦃c : Months⦄ (props : CreateFiscalYearProps) {s t : FiscalYear}
    → create_year props ≡ ok s
    → s ⇒* t
    → (numbers t.periods ≡ one_to_twelve) × ClosedAs t.status t.periods
created_year-IsValid props h p =
    let (n, v) = create_year_lem props h in let (same, w) = history-keeps p v in (same ∙ n, w)

differ : ◌≡◌ {A = FiscalYearStatus} open_year closed_year → ⊥
differ e = ground arith

not_both : {st : FiscalYearStatus} → st ≡ open_year → st ≡ closed_year → ⊥
not_both e f = differ (sym e ∙ f)

-- A year that is closed stays as it is: no call on it returns, and no date can be posted to.
closed_year_is_final :
    {s t : FiscalYear} (date : String)
    → ClosedAs s.status s.periods
    → s.status ≡ closed_year
    → (¬ (s ⇒ t)) × ((posting_check s date).allowed ≡ false)
closed_year_is_final {s} date v h = (λ a. not_both (⇒-keeps a v).0 h, closed_check s date h)
