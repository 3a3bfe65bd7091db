-- ===== src/FiscalYear/Year.antt =====
-- fiscal-year.ts: `class FiscalYear`. The methods return a new year and leave the old one.
use nestjs_api_template.Prelude.{
  Bool, List, Option, Result, String, [], err, false, if◌then◌else◌, ltb, map, none, not, ok, some,
  suc, throw_if, true, ℕ, ◌&&◌, ◌==◌, ◌>>◌, ◌||◌, ◌∷◌,
}
use nestjs_api_template.Prelude.Lists.{filter, find, length}
use nestjs_api_template.Prelude.Text.{is_empty, or_empty, text_length, text_lt, trim}
use nestjs_api_template.Shared.IsoDate.{is_iso_date}

pub data FiscalYearStatus : Type 0 where
  open_year : FiscalYearStatus
  closed_year : FiscalYearStatus

pub data FiscalPeriodStatus : Type 0 where
  open_period : FiscalPeriodStatus
  locked : FiscalPeriodStatus
  closed : FiscalPeriodStatus

pub data FiscalYearError : Type 0 where
  invalid_fiscal_year_field : FiscalYearError
  invalid_date : FiscalYearError
  fiscal_period_not_found : String → ℕ → FiscalYearError
  illegal_period_transition : ℕ → FiscalPeriodStatus → FiscalPeriodStatus → FiscalYearError
  fiscal_year_not_ready_to_close : List ℕ → FiscalYearError
  fiscal_year_is_closed : String → FiscalYearError

abbrev pub periods_per_year : ℕ
periods_per_year = 12

pub record FiscalPeriod : Type 0 where
  pub id : String
  pub tenant_id : String
  pub fiscal_year_id : String
  pub period_no : ℕ
  pub start_date : String
  pub end_date : String
  pub status : FiscalPeriodStatus
  pub locked_at : Option ℕ
  pub locked_by : Option String
  pub lock_reason : Option String
  pub updated_at : ℕ

pub record FiscalYear : Type 0 where
  pub id : String
  pub tenant_id : String
  pub company_id : String
  pub name : String
  pub start_date : String
  pub end_date : String
  pub status : FiscalYearStatus
  pub closed_at : Option ℕ
  pub closed_by : Option String
  pub periods : List FiscalPeriod
  pub created_at : ℕ
  pub updated_at : ℕ

pub record CreateFiscalYearProps : Type 0 where
  pub id : String
  pub tenant_id : String
  pub company_id : String
  pub name : String
  pub start_date : String
  pub period_ids : List String
  pub now : ℕ

-- What `Date` of the runtime computes on ISO dates.
pub record Months : Type 0 where
  pub add_months : String → ℕ → String
  pub day_before : String → String
  pub day_of_month : String → ℕ

-- The period with an index, of the year that starts on a date.
unfoldable pub monthly_period : ⦃c : Months⦄ → CreateFiscalYearProps → ℕ → String → FiscalPeriod
monthly_period ⦃c⦄ props i id = record {
  id = id;
  tenant_id = props.tenant_id;
  fiscal_year_id = props.id;
  period_no = suc i;
  start_date = c.add_months props.start_date i;
  end_date = c.day_before (c.add_months props.start_date (suc i));
  status = open_period;
  locked_at = none;
  locked_by = none;
  lock_reason = none;
  updated_at = props.now;
}

-- The periods from an index on, one for each id.
unfoldable pub monthly_periods :
    ⦃c : Months⦄ → CreateFiscalYearProps → ℕ → List String → List FiscalPeriod
unfolding monthly_period
monthly_periods props i [] = []
monthly_periods props i (id ∷ rest) = monthly_period props i id ∷ monthly_periods props (suc i) rest

-- The end of the last period.
unfoldable pub last_end : String → List FiscalPeriod → String
last_end start [] = start
last_end start (p ∷ rest) = last_end p.end_date rest

unfoldable pub create_year :
    ⦃c : Months⦄ → CreateFiscalYearProps → Result FiscalYearError FiscalYear
unfolding monthly_periods last_end
create_year ⦃c⦄ props = do
  let name = trim props.name
  throw_if (text_length name == 0 || ltb 32 (text_length name)) invalid_fiscal_year_field
  throw_if (not (is_iso_date props.start_date)) invalid_date
  throw_if (not (c.day_of_month props.start_date == 1)) invalid_fiscal_year_field
  throw_if (not (length props.period_ids == periods_per_year)) invalid_fiscal_year_field
  let periods = monthly_periods props 0 props.period_ids
  ok (record {
    id = props.id;
    tenant_id = props.tenant_id;
    company_id = props.company_id;
    name = name;
    start_date = props.start_date;
    end_date = last_end props.start_date periods;
    status = open_year;
    closed_at = none;
    closed_by = none;
    periods = periods;
    created_at = props.now;
    updated_at = props.now;
  })

-- `a <= b` of texts.
abbrev pub text_le : String → String → Bool
text_le a b = not (text_lt b a)

unfoldable pub overlaps : FiscalYear → String → String → Bool
overlaps s start_date end_date = text_le s.start_date end_date && text_le start_date s.end_date

unfoldable pub period_for : FiscalYear → String → Option FiscalPeriod
period_for s date = find (λ p. text_le p.start_date date && text_le date p.end_date) s.periods

pub data PostingReason : Type 0 where
  fine : PostingReason
  no_fiscal_year : PostingReason
  year_closed : PostingReason
  period_locked : PostingReason
  period_closed : PostingReason

pub record PostingCheck : Type 0 where
  pub allowed : Bool
  pub reason : PostingReason
  pub fiscal_year_id : Option String
  pub period_no : Option ℕ
  pub period_status : Option FiscalPeriodStatus

abbrev pub answer : FiscalYear → FiscalPeriod → Bool → PostingReason → PostingCheck
answer s p allowed reason = record {
  allowed = allowed;
  reason = reason;
  fiscal_year_id = some s.id;
  period_no = some p.period_no;
  period_status = some p.status;
}

-- The answer for the period of a date, by the status of the year and of the period.
unfoldable pub check_period :
    FiscalYear → FiscalPeriod → FiscalYearStatus → FiscalPeriodStatus → PostingCheck
check_period s p closed_year st = answer s p false year_closed
check_period s p open_year locked = answer s p false period_locked
check_period s p open_year closed = answer s p false period_closed
check_period s p open_year open_period = answer s p true fine

-- The answer for what `periodFor` finds.
unfoldable pub check_found : FiscalYear → Option FiscalPeriod → PostingCheck
unfolding check_period
check_found s none = record {
  allowed = false;
  reason = no_fiscal_year;
  fiscal_year_id = none;
  period_no = none;
  period_status = none;
}
check_found s (some p) = check_period s p s.status p.status

unfoldable pub posting_check : FiscalYear → String → PostingCheck
unfolding period_for check_found
posting_check s date = check_found s (period_for s date)

abbrev pub is_closed_year : FiscalYearStatus → Bool
is_closed_year closed_year = true
is_closed_year open_year = false

-- `legal`
abbrev pub is_legal : FiscalPeriodStatus → FiscalPeriodStatus → Bool
is_legal open_period locked = true
is_legal locked open_period = true
is_legal _ _ = false

abbrev pub if_locked {ℓ} : {A : Type ℓ} → FiscalPeriodStatus → A → Option A
if_locked locked v = some v
if_locked open_period v = none
if_locked closed v = none

abbrev pub or_null : String → Option String
or_null t = if is_empty t then none else some t

-- The period after a transition.
abbrev pub updated_period :
    FiscalPeriod → FiscalPeriodStatus → String → ℕ → Option String → FiscalPeriod
updated_period p to by now reason = record p {
  status = to;
  locked_at = if_locked to now;
  locked_by = if_locked to by;
  lock_reason = reason;
  updated_at = now;
}

-- `transitionPeriod`, of the period that was found.
unfoldable pub change_period :
    FiscalYear
    → ℕ
    → FiscalPeriodStatus
    → String
    → ℕ
    → Option String
    → Option FiscalPeriod
    → Result FiscalYearError FiscalYear
change_period s period_no to by now reason none = err (fiscal_period_not_found s.id period_no)
change_period s period_no to by now reason (some period) = do
  throw_if (not (is_legal period.status to)) (illegal_period_transition period_no period.status to)
  let trimmed = trim (or_empty reason)
  throw_if (ltb 200 (text_length trimmed)) invalid_fiscal_year_field
  let updated = updated_period period to by now (or_null trimmed)
  ok (record s {
    periods = map (λ p. if p.period_no == period_no then updated else p) s.periods;
    updated_at = now;
  })

unfoldable pub transition_period :
    FiscalYear
    → ℕ
    → FiscalPeriodStatus
    → String
    → ℕ
    → Option String
    → Result FiscalYearError FiscalYear
unfolding change_period
transition_period s period_no to by now reason = do
  throw_if (is_closed_year s.status) (fiscal_year_is_closed s.id)
  change_period s period_no to by now reason (find (λ p. p.period_no == period_no) s.periods)

unfoldable pub lock_period :
    FiscalYear → ℕ → String → ℕ → Option String → Result FiscalYearError FiscalYear
unfolding transition_period
lock_period s period_no by now reason = transition_period s period_no locked by now reason

unfoldable pub unlock_period :
    FiscalYear → ℕ → String → ℕ → String → Result FiscalYearError FiscalYear
unfolding transition_period
unlock_period s period_no by now reason = do
  throw_if (text_length (trim reason) == 0) invalid_fiscal_year_field
  transition_period s period_no open_period by now (some reason)

abbrev pub is_open_period : FiscalPeriod → Bool
is_open_period p = elim p.status [ open_period ↦ true | locked ↦ false | closed ↦ false ]

abbrev pub closed_period : ℕ → FiscalPeriod → FiscalPeriod
closed_period now p = record p { status = closed; updated_at = now }

unfoldable pub close_year : FiscalYear → String → ℕ → Result FiscalYearError FiscalYear
close_year s by now = do
  throw_if (is_closed_year s.status) (fiscal_year_is_closed s.id)
  let open_periods = map (λ p. p.period_no) (filter is_open_period s.periods)
  throw_if (ltb 0 (length open_periods)) (fiscal_year_not_ready_to_close open_periods)
  ok (record s {
    status = closed_year;
    closed_at = some now;
    closed_by = some by;
    periods = map (closed_period now) s.periods;
    updated_at = now;
  })
