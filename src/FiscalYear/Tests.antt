-- ===== src/FiscalYear/Tests.antt =====
-- A fiscal year at concrete values, on which the theorems apply.
use nestjs_api_template.FiscalYear.Close.{lock_and_close}
use nestjs_api_template.FiscalYear.Periods.{IsClosed, lock_and_close_succeeds, numbers}
use nestjs_api_template.FiscalYear.Year.{
  FiscalPeriod, FiscalPeriodStatus, FiscalYear, closed_year, locked, open_period, open_year,
  posting_check,
}
use nestjs_api_template.Prelude.{[], false, none, ok, refl, ℕ, ◌∷◌, ◌≡◌}
use nestjs_api_template.Prelude.Lists.{All}

abbrev period : ℕ → FiscalPeriodStatus → FiscalPeriod
period n st = record {
  id = "P";
  tenant_id = "T";
  fiscal_year_id = "Y";
  period_no = n;
  start_date = "2024-01-01";
  end_date = "2024-01-31";
  status = st;
  locked_at = none;
  locked_by = none;
  lock_reason = none;
  updated_at = 1;
}

-- A year of three periods, of which the second is locked.
abbrev year : FiscalYear
year = record {
  id = "Y";
  tenant_id = "T";
  company_id = "C";
  name = "2024";
  start_date = "2024-01-01";
  end_date = "2024-12-31";
  status = open_year;
  closed_at = none;
  closed_by = none;
  periods = period 1 open_period ∷ period 2 locked ∷ period 3 open_period ∷ [];
  created_at = 1;
  updated_at = 1;
}

lock_and_close_succeeds_example :
    (z : FiscalYear) × (lock_and_close year "ann" 9 ≡ ok z)
    × (z.status ≡ closed_year)
    × All IsClosed z.periods
    × (numbers z.periods ≡ 1 ∷ 2 ∷ 3 ∷ [])
    × ((posting_check z "2024-01-15").allowed ≡ false)
lock_and_close_succeeds_example =
    lock_and_close_succeeds year "ann" 9 "2024-01-15" refl
      ((refl, (refl, tt)), ((refl, tt), (tt, tt)))
