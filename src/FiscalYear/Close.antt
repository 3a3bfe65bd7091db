-- ===== src/FiscalYear/Close.antt =====
-- period.use-cases.ts, the last steps of `CloseFiscalYearUseCase.execute`, after its checks and the
-- closing entry: the periods that are open are locked, and the year is closed.
use nestjs_api_template.FiscalYear.Year.{
  FiscalPeriod, FiscalYear, FiscalYearError, close_year, is_open_period, lock_period,
}
use nestjs_api_template.Prelude.{List, Result, String, [], if◌then◌else◌, ok, some, ℕ, ◌>>=◌, ◌∷◌}

-- The loop over the periods that were loaded.
unfoldable pub lock_all :
    FiscalYear → String → ℕ → List FiscalPeriod → Result FiscalYearError FiscalYear
lock_all y by now [] = ok y
lock_all y by now (p ∷ rest) = do
  next ← if is_open_period p then lock_period y p.period_no by now (some "year-end close") else ok y
  lock_all next by now rest

unfoldable pub lock_and_close : FiscalYear → String → ℕ → Result FiscalYearError FiscalYear
unfolding lock_all
lock_and_close y by now = do
  locked_year ← lock_all y by now y.periods
  close_year locked_year by now
