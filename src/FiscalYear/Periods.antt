-- ===== src/FiscalYear/Periods.antt =====
-- The periods of a year under the calls on it, and the close of a year.
use nestjs_api_template.FiscalYear.Close.{lock_all, lock_and_close}
use nestjs_api_template.FiscalYear.Year.{
  FiscalPeriod, FiscalPeriodStatus, FiscalYear, FiscalYearStatus, change_period, check_found,
  check_period, close_year, closed, closed_period, closed_year, is_closed_year, is_legal,
  is_open_period, lock_period, locked, open_period, open_year, or_null, period_for, posting_check,
  transition_period, updated_period,
}
use nestjs_api_template.Prelude.{
  Bool, Bool-cases, List, Option, String, [], ap, append-nil, append_assoc, arith, false,
  if◌then◌else◌, inl, inr, ltb, map, none, ok, refl, some, true, ℕ, ◌++◌, ◌==◌, ◌∙◌, ◌∷◌, ◌≡◌,
}
use nestjs_api_template.Prelude.Lists.{All, All-append, Pairs, Pairs-unmap, filter, find}
use nestjs_api_template.Prelude.Text.{or_empty, text_length, trim}

abbrev pub numbers : List FiscalPeriod → List ℕ
numbers = map (λ p. p.period_no)

abbrev pub AreDistinct : List ℕ → Type 0
AreDistinct = Pairs (λ m n. (n == m) ≡ false)

abbrev pub IsClosed : FiscalPeriod → Type 0
IsClosed p = p.status ≡ closed

abbrev pub is_settled : FiscalPeriodStatus → Bool
is_settled closed = true
is_settled open_period = false
is_settled locked = false

-- The periods of a year are closed exactly with the year.
abbrev pub ClosedAs : FiscalYearStatus → List FiscalPeriod → Type 0
ClosedAs open_year = All (λ p. is_settled p.status ≡ false)
ClosedAs closed_year = All (λ p. is_settled p.status ≡ true)

abbrev pub IsValid : FiscalYear → Type 0
IsValid y = AreDistinct (numbers y.periods) × ClosedAs y.status y.periods

-- One element between two parts of a list.
Pairs-mid :
    (done : List FiscalPeriod) (p : FiscalPeriod) (rest : List FiscalPeriod)
    → Pairs (λ a b. (b.period_no == a.period_no) ≡ false) (done ++ p ∷ rest)
    → All (λ q. (q.period_no == p.period_no) ≡ false) done
      × All (λ q. (q.period_no == p.period_no) ≡ false) rest
Pairs-mid [] p rest h = (tt, h.0)
Pairs-mid (q ∷ done) p rest h =
    let (before, after) = Pairs-mid done p rest h.1 in
    ((ground (arith, in_middle done p rest h.0), before), after)
  where
    in_middle :
        (done : List FiscalPeriod) (p : FiscalPeriod) (rest : List FiscalPeriod)
        → All (λ b. (b.period_no == q.period_no) ≡ false) (done ++ p ∷ rest)
        → (p.period_no == q.period_no) ≡ false
    in_middle [] p rest h = h.0
    in_middle (d ∷ done) p rest h = in_middle done p rest h.1

find_mid :
    (done : List FiscalPeriod) (p : FiscalPeriod) (rest : List FiscalPeriod)
    → All (λ q. (q.period_no == p.period_no) ≡ false) done
    → find (λ q. q.period_no == p.period_no) (done ++ p ∷ rest) ≡ some p
find_mid [] p rest h = let same : (p.period_no == p.period_no) ≡ true = ground arith in rw same refl
find_mid (q ∷ done) p rest (other, h) = rw other (find_mid done p rest h)

map_others :
    (u : FiscalPeriod) (n : ℕ) (list : List FiscalPeriod)
    → All (λ q. (q.period_no == n) ≡ false) list
    → map (λ q. if q.period_no == n then u else q) list ≡ list
map_others u n [] h = refl
map_others u n (q ∷ rest) (other, h) = rw (other, map_others u n rest h) refl

map_mid :
    (u : FiscalPeriod) (done : List FiscalPeriod) (p : FiscalPeriod) (rest : List FiscalPeriod)
    → All (λ q. (q.period_no == p.period_no) ≡ false) done
    → All (λ q. (q.period_no == p.period_no) ≡ false) rest
    → map (λ q. if q.period_no == p.period_no then u else q) (done ++ p ∷ rest) ≡ done ++ u ∷ rest
map_mid u [] p rest h k =
    let same : (p.period_no == p.period_no) ≡ true = ground arith in
    rw (same, map_others u p.period_no rest k) refl
map_mid u (q ∷ done) p rest (other, h) k = rw (other, map_mid u done p rest h k) refl

numbers_mid :
    (u : FiscalPeriod) (done : List FiscalPeriod) (p : FiscalPeriod) (rest : List FiscalPeriod)
    → u.period_no ≡ p.period_no
    → numbers (done ++ u ∷ rest) ≡ numbers (done ++ p ∷ rest)
numbers_mid u [] p rest e = rw e refl
numbers_mid u (q ∷ done) p rest e = rw (numbers_mid u done p rest e) refl

abbrev NotOpen : FiscalPeriod → Type 0
NotOpen p = is_open_period p ≡ false

change_period_lem :
    (y : FiscalYear) (n : ℕ) (to : FiscalPeriodStatus) (by : String) (now : ℕ)
    (reason : Option String) (p : FiscalPeriod)
    → is_legal p.status to ≡ true
    → ltb 200 (text_length (trim (or_empty reason))) ≡ false
    → change_period y n to by now reason (some p)
      ≡ ok (record y {
        periods =
            map
              (λ q.
                if q.period_no == n
                then updated_period p to by now (or_null (trim (or_empty reason)))
                else q)
              y.periods;
        updated_at = now;
      })
unfolding change_period
change_period_lem y n to by now reason p legal short = rw (legal, short) refl

abbrev close_reason : Option String
close_reason = some "year-end close"

short_reason :
    (ltb 200 (text_length (trim (or_empty close_reason))) ≡ false)
    × (or_null (trim (or_empty close_reason)) ≡ close_reason)
unfolding trim text_length
short_reason = (refl, refl)

-- The period that the lock of an open period leaves.
abbrev locked_period : FiscalPeriod → String → ℕ → FiscalPeriod
locked_period p by now = updated_period p locked by now close_reason

legal_lock : (p : FiscalPeriod) → is_open_period p ≡ true → is_legal p.status locked ≡ true
legal_lock p h = ground arith

-- The lock of an open period, in the middle of the list.
lock_mid :
    (y : FiscalYear) (by : String) (now : ℕ) (done : List FiscalPeriod) (p : FiscalPeriod)
    (rest : List FiscalPeriod)
    → y.status ≡ open_year
    → y.periods ≡ done ++ p ∷ rest
    → AreDistinct (numbers (done ++ p ∷ rest))
    → is_open_period p ≡ true
    → lock_period y p.period_no by now close_reason
      ≡ ok (record y { periods = done ++ locked_period p by now ∷ rest; updated_at = now })
unfolding lock_period transition_period
lock_mid y by now done p rest is_open periods_are distinct opened =
    let (before, after) =
      Pairs-mid done p rest
        (Pairs-unmap (λ m n. (n == m) ≡ false) (λ q. q.period_no) (done ++ p ∷ rest) distinct) in
    let not_closed : is_closed_year y.status ≡ false = rw is_open refl in
    let found : find (λ q. q.period_no == p.period_no) y.periods ≡ some p =
      rw periods_are (find_mid done p rest before) in
    let (short, kept) = short_reason in
    let replaced : map (λ q. if q.period_no == p.period_no then locked_period p by now else q)
          y.periods
        ≡ done ++ locked_period p by now ∷ rest =
      rw periods_are (map_mid (locked_period p by now) done p rest before after) in
    rw (not_closed, found)
      (change_period_lem y p.period_no locked by now close_reason p (legal_lock p opened) short
        ∙ rw kept (ap (λ ps. ok (record y { periods = ps; updated_at = now })) replaced))

lock_all_lem :
    (y : FiscalYear) (by : String) (now : ℕ) (done rest : List FiscalPeriod)
    → y.status ≡ open_year
    → y.periods ≡ done ++ rest
    → AreDistinct (numbers (done ++ rest))
    → All NotOpen done
    → (z : FiscalYear) × (lock_all y by now rest ≡ ok z)
      × (z.status ≡ open_year)
      × All NotOpen z.periods
      × (numbers z.periods ≡ numbers (done ++ rest))
unfolding lock_all
lock_all_lem y by now done [] is_open periods_are distinct locked_yet =
    (y, refl, is_open, rw (periods_are, append-nil done) locked_yet, rw periods_are refl)
lock_all_lem y by now done (p ∷ rest) is_open periods_are distinct locked_yet =
    elim (Bool-cases (is_open_period p)) [
      | inr e ↦
          let (z, run, st, all_locked, same) =
            lock_all_lem y by now (done ++ p ∷ []) rest is_open
              (rw (append_assoc done (p ∷ []) rest) periods_are)
              (rw (append_assoc done (p ∷ []) rest) distinct)
              (All-append NotOpen done (p ∷ []) locked_yet (e, tt)) in
          (z, rw e run, st, all_locked, rw (append_assoc done (p ∷ []) rest) at same)
      | inl e ↦
          let u = locked_period p by now in
          let next = record y { periods = done ++ u ∷ rest; updated_at = now } in
          let kept = numbers_mid u done p rest refl in
          let (z, run, st, all_locked, same) =
            lock_all_lem next by now (done ++ u ∷ []) rest is_open
              (rw (append_assoc done (u ∷ []) rest) refl)
              (rw (append_assoc done (u ∷ []) rest, kept) distinct)
              (All-append NotOpen done (u ∷ []) locked_yet (refl, tt)) in
          (
            z,
            rw (e, lock_mid y by now done p rest is_open periods_are distinct e) run,
            st,
            all_locked,
            (rw (append_assoc done (u ∷ []) rest) at same) ∙ kept,
          )
    ]

none_open : (list : List FiscalPeriod) → All NotOpen list → filter is_open_period list ≡ []
none_open [] h = refl
none_open (p ∷ rest) (e, h) = rw e (none_open rest h)

pub numbers_closed :
    (now : ℕ) (list : List FiscalPeriod) → numbers (map (closed_period now) list) ≡ numbers list
numbers_closed now [] = refl
numbers_closed now (p ∷ rest) = rw (numbers_closed now rest) refl

All-IsClosed : (now : ℕ) (list : List FiscalPeriod) → All IsClosed (map (closed_period now) list)
All-IsClosed now [] = tt
All-IsClosed now (p ∷ rest) = (refl, All-IsClosed now rest)

closed_found :
    (y : FiscalYear) (o : Option FiscalPeriod)
    → y.status ≡ closed_year
    → (check_found y o).allowed ≡ false
unfolding check_found check_period
closed_found y none h = refl
closed_found y (some p) h = rw h refl

pub closed_check :
    (y : FiscalYear) (date : String)
    → y.status ≡ closed_year
    → (posting_check y date).allowed ≡ false
unfolding posting_check
closed_check y date h = closed_found y (period_for y date) h

-- The last steps of the close of a year, once its checks have passed and its closing entry is posted,
-- do not fail: of a year that is open and whose periods have distinct numbers, whatever periods are
-- open or locked, the year and all its periods are then closed, under the numbers they had, and no
-- date can be posted to any more.
pub lock_and_close_succeeds :
    (y : FiscalYear) (by : String) (now : ℕ) (date : String)
    → y.status ≡ open_year
    → AreDistinct (numbers y.periods)
    → (z : FiscalYear) × (lock_and_close y by now ≡ ok z)
      × (z.status ≡ closed_year)
      × All IsClosed z.periods
      × (numbers z.periods ≡ numbers y.periods)
      × ((posting_check z date).allowed ≡ false)
unfolding lock_and_close close_year
lock_and_close_succeeds y by now date is_open distinct =
    let (z, run, st, all_locked, same) =
      lock_all_lem y by now [] y.periods is_open refl distinct tt in
    let not_closed : is_closed_year z.status ≡ false = rw st refl in
    let end : FiscalYear = record z {
      status = closed_year;
      closed_at = some now;
      closed_by = some by;
      periods = map (closed_period now) z.periods;
      updated_at = now;
    } in
    (
      end,
      rw (run, not_closed, none_open z.periods all_locked) refl,
      refl,
      All-IsClosed now z.periods,
      numbers_closed now z.periods ∙ same,
      closed_check end date refl,
    )
