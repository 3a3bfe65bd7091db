-- ===== src/Ledger/Reports/Trial.antt =====
-- buildTrialBalance of reports.ts.
use nestjs_api_template.Prelude.Maps
use nestjs_api_template.Ledger.Reports.{
  AccountInfo, AccountSum, LedgerAccountType, by_code, index, zero_sum,
}
use nestjs_api_template.Prelude.{
  Bool, List, Option, String, [], if◌then◌else◌, not, or_else, ◌&&◌, ◌++◌, ◌||◌, ◌∷◌,
}
use nestjs_api_template.Prelude.Int.{eqb_ℤ, ltb_ℤ, neg, pos, ℤ, ◌+ℤ◌, ◌-ℤ◌}
use nestjs_api_template.Prelude.Lists.{sort_by}

pub record TrialBalanceRow : Type 0 where
  pub account_id : String
  pub code : String
  pub name : String
  pub name_th : Option String
  pub type : LedgerAccountType
  pub opening_minor : ℤ
  pub debit_minor : ℤ
  pub credit_minor : ℤ
  pub closing_minor : ℤ

-- The variables of the loop of `buildTrialBalance`.
pub record TrialLoop : Type 0 where
  pub rows : List TrialBalanceRow
  pub total_debit : ℤ
  pub total_credit : ℤ
  pub closing_dr : ℤ
  pub closing_cr : ℤ

pub record TrialBalance : Type 0 where
  pub from_date : String
  pub to_date : String
  pub rows : List TrialBalanceRow
  pub total_debit_minor : ℤ
  pub total_credit_minor : ℤ
  pub total_closing_debit_minor : ℤ
  pub total_closing_credit_minor : ℤ
  pub balanced : Bool

unfoldable pub trial_row : AccountInfo → AccountSum → AccountSum → TrialBalanceRow
trial_row a o m =
    let opening_minor = o.debit_minor -ℤ o.credit_minor in
    record {
      account_id = a.id;
      code = a.code;
      name = a.name;
      name_th = a.name_th;
      type = a.type;
      opening_minor = opening_minor;
      debit_minor = m.debit_minor;
      credit_minor = m.credit_minor;
      closing_minor = opening_minor +ℤ m.debit_minor -ℤ m.credit_minor;
    }

-- The row is skipped.
abbrev pub is_idle : TrialBalanceRow → Bool
is_idle r =
    eqb_ℤ r.opening_minor (pos 0)
    && eqb_ℤ r.debit_minor (pos 0)
    && eqb_ℤ r.credit_minor (pos 0)
    && eqb_ℤ r.closing_minor (pos 0)

-- The loop takes up a row.
unfoldable pub add_row : TrialLoop → TrialBalanceRow → TrialLoop
add_row st r = record {
  rows = st.rows ++ r ∷ [];
  total_debit = st.total_debit +ℤ r.debit_minor;
  total_credit = st.total_credit +ℤ r.credit_minor;
  closing_dr =
      if ltb_ℤ (pos 0) r.closing_minor then st.closing_dr +ℤ r.closing_minor else st.closing_dr;
  closing_cr =
      if ltb_ℤ (pos 0) r.closing_minor then st.closing_cr else st.closing_cr +ℤ neg r.closing_minor;
}

-- One round of the loop.
unfoldable pub trial_step :
    List (String × AccountSum) → List (String × AccountSum) → TrialLoop → AccountInfo → TrialLoop
unfolding trial_row add_row
trial_step open_sums mov st a =
    let r =
      trial_row a (or_else (Maps.get a.id open_sums) zero_sum)
        (or_else (Maps.get a.id mov) zero_sum) in
    if not a.is_postable || is_idle r then st else add_row st r

unfoldable pub trial_loop :
    List (String × AccountSum)
    → List (String × AccountSum)
    → TrialLoop
    → List AccountInfo
    → TrialLoop
unfolding trial_step
trial_loop open_sums mov st [] = st
trial_loop open_sums mov st (a ∷ rest) =
    trial_loop open_sums mov (trial_step open_sums mov st a) rest

unfoldable pub build_trial_balance :
    String → String → List AccountInfo → List AccountSum → List AccountSum → TrialBalance
unfolding index sort_by trial_loop
build_trial_balance from_date to_date accounts opening period =
    let st =
      trial_loop (index opening) (index period)
        (record {
          rows = [];
          total_debit = pos 0;
          total_credit = pos 0;
          closing_dr = pos 0;
          closing_cr = pos 0;
        })
        (sort_by by_code accounts) in
    record {
      from_date = from_date;
      to_date = to_date;
      rows = st.rows;
      total_debit_minor = st.total_debit;
      total_credit_minor = st.total_credit;
      total_closing_debit_minor = st.closing_dr;
      total_closing_credit_minor = st.closing_cr;
      balanced = eqb_ℤ st.total_debit st.total_credit && eqb_ℤ st.closing_dr st.closing_cr;
    }
