-- ===== src/Ledger/Journal.antt =====
-- journal-entry.ts: `class JournalEntry`. The methods return a new entry and leave the old one.
use nestjs_api_template.Shared.Money
use nestjs_api_template.Ledger.Lines.{
  JournalEntryStatus, JournalLineInput, LedgerError, draft, illegal_journal_transition,
  invalid_journal_entry, ledger_money, pending_approval, posted, reversed, validate_journal_lines,
  voided,
}
use nestjs_api_template.Prelude.{
  Bool, List, Option, Result, String, [], false, if◌then◌else◌, ltb, map, map_err, none, not, ok,
  some, suc, throw_if, true, ℕ, ◌+◌, ◌==◌, ◌>>=◌, ◌>>◌, ◌∷◌,
}
use nestjs_api_template.Prelude.Int.{ℤ}
use nestjs_api_template.Prelude.Lists.{any, length}
use nestjs_api_template.Prelude.Text.{Unicode, is_empty, text_length, trim}
use nestjs_api_template.Shared.IsoDate.{is_iso_date}
use nestjs_api_template.Shared.Money.{Money}

pub data JournalSourceType : Type 0 where
  manual : JournalSourceType
  ar_invoice : JournalSourceType
  ar_receipt : JournalSourceType
  ap_invoice : JournalSourceType
  ap_payment : JournalSourceType
  inventory : JournalSourceType
  year_end_close : JournalSourceType

abbrev pub max_description : ℕ
max_description = 500

pub record JournalLineSnapshot : Type 0 where
  pub id : String
  pub line_no : ℕ
  pub account_id : String
  pub account_code : String
  pub debit_minor : ℤ
  pub credit_minor : ℤ
  pub description : Option String
  pub party_type : Option String
  pub party_id : Option String

pub record JournalEntry : Type 0 where
  pub id : String
  pub tenant_id : String
  pub company_id : String
  pub number : String
  pub entry_date : String
  pub description : String
  pub source_type : JournalSourceType
  pub source_id : Option String
  pub source_key : Option String
  pub currency : String
  pub status : JournalEntryStatus
  pub reversal_of_id : Option String
  pub reversed_by_id : Option String
  pub approval_request_id : Option String
  pub total_debit_minor : ℤ
  pub total_credit_minor : ℤ
  pub version : ℕ
  pub created_by : String
  pub posted_at : Option ℕ
  pub posted_by : Option String
  pub voided_at : Option ℕ
  pub lines : List JournalLineSnapshot
  pub created_at : ℕ
  pub updated_at : ℕ

pub record CreateJournalEntryProps : Type 0 where
  pub id : String
  pub tenant_id : String
  pub company_id : String
  pub number : String
  pub entry_date : String
  pub description : String
  pub source_type : JournalSourceType
  pub source_id : Option String
  pub source_key : Option String
  pub currency : String
  pub reversal_of_id : Option String
  pub created_by : String
  pub lines : List JournalLineInput
  pub line_ids : List String
  pub now : ℕ

-- `(l.description ?? '').trim() || null`
unfoldable pub clean_description : Option String → Option String
clean_description none = none
clean_description (some d) = if is_empty (trim d) then none else some (trim d)

-- One round of `props.lines.map`.
unfoldable pub make_line : ℕ → String → JournalLineInput → JournalLineSnapshot
unfolding clean_description
make_line i line_id l = record {
  id = line_id;
  line_no = i + 1;
  account_id = l.account_id;
  account_code = l.account_code;
  debit_minor = l.debit_minor;
  credit_minor = l.credit_minor;
  description = clean_description l.description;
  party_type = l.party_type;
  party_id = l.party_id;
}

-- The map over the lines, each with its id; `?? ''` where the ids run out.
unfoldable pub make_lines : ℕ → List String → List JournalLineInput → List JournalLineSnapshot
make_lines i ids [] = []
make_lines i [] (l ∷ ls) = make_line i "" l ∷ make_lines (suc i) [] ls
make_lines i (line_id ∷ ids) (l ∷ ls) = make_line i line_id l ∷ make_lines (suc i) ids ls

unfoldable pub create_entry :
    ⦃u : Unicode⦄ → CreateJournalEntryProps → Result LedgerError JournalEntry
create_entry props = do
  nothing ← map_err ledger_money (Money.zero_of props.currency)
  throw_if (not (is_iso_date props.entry_date)) invalid_journal_entry
  let description = trim props.description
  throw_if (text_length description == 0) invalid_journal_entry
  throw_if (ltb max_description (text_length description)) invalid_journal_entry
  throw_if (not (length props.line_ids == length props.lines)) invalid_journal_entry
  totals ← validate_journal_lines props.lines
  ok (record {
    id = props.id;
    tenant_id = props.tenant_id;
    company_id = props.company_id;
    number = props.number;
    entry_date = props.entry_date;
    description = description;
    source_type = props.source_type;
    source_id = props.source_id;
    source_key = props.source_key;
    currency = nothing.currency;
    status = draft;
    reversal_of_id = props.reversal_of_id;
    reversed_by_id = none;
    approval_request_id = none;
    total_debit_minor = totals.total_debit_minor;
    total_credit_minor = totals.total_credit_minor;
    version = 0;
    created_by = props.created_by;
    posted_at = none;
    posted_by = none;
    voided_at = none;
    lines = make_lines 0 props.line_ids props.lines;
    created_at = props.now;
    updated_at = props.now;
  })

abbrev pub status_eq : JournalEntryStatus → JournalEntryStatus → Bool
status_eq draft draft = true
status_eq pending_approval pending_approval = true
status_eq posted posted = true
status_eq reversed reversed = true
status_eq voided voided = true
status_eq _ _ = false

abbrev pub posted_statuses : List JournalEntryStatus
posted_statuses = posted ∷ reversed ∷ []

abbrev pub is_posted : JournalEntry → Bool
is_posted e = any (status_eq e.status) posted_statuses

unfoldable pub transition :
    JournalEntry → List JournalEntryStatus → JournalEntryStatus → Result LedgerError (Unit {0})
transition s allowed to =
    throw_if (not (any (status_eq s.status) allowed)) (illegal_journal_transition s.id s.status to)

unfoldable pub submit : JournalEntry → String → ℕ → Result LedgerError JournalEntry
unfolding transition
submit s approval_request_id now = do
  transition s (draft ∷ []) pending_approval
  ok (record s {
    status = pending_approval;
    approval_request_id = some approval_request_id;
    updated_at = now;
  })

unfoldable pub reopen : JournalEntry → ℕ → Result LedgerError JournalEntry
unfolding transition
reopen s now = do
  transition s (pending_approval ∷ []) draft
  ok (record s { status = draft; updated_at = now })

unfoldable pub post : JournalEntry → String → ℕ → Result LedgerError JournalEntry
unfolding transition
post s by now = do
  transition s (draft ∷ pending_approval ∷ []) posted
  ok (record s { status = posted; posted_at = some now; posted_by = some by; updated_at = now })

unfoldable pub mark_reversed : JournalEntry → String → ℕ → Result LedgerError JournalEntry
unfolding transition
mark_reversed s reversal_id now = do
  transition s (posted ∷ []) reversed
  ok (record s { status = reversed; reversed_by_id = some reversal_id; updated_at = now })

unfoldable pub void_entry : JournalEntry → ℕ → Result LedgerError JournalEntry
unfolding transition
void_entry s now = do
  transition s (draft ∷ pending_approval ∷ []) voided
  ok (record s { status = voided; voided_at = some now; updated_at = now })

unfoldable pub mirror_line : JournalLineSnapshot → JournalLineInput
mirror_line l = record {
  account_id = l.account_id;
  account_code = l.account_code;
  debit_minor = l.credit_minor;
  credit_minor = l.debit_minor;
  description = l.description;
  party_type = l.party_type;
  party_id = l.party_id;
}

unfoldable pub reversal_lines : JournalEntry → List JournalLineInput
unfolding mirror_line
reversal_lines s = map mirror_line s.lines
