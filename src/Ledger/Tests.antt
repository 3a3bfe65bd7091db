-- ===== src/Ledger/Tests.antt =====
-- Entries at concrete values, on which the theorems apply.
use nestjs_api_template.Shared.Money
use nestjs_api_template.Prelude.Maps
use nestjs_api_template.Ledger.Accepted.{Short, posting_is_accepted}
use nestjs_api_template.Ledger.Compact.{
  MappedAccount, add_to, compact_keyed_lines, key_text, merge_id, merge_lines, merged_with,
  net_line, net_lines, resolve_keyed_lines,
}
use nestjs_api_template.Ledger.Journal.{
  CreateJournalEntryProps, JournalEntry, create_entry, is_posted, make_line, make_lines, manual,
  mark_reversed, post, reversal_lines,
}
use nestjs_api_template.Ledger.Lifecycle.{
  created_history_is_balanced, history_stays_posted, marked, onward, posts, reverses, unchanged,
  ◌⇒*◌,
}
use nestjs_api_template.Ledger.Lines.{
  JournalLineInput, LineTotals, add_lines, check_line, draft, posted, reversed,
  validate_journal_lines,
}
use nestjs_api_template.Ledger.Posting.{
  AccountKey, ApInvoiceFacts, ApPaymentFacts, ArInvoiceFacts, ArReceiptFacts,
  InventoryMovementFacts, KeyedLine, cogs, credit_note, inventory_key,
}
use nestjs_api_template.Ledger.Reversal.{on_account, reversal_is_accepted}
use nestjs_api_template.Prelude.{
  List, String, [], arith, code, none, ok, refl, some, true, ℕ, ◌∷◌, ◌≡◌, ◌≤◌, ◌⊎◌,
}
use nestjs_api_template.Prelude.Int.{neg, pos, ℤ, ◌+ℤ◌, ◌-ℤ◌}
use nestjs_api_template.Prelude.Lists.{All, length, sum_by}
use nestjs_api_template.Prelude.Text.{Unicode, text_length, trim}
use nestjs_api_template.Shared.IsoDate.{is_iso_date}
use nestjs_api_template.Shared.Money.{Money}

abbrev upper : Unicode
upper = record { to_upper_case = λ s. s; locale_compare = λ a b. pos 0 }

abbrev line_of : String → ℤ → ℤ → JournalLineInput
line_of account debit credit = record {
  account_id = account;
  account_code = account;
  debit_minor = debit;
  credit_minor = credit;
  description = some " rent ";
  party_type = none;
  party_id = none;
}

abbrev rent : List JournalLineInput
rent = line_of "5000" (pos 90) (pos 0) ∷ line_of "1000" (pos 0) (pos 90) ∷ []

abbrev props : CreateJournalEntryProps
props = record {
  id = "J";
  tenant_id = "T";
  company_id = "C";
  number = "JV-1";
  entry_date = "2024-02-29";
  description = "Rent";
  source_type = manual;
  source_id = none;
  source_key = none;
  currency = "THB";
  reversal_of_id = none;
  created_by = "ann";
  lines = rent;
  line_ids = "A" ∷ "B" ∷ [];
  now = 1;
}

abbrev ninety : LineTotals
ninety = record { total_debit_minor = pos 90; total_credit_minor = pos 90 }

abbrev entry : JournalEntry
entry = record {
  id = "J";
  tenant_id = "T";
  company_id = "C";
  number = "JV-1";
  entry_date = "2024-02-29";
  description = "Rent";
  source_type = manual;
  source_id = none;
  source_key = none;
  currency = "THB";
  status = draft;
  reversal_of_id = none;
  reversed_by_id = none;
  approval_request_id = none;
  total_debit_minor = pos 90;
  total_credit_minor = pos 90;
  version = 0;
  created_by = "ann";
  posted_at = none;
  posted_by = none;
  voided_at = none;
  lines =
      make_line 0 "A" (line_of "5000" (pos 90) (pos 0))
      ∷ make_line 1 "B" (line_of "1000" (pos 0) (pos 90))
      ∷ [];
  created_at = 1;
  updated_at = 1;
}

entry_is_created : create_entry ⦃u = upper⦄ props ≡ ok entry
unfolding create_entry Money.zero_of Money.is_currency_code trim is_iso_date text_length
    validate_journal_lines add_lines check_line ◌+ℤ◌ make_lines
entry_is_created = refl

reversal_is_accepted_example :
    (validate_journal_lines (reversal_lines entry)
      ≡ ok (record { total_debit_minor = pos 90; total_credit_minor = pos 90 }))
    × ((k : String)
        → (on_account (λ l. l.account_id) (λ l. l.debit_minor) k (reversal_lines entry)
            ≡ on_account (λ l. l.account_id) (λ l. l.credit_minor) k entry.lines)
          × (on_account (λ l. l.account_id) (λ l. l.credit_minor) k (reversal_lines entry)
              ≡ on_account (λ l. l.account_id) (λ l. l.debit_minor) k entry.lines))
reversal_is_accepted_example = reversal_is_accepted ⦃u = upper⦄ props entry_is_created

abbrev posted_entry : JournalEntry
posted_entry = record entry {
  status = posted;
  posted_at = some 2;
  posted_by = some "bob";
  updated_at = 2;
}

entry_is_posted : entry ⇒* posted_entry
unfolding post
entry_is_posted = onward (posts "bob" 2 refl) unchanged

abbrev reversed_entry : JournalEntry
reversed_entry = record posted_entry {
  status = reversed;
  reversed_by_id = some "K";
  updated_at = 3;
}

entry_is_reversed : posted_entry ⇒* reversed_entry
unfolding mark_reversed
entry_is_reversed = onward (reverses "K" 3 refl) unchanged

history_stays_posted_example :
    (is_posted reversed_entry ≡ true)
    × ((reversed_entry ≡ posted_entry)
        ⊎ ((reversal : String) × (now : ℕ) × (reversed_entry ≡ marked posted_entry reversal now)))
history_stays_posted_example = history_stays_posted entry_is_reversed refl

created_history_is_balanced_example :
    (pos 90 ≡ pos 90)
    × (sum_by (λ l. l.debit_minor) posted_entry.lines ≡ pos 90)
    × (sum_by (λ l. l.credit_minor) posted_entry.lines ≡ pos 90)
    × (2 ≤ length posted_entry.lines)
created_history_is_balanced_example =
    created_history_is_balanced ⦃u = upper⦄ props entry_is_created entry_is_posted

abbrev sale : ArInvoiceFacts
sale = record {
  kind = credit_note;
  customer_id = "C1";
  net_minor = pos 100;
  tax_minor = pos 7;
  total_minor = pos 107;
}

abbrev bill : ApInvoiceFacts
bill = record {
  vendor_id = "V1";
  has_purchase_order = true;
  net_minor = pos 100;
  tax_minor = pos 7;
  total_minor = pos 107;
}

abbrev payment : ApPaymentFacts
payment = record {
  vendor_id = "V1";
  method = "CASH";
  gross_minor = pos 107;
  wht_minor = pos 3;
  net_paid_minor = pos 104;
}

abbrev money_in : ArReceiptFacts
money_in = record { customer_id = "C1"; method = "BANK"; amount_minor = pos 104; wht_minor = pos 3 }

abbrev goods_out : InventoryMovementFacts
goods_out = record { movement_type = "ISSUE"; cost_minor = pos 60 }

abbrev keyed : AccountKey → ℤ → ℤ → KeyedLine
keyed k debit credit = record {
  account_key = k;
  debit_minor = debit;
  credit_minor = credit;
  description = none;
  party_type = none;
  party_id = none;
}

-- Two deliveries and the return of a part of the first.
abbrev deliveries : List KeyedLine
deliveries =
    keyed cogs (pos 60) (pos 0)
    ∷ keyed inventory_key (pos 0) (pos 60)
    ∷ keyed inventory_key (pos 20) (pos 0)
    ∷ keyed cogs (pos 0) (pos 20)
    ∷ []

abbrev accounts : List (String × MappedAccount)
accounts =
    ("COGS", record { account_id = "A5"; account_code = "5000" })
    ∷ ("INVENTORY", record { account_id = "A1"; account_code = "1200" })
    ∷ []

abbrev account_line : String → String → ℤ → ℤ → JournalLineInput
account_line id code debit credit = record {
  account_id = id;
  account_code = code;
  debit_minor = debit;
  credit_minor = credit;
  description = none;
  party_type = none;
  party_id = none;
}

abbrev posted_lines : List JournalLineInput
posted_lines =
    account_line "A5" "5000" (pos 40) (pos 0) ∷ account_line "A1" "1200" (pos 0) (pos 40) ∷ []

deliveries_compact :
    compact_keyed_lines deliveries
    ≡ keyed cogs (pos 40) (pos 0) ∷ keyed inventory_key (pos 0) (pos 40) ∷ []
unfolding compact_keyed_lines merge_lines merged_with add_to net_lines net_line Maps.get Maps.put
    merge_id key_text ◌+ℤ◌ ◌-ℤ◌ neg
deliveries_compact = refl

deliveries_resolve :
    resolve_keyed_lines "C" (compact_keyed_lines deliveries) accounts ≡ ok posted_lines
unfolding resolve_keyed_lines Maps.get key_text
deliveries_resolve = rw deliveries_compact refl

deliveries_are-Short : All Short deliveries
deliveries_are-Short = (omega arith, (omega arith, (omega arith, (omega arith, tt))))

posting_is_accepted_example :
    (compact_keyed_lines deliveries ≡ [])
    ⊎ (validate_journal_lines posted_lines
        ≡ ok (record { total_debit_minor = pos 40; total_credit_minor = pos 40 }))
unfolding ◌+ℤ◌
posting_is_accepted_example =
    posting_is_accepted "C" deliveries accounts refl deliveries_are-Short (omega arith)
      deliveries_resolve
