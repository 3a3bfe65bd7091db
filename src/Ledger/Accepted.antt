-- ===== src/Ledger/Accepted.antt =====
-- From a sub-ledger's keyed lines to the lines of an entry.
use nestjs_api_template.Prelude.Maps
use nestjs_api_template.Ledger.Compact.{
  MappedAccount, add_to, compact_keyed_lines, key_text, merge_id, merge_lines, merged_with,
  net_line, net_lines, net_of, resolve_keyed_lines, resolved_line,
}
use nestjs_api_template.Ledger.CompactLaws.{compact_keeps_net}
use nestjs_api_template.Ledger.Lines.{
  IsLine, JournalLineInput, credits, debits, description_length, validate_journal_lines,
  validate_journal_lines_iff,
}
use nestjs_api_template.Ledger.Posting.{Balances, KeyedLine, ar_control}
use nestjs_api_template.Prelude.{
  Bool-cases, List, Option, Option-cases, Result-cases, String, [], ap, arith, false, inl, inr,
  none, ok, refl, some, suc, sym, ◌+◌, ◌∙◌, ◌∷◌, ◌≡◌, ◌≤◌, ◌⊎◌,
}
use nestjs_api_template.Prelude.Int.{
  add_zero, eq_of_sub, eqb_ℤ, int_laws, neg_parts, pos, same_sub, ◌+ℤ◌, ◌-ℤ◌, ◌<ℤ◌, ◌≤ℤ◌,
}
use nestjs_api_template.Prelude.Lists.{All, All-map, length, sum_by}

-- What holds of every line and is kept by merging and netting holds of the compacted lines.
module _ (P : KeyedLine → Type 0) (merged : (p l : KeyedLine) → P p → P (add_to p l))
    (netted : (l : KeyedLine) → P l → P (net_line l)) where
  merged_with-All :
      (o : Option KeyedLine) (l : KeyedLine)
      → ((p : KeyedLine) → o ≡ some p → P p)
      → P l
      → P (merged_with o l)
  unfolding merged_with
  merged_with-All none l h k = k
  merged_with-All (some p) l h k = merged p l (h p refl)

  merge_lines-All :
      (m : List (String × KeyedLine)) (ls : List KeyedLine)
      → All (λ e. P e.1) m
      → All P ls
      → All (λ e. P e.1) (merge_lines m ls)
  unfolding merge_lines
  merge_lines-All m [] h k = h
  merge_lines-All m (l ∷ ls) h k =
      let found = λ (p : KeyedLine) (e : Maps.get (merge_id l) m ≡ some p).
        Maps.get-All (λ e. P e.1) (merge_id l) m h e in
      merge_lines-All (Maps.put (merge_id l) (merged_with (Maps.get (merge_id l) m) l) m) ls
        (Maps.put-All (λ e. P e.1) (merge_id l) _ m
          (merged_with-All (Maps.get (merge_id l) m) l found k.0) h)
        k.1

  net_lines-All : (ls : List KeyedLine) → All P ls → All P (net_lines ls)
  unfolding net_lines
  net_lines-All [] h = tt
  net_lines-All (l ∷ ls) h = elim (Bool-cases (eqb_ℤ (net_of l) (pos 0))) [
    | inl e ↦ rw e (net_lines-All ls h.1)
    | inr e ↦ rw e (netted l h.0, net_lines-All ls h.1)
  ]

  compact-All : (ls : List KeyedLine) → All P ls → All P (compact_keyed_lines ls)
  unfolding compact_keyed_lines
  compact-All ls h = net_lines-All _ (
      All-map (λ e. P e.1) P (λ e. e.1) (λ e p. p) (merge_lines [] ls) (merge_lines-All [] ls tt h))

-- Exactly one side is above zero, the other is zero.
abbrev pub OneSided : KeyedLine → Type 0
OneSided l =
    (pos 0 ≤ℤ l.debit_minor)
    × (pos 0 ≤ℤ l.credit_minor)
    × ((pos 0 <ℤ l.debit_minor) × (l.credit_minor ≡ pos 0)
        ⊎ (pos 0 <ℤ l.credit_minor) × (l.debit_minor ≡ pos 0))

net_line-OneSided : (l : KeyedLine) → eqb_ℤ (net_of l) (pos 0) ≡ false → OneSided (net_line l)
unfolding net_line
net_line-OneSided l h = ground (arith, neg_parts (net_of l))

net_lines-OneSided : (ls : List KeyedLine) → All OneSided (net_lines ls)
unfolding net_lines
net_lines-OneSided [] = tt
net_lines-OneSided (l ∷ ls) = elim (Bool-cases (eqb_ℤ (net_of l) (pos 0))) [
  | inl e ↦ rw e (net_lines-OneSided ls)
  | inr e ↦ rw e (net_line-OneSided l e, net_lines-OneSided ls)
]

compact-OneSided : (ls : List KeyedLine) → All OneSided (compact_keyed_lines ls)
unfolding compact_keyed_lines
compact-OneSided ls = net_lines-OneSided _

length-put :
    (k : String) (v : KeyedLine) (m : List (String × KeyedLine))
    → length (Maps.put k v m) ≤ length m + 1
unfolding Maps.put
length-put k v [] = omega arith
length-put k v ((j, w) ∷ m) = ground (arith, length-put k v m)

length-values : (m : List (String × KeyedLine)) → length (Maps.values m) ≡ length m
length-values [] = refl
length-values (e ∷ m) = ap suc (length-values m)

length-merge_lines :
    (m : List (String × KeyedLine)) (ls : List KeyedLine)
    → length (Maps.values (merge_lines m ls)) ≤ length m + length ls
unfolding merge_lines
length-merge_lines m [] = omega (arith, length-values m)
length-merge_lines m (l ∷ ls) = omega (
  arith,
  length-merge_lines (Maps.put (merge_id l) (merged_with (Maps.get (merge_id l) m) l) m) ls,
  length-put (merge_id l) (merged_with (Maps.get (merge_id l) m) l) m,
)

length-net_lines : (ls : List KeyedLine) → length (net_lines ls) ≤ length ls
unfolding net_lines
length-net_lines [] = omega arith
length-net_lines (l ∷ ls) = ground (arith, length-net_lines ls)

length-compact : (ls : List KeyedLine) → length (compact_keyed_lines ls) ≤ length ls
unfolding compact_keyed_lines
length-compact ls =
    omega (arith, length-net_lines (Maps.values (merge_lines [] ls)), length-merge_lines [] ls)

-- The description of a line is short enough for a journal line.
abbrev pub Short : KeyedLine → Type 0
Short l = description_length l.description ≤ 200

-- The lines that keys are resolved to keep the amounts, in order, and the descriptions.
record Resolves (ls : List KeyedLine) (js : List JournalLineInput) : Type 0 where
  same_length : length js ≡ length ls
  same_debits : debits js ≡ sum_by (λ l. l.debit_minor) ls
  same_credits : credits js ≡ sum_by (λ l. l.credit_minor) ls
  are_lines : All IsLine js

resolve-Resolves :
    (company : String) (ls : List KeyedLine) (mappings : List (String × MappedAccount))
    {js : List JournalLineInput}
    → All OneSided ls
    → All Short ls
    → resolve_keyed_lines company ls mappings ≡ ok js
    → Resolves ls js
unfolding resolve_keyed_lines
resolve-Resolves company [] mappings {js} h k e =
    let same : js ≡ [] = ground arith in
    rw same (record { same_length = refl; same_debits = refl; same_credits = refl; are_lines = tt })
resolve-Resolves company (l ∷ ls) mappings {js} h k e =
    elim (Option-cases (Maps.get (key_text l.account_key) mappings)) [
      | inl missing ↦ absurd (ground arith)
      | inr (m, found) ↦ elim (Result-cases (resolve_keyed_lines company ls mappings)) [
        | inr (x, bad) ↦ absurd (ground arith)
        | inl (rest, fine) ↦
            let r = resolve-Resolves company ls mappings h.1 k.1 fine in
            let same : js ≡ resolved_line m l ∷ rest = ground arith in
            let (debit, credit, sides) = h.0 in
            rw same (record {
              same_length = ap suc r.same_length;
              same_debits = ap (λ x. l.debit_minor +ℤ x) r.same_debits;
              same_credits = ap (λ x. l.credit_minor +ℤ x) r.same_credits;
              are_lines = (
                record {
                  debit_nonneg = debit;
                  credit_nonneg = credit;
                  one_sided = sides;
                  short = k.0;
                },
                r.are_lines,
              );
            })
      ]
    ]

sums_of_net :
    (ls : List KeyedLine)
    → sum_by net_of ls ≡ sum_by (λ l. l.debit_minor) ls -ℤ sum_by (λ l. l.credit_minor) ls
sums_of_net [] = omega int_laws
sums_of_net (l ∷ ls) = rw (sums_of_net ls) (omega int_laws)

lone_line_unbalanced : (j : JournalLineInput) → IsLine j → debits (j ∷ []) ≡ credits (j ∷ []) → ⊥
lone_line_unbalanced j h e =
    let same : j.debit_minor ≡ j.credit_minor =
      sym (add_zero j.debit_minor) ∙ e ∙ add_zero j.credit_minor in
    elim (h.one_sided) [
      | inl (above, zero) ↦ absurd (ground arith)
      | inr (above, zero) ↦ absurd (ground arith)
    ]

-- Lines that are one-sided and balance are none, or at least two.
accepted_lines :
    (js : List JournalLineInput)
    → length js ≤ 500
    → All IsLine js
    → debits js ≡ credits js
    → (js ≡ [])
      ⊎ (validate_journal_lines js
          ≡ ok (record { total_debit_minor = debits js; total_credit_minor = debits js }))
accepted_lines [] few h e = inl refl
accepted_lines (j ∷ []) few h e = absurd (lone_line_unbalanced j h.0 e)
accepted_lines (i ∷ j ∷ js) few h e = inr (
    (validate_journal_lines_iff (i ∷ j ∷ js)).1 (
      omega arith,
      few,
      h,
      e,
      ap (λ x. record { total_debit_minor = debits (i ∷ j ∷ js); total_credit_minor = x }) e,
    ))

nil_of_length : (ls : List KeyedLine) → length ls ≡ 0 → ls ≡ []
nil_of_length [] h = refl
nil_of_length (l ∷ ls) h = absurd (omega (arith, h))

-- Keyed lines whose debits are their credits, at most 500 and with short descriptions, either cancel
-- out entirely, or give an entry's lines that are accepted, with equal totals, once every key of
-- theirs has an account.
pub posting_is_accepted :
    (company : String) (lines : List KeyedLine) (mappings : List (String × MappedAccount))
    {js : List JournalLineInput}
    → Balances lines
    → All Short lines
    → length lines ≤ 500
    → resolve_keyed_lines company (compact_keyed_lines lines) mappings ≡ ok js
    → (compact_keyed_lines lines ≡ [])
      ⊎ (validate_journal_lines js
          ≡ ok (record { total_debit_minor = debits js; total_credit_minor = debits js }))
unfolding add_to net_line
posting_is_accepted company lines mappings {js} balance short few resolved =
    let ks = compact_keyed_lines lines in
    let r =
      resolve-Resolves company ks mappings (compact-OneSided lines)
        (compact-All Short (λ p l h. h) (λ l h. h) lines short) resolved in
    let zero : sum_by net_of ks ≡ pos 0 =
      (compact_keeps_net lines ar_control).0 ∙ sums_of_net lines ∙ same_sub balance in
    let even : debits js ≡ credits js =
      r.same_debits ∙ eq_of_sub (sym (sums_of_net ks) ∙ zero) ∙ sym r.same_credits in
    elim (accepted_lines js (omega (arith, r.same_length, length-compact lines)) r.are_lines even) [
      | inl none_left ↦ inl (nil_of_length ks (sym r.same_length ∙ ap length none_left))
      | inr fine ↦ inr fine
    ]
