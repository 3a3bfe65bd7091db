-- ===== src/Ledger/CompactLaws.antt =====
-- What the lines say of each account, before and after compaction.
use nestjs_api_template.Prelude.Maps
use nestjs_api_template.Ledger.Compact.{
  add_to, compact_keyed_lines, key_text, merge_id, merge_lines, merged_with, net_line, net_lines,
  net_of,
}
use nestjs_api_template.Ledger.Posting.{
  AccountKey, KeyedLine, ap_control, ar_control, bank, cash, cogs, grni, input_vat,
  inventory_adjustment, inventory_key, output_vat, purchase_expense, retained_earnings,
  sales_revenue, wht_payable, wht_receivable,
}
use nestjs_api_template.Prelude.{
  Bool, Bool-cases, List, Option-cases, String, [], ap, arith, code, if◌then◌else◌, inl, inr, not,
  refl, sym, true, ◌&&◌, ◌==◌, ◌∙◌, ◌∷◌, ◌≡◌,
}
use nestjs_api_template.Prelude.Int.{
  +ℤ_assoc, eq_of_parts, eqb_ℤ, int_laws, neg_part, pos, pos_part, ℤ, ◌+ℤ◌,
}
use nestjs_api_template.Prelude.Lists.{All, sum_by}
use nestjs_api_template.Prelude.Text.{append, cons-append, nil-append, str_eq}

-- Every entry of the map stands under its own line's key.
abbrev pub Keyed : List (String × KeyedLine) → Type 0
Keyed = All (λ p. merge_id p.1 ≡ p.0)

cancel : (x a s b : ℤ) → x +ℤ a ≡ s +ℤ (a +ℤ b) → x ≡ s +ℤ b
cancel x a s b e = eq_of_parts x (s +ℤ b) (omega (int_laws, ap pos_part e, ap neg_part e))

module _ (f : KeyedLine → ℤ)
    (additive : (p l : KeyedLine) → merge_id p ≡ merge_id l → f (add_to p l) ≡ f p +ℤ f l) where
  merged_with-Keyed :
      (m : List (String × KeyedLine)) (l : KeyedLine)
      → Keyed m
      → (merge_id (merged_with (Maps.get (merge_id l) m) l) ≡ merge_id l)
        × (f (merged_with (Maps.get (merge_id l) m) l)
            ≡ Maps.old_value f (Maps.get (merge_id l) m) +ℤ f l)
  unfolding merged_with merge_id
  merged_with-Keyed m l h = elim (Option-cases (Maps.get (merge_id l) m)) [
    | inl e ↦ rw e (refl, omega int_laws)
    | inr (prev, e) ↦
        let same : merge_id prev ≡ merge_id l = Maps.get-All _ (merge_id l) m h e in
        rw e (same, additive prev l same)
  ]

  merge_lines_lem :
      (m : List (String × KeyedLine)) (ls : List KeyedLine)
      → Keyed m
      → Keyed (merge_lines m ls)
        × (sum_by f (Maps.values (merge_lines m ls)) ≡ sum_by f (Maps.values m) +ℤ sum_by f ls)
  unfolding merge_lines
  merge_lines_lem m [] h = (h, omega int_laws)
  merge_lines_lem m (l ∷ ls) h =
      let (same, gained) = merged_with-Keyed m l h in
      let merged = merged_with (Maps.get (merge_id l) m) l in
      let kept = Maps.put-All _ (merge_id l) merged m same h in
      let (keyed, rest) = merge_lines_lem (Maps.put (merge_id l) merged m) ls kept in
      let old = Maps.old_value f (Maps.get (merge_id l) m) in
      let one : sum_by f (Maps.values (Maps.put (merge_id l) merged m))
          ≡ sum_by f (Maps.values m) +ℤ f l =
        cancel _ old _ (f l) (
          Maps.sum_by-put f (merge_id l) merged m
          ∙ ap (λ x. sum_by f (Maps.values m) +ℤ x) gained) in
      (keyed, rest ∙ ap (λ x. x +ℤ sum_by f ls) one ∙ +ℤ_assoc _ (f l) (sum_by f ls))

  module _ (netted : (l : KeyedLine) → f (net_line l) ≡ f l)
      (nothing : (l : KeyedLine) → eqb_ℤ (net_of l) (pos 0) ≡ true → f l ≡ pos 0) where
    net_lines_sum : (ls : List KeyedLine) → sum_by f (net_lines ls) ≡ sum_by f ls
    unfolding net_lines
    net_lines_sum [] = refl
    net_lines_sum (l ∷ ls) = elim (Bool-cases (eqb_ℤ (net_of l) (pos 0))) [
      | inl e ↦ rw (e, nothing l e, net_lines_sum ls) (omega int_laws)
      | inr e ↦ rw (e, netted l, net_lines_sum ls)
    ]

    pub compact_sum : (ls : List KeyedLine) → sum_by f (compact_keyed_lines ls) ≡ sum_by f ls
    unfolding compact_keyed_lines
    compact_sum ls =
        net_lines_sum (Maps.values (merge_lines [] ls))
        ∙ (merge_lines_lem [] ls tt).1
        ∙ omega int_laws

-- The net_of amount of a line if it is on this account key.
abbrev pub net_on : AccountKey → KeyedLine → ℤ
net_on k l = if str_eq (key_text l.account_key) (key_text k) then net_of l else pos 0

-- A text up to its first bar.
before_bar : String → String
before_bar String.[] = String.[]
before_bar (String.◌∷◌ c s) =
    let rest = before_bar s in if code c == b'|' then String.[] else String.◌∷◌ c rest

no_bar : String → Bool
no_bar String.[] = true
no_bar (String.◌∷◌ c s) = not (code c == b'|') && no_bar s

before_bar-append : (t s : String) → no_bar t ≡ true → before_bar (append t (append "|" s)) ≡ t
unfolding before_bar no_bar
before_bar-append String.[] s h = rw (nil-append (append "|" s), cons-append "|" "" s) refl
before_bar-append (String.◌∷◌ c t) s h =
    rw (cons-append c t (append "|" s)) (ground (arith, before_bar-append t s))

-- No key's text holds a bar.
no_bar-key_text : (k : AccountKey) → no_bar (key_text k) ≡ true
unfolding no_bar key_text
no_bar-key_text ar_control = refl
no_bar-key_text ap_control = refl
no_bar-key_text output_vat = refl
no_bar-key_text input_vat = refl
no_bar-key_text wht_payable = refl
no_bar-key_text wht_receivable = refl
no_bar-key_text sales_revenue = refl
no_bar-key_text purchase_expense = refl
no_bar-key_text cash = refl
no_bar-key_text bank = refl
no_bar-key_text inventory_key = refl
no_bar-key_text cogs = refl
no_bar-key_text grni = refl
no_bar-key_text inventory_adjustment = refl
no_bar-key_text retained_earnings = refl

before_bar-key_text :
    (k : AccountKey) (s : String) → before_bar (append (key_text k) (append "|" s)) ≡ key_text k
before_bar-key_text k s = before_bar-append (key_text k) s (no_bar-key_text k)

-- Lines that are merged have one account key, whatever their other texts hold.
merge_id_same_key :
    (p l : KeyedLine) → merge_id p ≡ merge_id l → key_text p.account_key ≡ key_text l.account_key
unfolding merge_id
merge_id_same_key p l e =
    sym (before_bar-key_text p.account_key _)
    ∙ ap before_bar e
    ∙ before_bar-key_text l.account_key _

net_of-add_to : (p l : KeyedLine) → net_of (add_to p l) ≡ net_of p +ℤ net_of l
unfolding add_to
net_of-add_to p l = omega int_laws

net_of-net_line : (l : KeyedLine) → net_of (net_line l) ≡ net_of l
unfolding net_line
net_of-net_line l = grind int_laws

net_of-zero : (l : KeyedLine) → eqb_ℤ (net_of l) (pos 0) ≡ true → net_of l ≡ pos 0
net_of-zero l h = ground arith

net_on-add_to :
    (k : AccountKey) (p l : KeyedLine)
    → merge_id p ≡ merge_id l
    → net_on k (add_to p l) ≡ net_on k p +ℤ net_on k l
unfolding add_to
net_on-add_to k p l e = elim (Bool-cases (str_eq (key_text l.account_key) (key_text k))) [
  | inl t ↦ rw (merge_id_same_key p l e, t) (net_of-add_to p l)
  | inr t ↦ rw (merge_id_same_key p l e, t) (omega int_laws)
]

net_on-net_line : (k : AccountKey) (l : KeyedLine) → net_on k (net_line l) ≡ net_on k l
unfolding net_line
net_on-net_line k l = elim (Bool-cases (str_eq (key_text l.account_key) (key_text k))) [
  | inl t ↦ rw t (net_of-net_line l)
  | inr t ↦ rw t
]

net_on-zero :
    (k : AccountKey) (l : KeyedLine) → eqb_ℤ (net_of l) (pos 0) ≡ true → net_on k l ≡ pos 0
net_on-zero k l h = elim (Bool-cases (str_eq (key_text l.account_key) (key_text k))) [
  | inl t ↦ rw t (net_of-zero l h)
  | inr t ↦ rw t
]

-- Compaction keeps the sum of debits less credits, of all lines and of each account key.
pub compact_keeps_net :
    (lines : List KeyedLine) (k : AccountKey)
    → (sum_by net_of (compact_keyed_lines lines) ≡ sum_by net_of lines)
      × (sum_by (net_on k) (compact_keyed_lines lines) ≡ sum_by (net_on k) lines)
compact_keeps_net lines k = (
  compact_sum net_of (λ p l _. net_of-add_to p l) net_of-net_line net_of-zero lines,
  compact_sum (net_on k) (net_on-add_to k) (net_on-net_line k) (net_on-zero k) lines,
)
