-- ===== src/Payable/Match.antt =====
-- three-way-match.ts: the lines of an invoice against the purchase order and what was received.
use nestjs_api_template.Prelude.{
  Bool, Bool-cases, List, Option, Option-cases, String, [], arith, false, if◌then◌else◌, inl, inr,
  none, refl, some, true, ◌++◌, ◌||◌, ◌↔◌, ◌∙◌, ◌∷◌, ◌≡◌, ◌≢◌,
}
use nestjs_api_template.Prelude.Int.{
  +ℤ_parts, int_laws, ltb_ℤ, neg, neg_parts, pos, ℤ, ◌*ℤ◌, ◌+ℤ◌, ◌-ℤ◌, ◌/ℤ◌, ◌≤ℤ◌, -ℤ_parts,
}
use nestjs_api_template.Prelude.Lists.{All, any}

pub data MatchStatus : Type 0 where
  matched : MatchStatus
  variance : MatchStatus
  unmatched : MatchStatus

-- What is known of the line of the purchase order.
pub record PurchaseLine : Type 0 where
  pub ordered_qty : ℤ
  pub unit_price_minor : ℤ
  pub received_qty : ℤ
  pub already_invoiced_qty : ℤ

pub record MatchLineInput : Type 0 where
  pub line_ref : String
  pub invoiced_qty : ℤ
  pub invoiced_unit_price_minor : ℤ
  pub po : Option PurchaseLine

-- An issue, with the values that its text shows.
pub data MatchIssue : Type 0 where
  over_invoiced : String → ℤ → ℤ → MatchIssue
  price_off : String → ℤ → ℤ → ℤ → MatchIssue
  no_order : MatchIssue

pub record MatchResult : Type 0 where
  pub status : MatchStatus
  pub issues : List MatchIssue

abbrev pub default_price_tolerance_bp : ℤ
default_price_tolerance_bp = pos 100

abbrev pub open_qty : PurchaseLine → ℤ
open_qty p = p.received_qty -ℤ p.already_invoiced_qty

abbrev pub price_gap : MatchLineInput → PurchaseLine → ℤ
price_gap l p =
    let diff = l.invoiced_unit_price_minor -ℤ p.unit_price_minor in
    if ltb_ℤ diff (pos 0) then neg diff else diff

abbrev pub price_allowed : ℤ → PurchaseLine → ℤ
price_allowed tolerance_bp p = p.unit_price_minor *ℤ tolerance_bp /ℤ pos 10000

-- The issues of a line that is tied to an order.
unfoldable pub line_issues : ℤ → MatchLineInput → PurchaseLine → List MatchIssue
line_issues tolerance_bp l p =
    (if ltb_ℤ (open_qty p) l.invoiced_qty
      then over_invoiced l.line_ref l.invoiced_qty (open_qty p) ∷ []
      else [])
    ++ (if ltb_ℤ (price_allowed tolerance_bp p) (price_gap l p)
        then price_off l.line_ref l.invoiced_unit_price_minor p.unit_price_minor
            (price_allowed tolerance_bp p)
          ∷ []
        else [])

-- The loop: the issues so far, and whether any line is tied to an order.
unfoldable pub match_loop :
    ℤ → List MatchIssue → Bool → List MatchLineInput → List MatchIssue × Bool
unfolding line_issues
match_loop tolerance_bp issues any_po [] = (issues, any_po)
match_loop tolerance_bp issues any_po (l ∷ rest) = elim l.po [
  | none ↦ match_loop tolerance_bp issues any_po rest
  | some p ↦ match_loop tolerance_bp (issues ++ line_issues tolerance_bp l p) true rest
]

abbrev pub is_nil : List MatchIssue → Bool
is_nil [] = true
is_nil (x ∷ xs) = false

unfoldable pub three_way_match : List MatchLineInput → ℤ → MatchResult
unfolding match_loop
three_way_match lines tolerance_bp =
    let (issues, any_po) = match_loop tolerance_bp [] false lines in
    if any_po
    then record { status = if is_nil issues then matched else variance; issues = issues }
    else record { status = unmatched; issues = no_order ∷ [] }

-- What the line bills and what was billed before are within what was received, and its price is off
-- by at most the tolerance, in basis points of the price of the order.
abbrev pub Fits : ℤ → MatchLineInput → PurchaseLine → Type 0
Fits tolerance_bp l p =
    (l.invoiced_qty +ℤ p.already_invoiced_qty ≤ℤ p.received_qty)
    × (l.invoiced_unit_price_minor -ℤ p.unit_price_minor
        ≤ℤ p.unit_price_minor *ℤ tolerance_bp /ℤ pos 10000)
    × (p.unit_price_minor -ℤ l.invoiced_unit_price_minor
        ≤ℤ p.unit_price_minor *ℤ tolerance_bp /ℤ pos 10000)

-- What is asked of a line: nothing, if it is not tied to an order.
abbrev pub FitsOrder : ℤ → MatchLineInput → Option PurchaseLine → Type 0
FitsOrder tolerance_bp l none = Unit {0}
FitsOrder tolerance_bp l (some p) = Fits tolerance_bp l p

abbrev pub AllFit : ℤ → List MatchLineInput → Type 0
AllFit tolerance_bp = All (λ l. FitsOrder tolerance_bp l l.po)

abbrev pub is_tied : MatchLineInput → Bool
is_tied l = elim l.po [ none ↦ false | some p ↦ true ]

abs_iff :
    (diff t : ℤ)
    → (ltb_ℤ t (if ltb_ℤ diff (pos 0) then neg diff else diff) ≡ false)
      ↔ ((diff ≤ℤ t) × (neg diff ≤ℤ t))
abs_iff diff t = elim (Bool-cases (ltb_ℤ diff (pos 0))) [
  | inl e ↦ rw e (λ h. ground (arith, neg_parts diff), λ h. ground (arith, neg_parts diff))
  | inr e ↦ rw e (λ h. ground (arith, neg_parts diff), λ h. ground (arith, neg_parts diff))
]

gap_iff :
    (l : MatchLineInput) (p : PurchaseLine) (t : ℤ)
    → (ltb_ℤ t (price_gap l p) ≡ false) ↔ (
        (l.invoiced_unit_price_minor -ℤ p.unit_price_minor ≤ℤ t)
        × (p.unit_price_minor -ℤ l.invoiced_unit_price_minor ≤ℤ t))
gap_iff l p t =
    let diff = l.invoiced_unit_price_minor -ℤ p.unit_price_minor in
    let back : p.unit_price_minor -ℤ l.invoiced_unit_price_minor ≡ neg diff = omega int_laws in
    rw back (abs_iff diff t)

open_iff : (q r a : ℤ) → (ltb_ℤ (r -ℤ a) q ≡ false) ↔ (q +ℤ a ≤ℤ r)
open_iff q r a = (
  λ h. ground (arith, +ℤ_parts q a, -ℤ_parts r a),
  λ h. ground (arith, +ℤ_parts q a, -ℤ_parts r a),
)

line_issues_iff :
    (t : ℤ) (l : MatchLineInput) (p : PurchaseLine) → (line_issues t l p ≡ []) ↔ Fits t l p
unfolding line_issues
line_issues_iff t l p =
    let (to, from) = gap_iff l p (price_allowed t p) in
    let (fits, open_to) = open_iff l.invoiced_qty p.received_qty p.already_invoiced_qty in
    elim (Bool-cases (ltb_ℤ (open_qty p) l.invoiced_qty)) [
      | inl e ↦ rw e (λ h. cc, λ f. absurd (ground (arith, open_to f.0)))
      | inr e ↦ elim (Bool-cases (ltb_ℤ (price_allowed t p) (price_gap l p))) [
        | inl g ↦ rw (e, g) (λ h. cc, λ f. absurd (ground (arith, from (f.1, f.2))))
        | inr g ↦ rw (e, g) (λ h. let (above, below) = to g in (fits e, above, below), λ f. refl)
      ]
    ]

append_nil_parts {ℓ} : {A : Type ℓ} (xs ys : List A) → xs ++ ys ≡ [] → (xs ≡ []) × (ys ≡ [])
append_nil_parts [] ys h = (refl, h)
append_nil_parts (x ∷ xs) ys h = cc

-- The issues at the end are none exactly when there were none before and every line fits.
match_loop_iff :
    (t : ℤ) (issues : List MatchIssue) (any_po : Bool) (lines : List MatchLineInput)
    → ((match_loop t issues any_po lines).0 ≡ []) ↔ ((issues ≡ []) × AllFit t lines)
unfolding match_loop
match_loop_iff t issues any_po [] = (λ h. (h, tt), λ h. h.0)
match_loop_iff t issues any_po (l ∷ rest) = elim (Option-cases l.po) [
  | inl e ↦
      let (to, from) = match_loop_iff t issues any_po rest in
      rw e (λ h. ((to h).0, (tt, (to h).1)), λ h. from (h.0, h.1.1))
  | inr (p, e) ↦
      let (to, from) = match_loop_iff t (issues ++ line_issues t l p) true rest in
      rw e (
        λ h.
            let (before, now) = append_nil_parts issues (line_issues t l p) (to h).0 in
            (before, ((line_issues_iff t l p).0 now, (to h).1)),
        λ h. from (rw (h.0, (line_issues_iff t l p).1 h.1.0) refl, h.1.1),
      )
]

match_loop-any :
    (t : ℤ) (issues : List MatchIssue) (any_po : Bool) (lines : List MatchLineInput)
    → (match_loop t issues any_po lines).1 ≡ (any_po || any is_tied lines)
unfolding match_loop
match_loop-any t issues any_po [] = ground arith
match_loop-any t issues any_po (l ∷ rest) = elim (Option-cases l.po) [
  | inl e ↦ rw e (match_loop-any t issues any_po rest)
  | inr (p, e) ↦ rw e (match_loop-any t (issues ++ line_issues t l p) true rest ∙ ground arith)
]

matched_nil :
    (issues : List MatchIssue)
    → (if is_nil issues then matched else variance) ≡ matched
    → issues ≡ []
matched_nil [] h = refl
matched_nil (x ∷ xs) h = absurd (ground arith)

not_unmatched :
    (issues : List MatchIssue) → (if is_nil issues then matched else variance) ≢ unmatched
not_unmatched [] h = ground arith
not_unmatched (x ∷ xs) h = ground arith

-- At any price tolerance, an invoice is matched exactly when some line of it is tied to a purchase
-- order and each such line, taken by itself, bills with what was invoiced before at most what was
-- received, at a price that is off by at most the tolerance; it is unmatched exactly when no line is
-- tied to one.
pub three_way_match_iff :
    (lines : List MatchLineInput) (t : ℤ)
    → (((three_way_match lines t).status ≡ matched) ↔ ((any is_tied lines ≡ true) × AllFit t lines))
      × (((three_way_match lines t).status ≡ unmatched) ↔ (any is_tied lines ≡ false))
unfolding three_way_match
three_way_match_iff lines t =
    let tied = match_loop-any t [] false lines in
    let (to, from) = match_loop_iff t [] false lines in
    elim (Bool-cases (any is_tied lines)) [
      | inr e ↦ rw (tied, e) ((λ h. absurd (cc), λ h. cc), (λ h. refl, λ h. refl))
      | inl e ↦
          rw (tied, e)
            (
              (λ h. (refl, (to (matched_nil _ h)).1), λ h. rw (from (refl, h.1)) refl),
              (λ h. absurd (not_unmatched _ h), λ h. cc),
            )
    ]
