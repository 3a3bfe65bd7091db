-- ===== src/Shared/Built.antt =====
-- The lines that `build_document_lines` accepts, and the document's total.
use nestjs_api_template.Shared.Money
use nestjs_api_template.Prelude.{
  Bool-cases, List, Result, Result-cases, String, [], arith, false, inl, inr, map, ok, refl, suc, ℕ,
  ◌+◌, ◌-◌, ◌∙◌, ◌∷◌, ◌≡◌, ◌≤◌,
}
use nestjs_api_template.Prelude.Int.{int_laws, pos, ◌+ℤ◌, ◌-ℤ◌}
use nestjs_api_template.Prelude.Lists.{All, All-both, Pairs, any, length, sum_by}
use nestjs_api_template.Prelude.Text.{Unicode, str_eq}
use nestjs_api_template.Shared.Line.{
  DocumentError, DocumentLineInput, DocumentLineSnapshot, DocumentTotals, build_document_lines,
  check_unique_ids, compute_document_line, compute_document_totals, map_lines,
}
use nestjs_api_template.Shared.LineAmounts.{Amounts, compute_document_line-Amounts}
use nestjs_api_template.Shared.Money.{Money}
use nestjs_api_template.Shared.Totals.{LineAddsUp, compute_document_totals_lem, totals_of_lines}

add_up : (g d x : ℕ) → d ≤ g → pos (g - d + x) ≡ pos g -ℤ pos d +ℤ pos x
add_up g d x h = omega int_laws

line_adds_up :
    (l : DocumentLineInput) (n : ℕ) (s : DocumentLineSnapshot) → Amounts l n s → LineAddsUp s
line_adds_up l n s a =
    rw
      (
        a.total_minor_is, a.unit_price_is, a.quantity_is, a.gross_is, a.discount_minor_is,
        a.tax_minor_is,
      )
      (add_up a.gross a.discount a.tax a.discount_le_gross)

-- The lines that were built, one by one with their inputs and indices.
abbrev pub Zip : {A B : Type 0} → (A → ℕ → B → Type 0) → ℕ → List A → List B → Type 0
Zip R i [] [] = Unit
Zip R i [] (y ∷ ys) = ⊥
Zip R i (x ∷ xs) [] = ⊥
Zip R i (x ∷ xs) (y ∷ ys) = R x i y × Zip R (suc i) xs ys

map_lines-Zip :
    {A B : Type 0} (f : A → ℕ → Result DocumentError B) (R : A → ℕ → B → Type 0)
    → ((x : A) (i : ℕ) (y : B) → f x i ≡ ok y → R x i y)
    → (i : ℕ) (xs : List A) {ys : List B} → map_lines f i xs ≡ ok ys
    → Zip R i xs ys
unfolding map_lines
map_lines-Zip f R k i [] {ys = []} h = tt
map_lines-Zip f R k i [] {ys = y ∷ ys} h = absurd (ground arith)
map_lines-Zip f R k i (x ∷ xs) {ys} h = elim (Result-cases (f x i)) [
  | inr (e, e1) ↦ absurd (ground arith)
  | inl (y, e1) ↦ elim (Result-cases (map_lines f (suc i) xs)) [
    | inr (e, e2) ↦ absurd (ground arith)
    | inl (rest, e2) ↦
        let same : ys ≡ y ∷ rest = ground arith in
        rw same (k x i y e1, map_lines-Zip f R k (suc i) xs e2)
  ]
]

pub Zip-All :
    {A B : Type 0} (R : A → ℕ → B → Type 0) (P : B → Type 0)
    → ((x : A) (i : ℕ) (y : B) → R x i y → P y)
    → (i : ℕ) (xs : List A) (ys : List B) → Zip R i xs ys
    → All P ys
Zip-All R P k i [] [] z = tt
Zip-All R P k i [] (y ∷ ys) z = absurd z
Zip-All R P k i (x ∷ xs) [] z = absurd z
Zip-All R P k i (x ∷ xs) (y ∷ ys) z = (k x i y z.0, Zip-All R P k (suc i) xs ys z.1)

-- A field that is kept on every line.
pub Zip-map :
    {A B C : Type 0} (R : A → ℕ → B → Type 0) (f : A → C) (g : B → C)
    → ((x : A) (i : ℕ) (y : B) → R x i y → g y ≡ f x)
    → (i : ℕ) (xs : List A) (ys : List B) → Zip R i xs ys
    → map g ys ≡ map f xs
Zip-map R f g k i [] [] z = refl
Zip-map R f g k i [] (y ∷ ys) z = absurd z
Zip-map R f g k i (x ∷ xs) [] z = absurd z
Zip-map R f g k i (x ∷ xs) (y ∷ ys) z = rw (k x i y z.0, Zip-map R f g k (suc i) xs ys z.1) refl

-- No id is used twice, nor is one of those given.
abbrev pub AreFresh : List String → List DocumentLineInput → Type 0
AreFresh ids [] = Unit
AreFresh ids (l ∷ ls) = (any (str_eq l.id) ids ≡ false) × AreFresh (l.id ∷ ids) ls

AreFresh-any :
    (ids : List String) (ls : List DocumentLineInput)
    → AreFresh ids ls
    → All (λ l. any (str_eq l.id) ids ≡ false) ls
AreFresh-any ids [] h = tt
AreFresh-any ids (l ∷ ls) h = (
  h.0,
  All-both (λ x a b. ground (arith, a)) ls (AreFresh-any (l.id ∷ ids) ls h.1)
      (AreFresh-any (l.id ∷ ids) ls h.1),
)

-- No id is that of an earlier line.
pub AreFresh-Pairs :
    (ids : List String) (ls : List DocumentLineInput)
    → AreFresh ids ls
    → Pairs (λ l k. str_eq k.id l.id ≡ false) ls
AreFresh-Pairs ids [] h = tt
AreFresh-Pairs ids (l ∷ ls) h = (
  All-both (λ x a b. ground (arith, a)) ls (AreFresh-any (l.id ∷ ids) ls h.1)
      (AreFresh-any (l.id ∷ ids) ls h.1),
  AreFresh-Pairs (l.id ∷ ids) ls h.1,
)

check_unique_ids-AreFresh :
    (ids : List String) (ls : List DocumentLineInput)
    → check_unique_ids ids ls ≡ ok tt
    → AreFresh ids ls
unfolding check_unique_ids
check_unique_ids-AreFresh ids [] h = tt
check_unique_ids-AreFresh ids (l ∷ ls) h = elim (Bool-cases (any (str_eq l.id) ids)) [
  | inl e ↦ absurd (ground arith)
  | inr e ↦ (e, check_unique_ids-AreFresh (l.id ∷ ids) ls (ground arith))
]

-- The lines of a document that is accepted: at most 500, no id twice, numbered from 1 in the order
-- given, each with the amounts of its input.
pub build_document_lines-Zip :
    ⦃u : Unicode⦄ (inputs : List DocumentLineInput) (currency : String)
    {lines : List DocumentLineSnapshot}
    → build_document_lines inputs currency ≡ ok lines
    → (length inputs ≤ 500) × AreFresh [] inputs × Zip (λ l i s. Amounts l (i + 1) s) 0 inputs lines
unfolding build_document_lines
build_document_lines-Zip inputs currency h = elim (Result-cases (check_unique_ids [] inputs)) [
  | inr (e, e1) ↦ absurd (ground arith)
  | inl (tt, e1) ↦ (
    ground arith,
    check_unique_ids-AreFresh [] inputs (ground arith),
    map_lines-Zip (λ l i. compute_document_line l currency (i + 1)) (λ l i s. Amounts l (i + 1) s)
        (λ l i s e. compute_document_line-Amounts l currency (i + 1) e) 0 inputs (ground arith),
  )
]

total_of :
    {r : Result DocumentError DocumentTotals} {x y : DocumentTotals}
    → r ≡ ok x
    → r ≡ ok y
    → y.total_minor ≡ x.total_minor
total_of p q = cc

-- The total of a document is the sum of the totals of its lines, whatever was rounded on each.
document_total_is_sum_of_lines :
    ⦃u : Unicode⦄ (inputs : List DocumentLineInput) (currency : String) {z : Money}
    {lines : List DocumentLineSnapshot} {t : DocumentTotals}
    → Money.zero_of currency ≡ ok z
    → build_document_lines inputs currency ≡ ok lines
    → compute_document_totals lines currency ≡ ok t
    → t.total_minor ≡ sum_by (λ l. l.total_minor) lines
document_total_is_sum_of_lines inputs currency {lines = lines} v b h =
    let (_, _, zipped) = build_document_lines-Zip inputs currency b in
    let adds =
      Zip-All (λ l i s. Amounts l (i + 1) s) LineAddsUp (λ l i s a. line_adds_up l (i + 1) s a) 0
        inputs lines zipped in
    total_of (compute_document_totals_lem lines currency v) h ∙ totals_of_lines lines adds
