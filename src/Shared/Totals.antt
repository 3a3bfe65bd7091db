-- ===== src/Shared/Totals.antt =====
-- The totals of a document against its lines.
use nestjs_api_template.Shared.Money
use nestjs_api_template.Prelude.{
  List, Result, String, [], ap, arith, map, map_err, ok, refl, suc, ℕ, ◌>>=◌, ◌∙◌, ◌∷◌, ◌≡◌,
}
use nestjs_api_template.Prelude.Int.{int_laws, pos, ℤ, ◌*ℤ◌, ◌+ℤ◌, ◌-ℤ◌}
use nestjs_api_template.Prelude.Lists.{All, sum_by}
use nestjs_api_template.Prelude.Text.{Unicode, eq_iff}
use nestjs_api_template.Shared.Line.{
  DocumentError, DocumentLineSnapshot, compute_document_totals, document_money, map_lines,
}
use nestjs_api_template.Shared.Money.{Money}

-- A list of money, all of one currency, sums to the sum of its amounts.
abbrev AllIn : String → List Money → Type 0
AllIn c = All (λ m. m.currency ≡ c)

add_same :
    (a b : Money) (c : String)
    → a.currency ≡ c
    → b.currency ≡ c
    → Money.add a b ≡ ok (record { amount = a.amount +ℤ b.amount; currency = c })
unfolding Money.add
add_same a b c ea eb = ground (arith, eq_iff a.currency b.currency)

subtract_same :
    (a b : Money) (c : String)
    → a.currency ≡ c
    → b.currency ≡ c
    → Money.subtract a b ≡ ok (record { amount = a.amount -ℤ b.amount; currency = c })
unfolding Money.subtract
subtract_same a b c ea eb = ground (arith, eq_iff a.currency b.currency)

add_zero : (a : ℤ) → a +ℤ pos 0 ≡ a
add_zero a = omega int_laws

add_assoc : (a b c : ℤ) → a +ℤ b +ℤ c ≡ a +ℤ (b +ℤ c)
add_assoc a b c = omega int_laws

sum_from_lem :
    (acc : Money) (ms : List Money) (c : String)
    → acc.currency ≡ c
    → AllIn c ms
    → Money.sum_money_from acc ms
      ≡ ok (record { amount = acc.amount +ℤ sum_by (λ m. m.amount) ms; currency = c })
unfolding Money.sum_money_from
sum_from_lem acc [] c e h = ground (arith, add_zero acc.amount)
sum_from_lem acc (m ∷ ms) c e h = rw (add_same acc m c e h.0) (
    sum_from_lem (record { amount = acc.amount +ℤ m.amount; currency = c }) ms c refl h.1
    ∙ rw (add_assoc acc.amount m.amount (sum_by (λ x. x.amount) ms)))

zero_add : (a : ℤ) → pos 0 +ℤ a ≡ a
zero_add a = omega int_laws

AllIn-map :
    {A : Type 0} (c : String) (g : A → Money)
    → ((x : A) → (g x).currency ≡ c)
    → (xs : List A) → AllIn c (map g xs)
AllIn-map c g e [] = tt
AllIn-map c g e (x ∷ xs) = (e x, AllIn-map c g e xs)

sum_by-map :
    {A : Type 0} (f : A → ℤ) (g : A → Money)
    → ((x : A) → (g x).amount ≡ f x)
    → (xs : List A) → sum_by (λ m. m.amount) (map g xs) ≡ sum_by f xs
sum_by-map f g e [] = refl
sum_by-map f g e (x ∷ xs) = rw (e x, sum_by-map f g e xs)

module _ ⦃u : Unicode⦄ (currency : String) {z : Money} (valid : Money.zero_of currency ≡ ok z) where
  of_valid : (v : ℤ) → Money.of v currency ≡ ok (record { amount = v; currency = z.currency })
  unfolding Money.of Money.zero_of
  of_valid v = ground arith

  zero_amount : z.amount ≡ pos 0
  unfolding Money.of Money.zero_of
  zero_amount = ground arith

  -- The sum of what a function makes of each line.
  sum_lines :
      {A : Type 0} (f : A → ℤ) (g : A → Money)
      → ((x : A) → g x ≡ record { amount = f x; currency = z.currency })
      → (xs : List A)
      → Money.sum_money (map g xs) currency
        ≡ ok (record { amount = sum_by f xs; currency = z.currency })
  unfolding Money.sum_money
  sum_lines f g e xs = rw valid (
      sum_from_lem z (map g xs) z.currency refl
        (AllIn-map z.currency g (λ x. ap (λ (m : Money). m.currency) (e x)) xs)
      ∙ rw (
        zero_amount,
        sum_by-map f g (λ x. ap (λ (m : Money). m.amount) (e x)) xs,
        zero_add (sum_by f xs),
      ))

map_lines_ok :
    {A B : Type 0} (f : A → ℕ → Result DocumentError B) (g : A → B)
    → ((x : A) (i : ℕ) → f x i ≡ ok (g x))
    → (i : ℕ) (xs : List A) → map_lines f i xs ≡ ok (map g xs)
unfolding map_lines
map_lines_ok f g e i [] = refl
map_lines_ok f g e i (x ∷ xs) = rw (e x i, map_lines_ok f g e (suc i) xs)

-- The net, discount and tax of all lines.
abbrev pub gross_total : List DocumentLineSnapshot → ℤ
gross_total = sum_by (λ l. l.unit_price_minor *ℤ l.quantity)

abbrev pub discount_total : List DocumentLineSnapshot → ℤ
discount_total = sum_by (λ l. l.discount_minor)

abbrev pub tax_total : List DocumentLineSnapshot → ℤ
tax_total = sum_by (λ l. l.tax_minor)

multiply_lem :
    (v q : ℤ) (c : String)
    → Money.multiply (record { amount = v; currency = c }) q
      ≡ record { amount = v *ℤ q; currency = c }
unfolding Money.multiply
multiply_lem v q c = refl

-- In a valid currency the totals of a document always exist: they are the sums over its lines.
pub compute_document_totals_lem :
    ⦃u : Unicode⦄ (lines : List DocumentLineSnapshot) (currency : String) {z : Money}
    → Money.zero_of currency ≡ ok z
    → compute_document_totals lines currency
      ≡ ok (record {
        subtotal_minor = gross_total lines;
        discount_minor = discount_total lines;
        tax_minor = tax_total lines;
        total_minor = gross_total lines -ℤ discount_total lines +ℤ tax_total lines;
      })
unfolding compute_document_totals
compute_document_totals_lem ⦃u⦄ lines currency {z} valid =
    let money = λ (v : ℤ). let m : Money = record { amount = v; currency = z.currency } in m in
    let plain = λ (f : DocumentLineSnapshot → ℤ).
      map_lines_ok (λ l i. map_err document_money (Money.of (f l) currency)) (λ l. money (f l))
        (λ l i. rw (of_valid currency valid (f l))) 0 lines in
    let gross =
      map_lines_ok
        (λ (l : DocumentLineSnapshot) i.
          map_err document_money (Money.of l.unit_price_minor currency) >>= λ m.
          ok (Money.multiply m l.quantity))
        (λ l. Money.multiply (money l.unit_price_minor) l.quantity)
        (λ l i. rw (of_valid currency valid l.unit_price_minor)) 0 lines in
    let total = λ (f : DocumentLineSnapshot → ℤ).
      sum_lines currency valid f (λ l. money (f l)) (λ l. refl) lines in
    let gross_sum =
      sum_lines currency valid (λ (l : DocumentLineSnapshot). l.unit_price_minor *ℤ l.quantity)
        (λ l. Money.multiply (money l.unit_price_minor) l.quantity)
        (λ l. multiply_lem l.unit_price_minor l.quantity z.currency) lines in
    let net =
      subtract_same (money (gross_total lines)) (money (discount_total lines)) z.currency refl
        refl in
    let sum =
      add_same (money (gross_total lines -ℤ discount_total lines)) (money (tax_total lines))
        z.currency refl refl in
    rw (
      gross,
      gross_sum,
      plain (λ l. l.discount_minor),
      total (λ l. l.discount_minor),
      plain (λ l. l.tax_minor),
      total (λ l. l.tax_minor),
      net,
      sum,
    )

-- What each line says of its own total.
abbrev pub LineAddsUp : DocumentLineSnapshot → Type 0
LineAddsUp l = l.total_minor ≡ l.unit_price_minor *ℤ l.quantity -ℤ l.discount_minor +ℤ l.tax_minor

regroup : (a b c d e f : ℤ) → a +ℤ d -ℤ (b +ℤ e) +ℤ (c +ℤ f) ≡ a -ℤ b +ℤ c +ℤ (d -ℤ e +ℤ f)
regroup a b c d e f = omega int_laws

pub totals_of_lines :
    (lines : List DocumentLineSnapshot)
    → All LineAddsUp lines
    → gross_total lines -ℤ discount_total lines +ℤ tax_total lines
      ≡ sum_by (λ l. l.total_minor) lines
totals_of_lines [] h = omega int_laws
totals_of_lines (l ∷ ls) (e, h) =
    rw (e, ← totals_of_lines ls h)
      (regroup (l.unit_price_minor *ℤ l.quantity) l.discount_minor l.tax_minor (gross_total ls)
        (discount_total ls) (tax_total ls))
