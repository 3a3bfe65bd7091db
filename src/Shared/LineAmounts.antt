-- ===== src/Shared/LineAmounts.antt =====
-- What `compute_document_line` accepts and what it computes.
use nestjs_api_template.Shared.Money
use nestjs_api_template.Prelude.{
  Result-cases, String, ap, arith, inl, inr, ok, refl, ℕ, ◌*◌, ◌+◌, ◌-◌, ◌/◌, ◌∙◌, ◌≡◌, ◌≤◌,
}
use nestjs_api_template.Prelude.Int.{mul_nonneg, negsuc, pos, ℤ, ◌*ℤ◌, ◌+ℤ◌, ◌-ℤ◌, ◌<ℤ◌, ◌≤ℤ◌}
use nestjs_api_template.Prelude.Text.{Number, Unicode, integer, not_integer, trim}
use nestjs_api_template.Shared.Line.{
  DocumentLineInput, DocumentLineSnapshot, compute_document_line, max_discount_bp, whole_bp,
}
use nestjs_api_template.Shared.Money.{Money}
use nestjs_api_template.Shared.Rounding.{percent_pos}

-- The checks that a line has passed, and the parts of its computation.
record Computed ⦃u : Unicode⦄ (l : DocumentLineInput) (currency : String) (n : ℕ)
    (s : DocumentLineSnapshot) : Type 0 where
  quantity_positive : pos 0 <ℤ l.quantity
  price_nonneg : pos 0 ≤ℤ l.unit_price_minor
  discount_bp : ℤ
  discount_whole : whole_bp l.discount_bp ≡ ok discount_bp
  discount_capped : discount_bp ≤ℤ max_discount_bp
  tax_bp : ℤ
  tax_whole : whole_bp l.tax_rate_bp ≡ ok tax_bp
  price : Money
  price_is : Money.of l.unit_price_minor currency ≡ ok price
  discount : Money
  discount_is : Money.percent (Money.multiply price l.quantity) discount_bp ≡ ok discount
  net : Money
  net_is : Money.subtract (Money.multiply price l.quantity) discount ≡ ok net
  tax : Money
  tax_is : Money.percent net tax_bp ≡ ok tax
  total : Money
  total_is : Money.add net tax ≡ ok total
  snapshot_is : s ≡ record {
    input = record l {
      description = trim l.description;
      uom_code = u.to_upper_case (trim l.uom_code);
    };
    line_no = n;
    discount_minor = discount.amount;
    net_minor = net.amount;
    tax_minor = tax.amount;
    total_minor = total.amount;
  }

computed :
    ⦃u : Unicode⦄ (l : DocumentLineInput) (currency : String) (n : ℕ) {s : DocumentLineSnapshot}
    → compute_document_line l currency n ≡ ok s
    → Computed l currency n s
unfolding compute_document_line
computed l currency n h = elim (Result-cases (whole_bp l.discount_bp)) [
  | inr (x, e1) ↦ absurd (ground arith)
  | inl (b, e1) ↦ elim (Result-cases (whole_bp l.tax_rate_bp)) [
    | inr (x, e2) ↦ absurd (ground arith)
    | inl (t, e2) ↦ elim (Result-cases (Money.of l.unit_price_minor currency)) [
      | inr (x, e3) ↦ absurd (ground arith)
      | inl (price, e3) ↦ elim (Result-cases (Money.percent (Money.multiply price l.quantity) b)) [
        | inr (x, e4) ↦ absurd (ground arith)
        | inl (discount, e4) ↦
            elim (Result-cases (Money.subtract (Money.multiply price l.quantity) discount)) [
              | inr (x, e5) ↦ absurd (ground arith)
              | inl (net, e5) ↦ elim (Result-cases (Money.percent net t)) [
                | inr (x, e6) ↦ absurd (ground arith)
                | inl (tax, e6) ↦ elim (Result-cases (Money.add net tax)) [
                  | inr (x, e7) ↦ absurd (ground arith)
                  | inl (total, e7) ↦ record {
                    quantity_positive = ground arith;
                    price_nonneg = ground arith;
                    discount_bp = b;
                    discount_whole = e1;
                    discount_capped = ground arith;
                    tax_bp = t;
                    tax_whole = e2;
                    price = price;
                    price_is = e3;
                    discount = discount;
                    discount_is = e4;
                    net = net;
                    net_is = e5;
                    tax = tax;
                    tax_is = e6;
                    total = total;
                    total_is = e7;
                    snapshot_is = ground arith;
                  }
                ]
              ]
            ]
      ]
    ]
  ]
]

-- The amounts of a line on natural numbers: the gross price, the rates in basis points, and each
-- amount from those before it, with the rounding written out.
pub record Amounts (l : DocumentLineInput) (n : ℕ) (s : DocumentLineSnapshot) : Type 0 where
  pub gross : ℕ
  pub discount_rate : ℕ
  pub tax_rate : ℕ
  pub discount : ℕ
  pub tax : ℕ
  pub gross_is : l.unit_price_minor *ℤ l.quantity ≡ pos gross
  pub discount_rate_is : l.discount_bp ≡ integer (pos discount_rate)
  pub tax_rate_is : l.tax_rate_bp ≡ integer (pos tax_rate)
  pub discount_lem : discount ≡ (gross * discount_rate + 5000) / 10000
  pub discount_le_gross : discount ≤ gross
  pub tax_lem : tax ≡ ((gross - discount) * tax_rate + 5000) / 10000
  pub id_is : s.id ≡ l.id
  pub line_no_is : s.line_no ≡ n
  pub unit_price_is : s.unit_price_minor ≡ l.unit_price_minor
  pub quantity_is : s.quantity ≡ l.quantity
  pub quantity_positive : pos 0 <ℤ s.quantity
  pub discount_minor_is : s.discount_minor ≡ pos discount
  pub net_minor_is : s.net_minor ≡ pos (gross - discount)
  pub tax_minor_is : s.tax_minor ≡ pos tax
  pub total_minor_is : s.total_minor ≡ pos (gross - discount + tax)

whole_bp_lem :
    (v : Number) {b : ℤ} → whole_bp v ≡ ok b → (n : ℕ) × (v ≡ integer (pos n)) × (b ≡ pos n)
unfolding whole_bp
whole_bp_lem (integer (pos n)) h = (n, refl, ground arith)
whole_bp_lem (integer (negsuc n)) h = absurd (ground arith)
whole_bp_lem not_integer h = cc

pos_of_nonneg : (a : ℤ) → pos 0 ≤ℤ a → (n : ℕ) × (a ≡ pos n)
pos_of_nonneg (pos n) h = (n, refl)
pos_of_nonneg (negsuc n) h = absurd (omega arith)

rate_le : (g b : ℕ) → b ≤ 10000 → (g * b + 5000) / 10000 ≤ g
rate_le g b h = let k : g * b ≤ g * 10000 = grind arith in omega arith

subtract_pos :
    (a b : Money) (m n : ℕ) {c : Money}
    → a.amount ≡ pos m
    → b.amount ≡ pos n
    → n ≤ m
    → Money.subtract a b ≡ ok c
    → c.amount ≡ pos (m - n)
unfolding Money.subtract ◌-ℤ◌
subtract_pos a b m n ea eb le h = ground arith

add_pos :
    (a b : Money) (m n : ℕ) {c : Money}
    → a.amount ≡ pos m
    → b.amount ≡ pos n
    → Money.add a b ≡ ok c
    → c.amount ≡ pos (m + n)
unfolding Money.add ◌+ℤ◌
add_pos a b m n ea eb h = ground arith

of_amount : ⦃u : Unicode⦄ (v : ℤ) (c : String) {m : Money} → Money.of v c ≡ ok m → m.amount ≡ v
unfolding Money.of
of_amount v c h = ground arith

multiply_amount : (m : Money) (q : ℤ) → (Money.multiply m q).amount ≡ m.amount *ℤ q
unfolding Money.multiply
multiply_amount m q = refl

percent_amount :
    (m : Money) (g b : ℕ) {c : Money}
    → m.amount ≡ pos g
    → Money.percent m (pos b) ≡ ok c
    → c.amount ≡ pos ((g * b + 5000) / 10000)
percent_amount m g b e h = cc (percent_pos m g b e)

gross_nonneg :
    (l : DocumentLineInput)
    → pos 0 <ℤ l.quantity
    → pos 0 ≤ℤ l.unit_price_minor
    → (g : ℕ) × (l.unit_price_minor *ℤ l.quantity ≡ pos g)
gross_nonneg l q p = pos_of_nonneg _ (mul_nonneg l.unit_price_minor l.quantity p (omega arith))

-- Every line that is accepted has these amounts: the discount is at most the gross price, and net,
-- tax and total follow from it without further rounding than that of the discount and the tax.
pub compute_document_line-Amounts :
    ⦃u : Unicode⦄ (l : DocumentLineInput) (currency : String) (n : ℕ) {s : DocumentLineSnapshot}
    → compute_document_line l currency n ≡ ok s
    → Amounts l n s
compute_document_line-Amounts l currency n h =
    let c = computed l currency n h in
    let (g, eg) = gross_nonneg l c.quantity_positive c.price_nonneg in
    let (b, eb, vb) = whole_bp_lem l.discount_bp c.discount_whole in
    let (t, et, vt) = whole_bp_lem l.tax_rate_bp c.tax_whole in
    let d : ℕ = (g * b + 5000) / 10000 in
    let x : ℕ = ((g - d) * t + 5000) / 10000 in
    let cap : pos b ≤ℤ max_discount_bp = rw vb at c.discount_capped in
    let le : d ≤ g = rate_le g b (omega arith) in
    let price : (Money.multiply c.price l.quantity).amount ≡ pos g =
      rw (multiply_amount, of_amount l.unit_price_minor currency c.price_is) eg in
    let discount : c.discount.amount ≡ pos d =
      percent_amount _ g b price (rw vb at c.discount_is) in
    let net : c.net.amount ≡ pos (g - d) =
      subtract_pos _ c.discount g d price discount le c.net_is in
    let tax : c.tax.amount ≡ pos x = percent_amount c.net (g - d) t net (rw vt at c.tax_is) in
    let total : c.total.amount ≡ pos (g - d + x) =
      add_pos c.net c.tax (g - d) x net tax c.total_is in
    record {
      gross = g;
      discount_rate = b;
      tax_rate = t;
      discount = d;
      tax = x;
      gross_is = eg;
      discount_rate_is = eb;
      tax_rate_is = et;
      discount_lem = refl;
      discount_le_gross = le;
      tax_lem = refl;
      id_is = ap (λ (x : DocumentLineSnapshot). x.id) c.snapshot_is;
      line_no_is = ap (λ (x : DocumentLineSnapshot). x.line_no) c.snapshot_is;
      unit_price_is = ap (λ (x : DocumentLineSnapshot). x.unit_price_minor) c.snapshot_is;
      quantity_is = ap (λ (x : DocumentLineSnapshot). x.quantity) c.snapshot_is;
      quantity_positive =
          rw (ap (λ (x : DocumentLineSnapshot). x.quantity) c.snapshot_is) c.quantity_positive;
      discount_minor_is =
          ap (λ (x : DocumentLineSnapshot). x.discount_minor) c.snapshot_is ∙ discount;
      net_minor_is = ap (λ (x : DocumentLineSnapshot). x.net_minor) c.snapshot_is ∙ net;
      tax_minor_is = ap (λ (x : DocumentLineSnapshot). x.tax_minor) c.snapshot_is ∙ tax;
      total_minor_is = ap (λ (x : DocumentLineSnapshot). x.total_minor) c.snapshot_is ∙ total;
    }
