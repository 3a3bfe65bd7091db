-- ===== src/Payable/WhtBounds.antt =====
-- How much tax a payment withholds.
use native.Mathlib.Nat.{mul-le-mul_left, mul_comm}
use nestjs_api_template.Payable.Wht.{
  WhtBase, WhtLineInput, compute_wht_minor, prorated_base, wht_line,
}
use nestjs_api_template.Prelude.{
  Bool-cases, arith, false, inl, inr, ok, or_else, refl, suc, zero, ℕ, ◌*◌, ◌+◌, ◌/◌, ◌<◌, ◌≡◌, ◌≤◌,
  ◌⊎◌,
}
use nestjs_api_template.Prelude.Int.{leb_ℤ, negsuc, pos, pos_mul, ℤ, ◌<ℤ◌, ◌≤ℤ◌}
use nestjs_api_template.Shared.Rounding.{round_div_pos}

abbrev half_up : ℕ → ℕ → ℕ
half_up n d = (n + d / 2) / d

-- Less than one divisor apart, in multiples of the divisor, is not apart.
le_of_mul_lt : (a b d : ℕ) → a * suc d < b * suc d + suc d → a ≤ b
le_of_mul_lt a b d h = grind arith

div_le : (n d q : ℕ) → n < q * suc d + suc d → n / suc d ≤ q
div_le n d q h = le_of_mul_lt (n / suc d) q d (omega arith)

share_small : (a b z : ℕ) → b ≤ z → a * b + suc z / 2 < a * suc z + suc z
share_small a b z h = grind arith

-- Half up, a share of `a` by a part `b` of the whole `suc z` is at most `a`.
share_le : (a b z : ℕ) → b ≤ z → half_up (a * b) (suc z) ≤ a
share_le a b z h = div_le (a * b + suc z / 2) z a (share_small a b z h)

share_le_part : (a b z : ℕ) → a ≤ suc z → half_up (a * b) (suc z) ≤ b
share_le_part a b z h =
    let below : b * a ≤ b * suc z = mul-le-mul_left b h in
    div_le (a * b + suc z / 2) z b (omega (arith, below, mul_comm a b))

tax_le : (a r : ℕ) → r ≤ 10000 → half_up (a * r) 10000 ≤ a
tax_le a r h = let below : a * r ≤ a * 10000 = grind arith in omega arith

-- The base of a settlement is within the base; it is the whole of it, or the settlement is less
-- than the total and, where the base is within the total, the share is within the settlement.
prorated_base_bounds :
    (base settlement total : ℤ)
    → pos 0 ≤ℤ base
    → pos 0 ≤ℤ settlement
    → pos 0 <ℤ total
    → (r : ℤ) × (prorated_base base settlement total ≡ ok r)
      × (pos 0 ≤ℤ r)
      × (r ≤ℤ base)
      × ((settlement <ℤ total) ⊎ (r ≡ base))
      × (base ≤ℤ total → r ≤ℤ settlement)
unfolding prorated_base
prorated_base_bounds (negsuc a) settlement total h k p = absurd (omega arith)
prorated_base_bounds (pos a) (negsuc b) total h k p = absurd (omega arith)
prorated_base_bounds (pos a) (pos b) (negsuc c) h k p = absurd (omega arith)
prorated_base_bounds (pos a) (pos b) (pos zero) h k p = absurd (omega arith)
prorated_base_bounds (pos a) (pos b) (pos (suc z)) h k p =
    elim (Bool-cases (leb_ℤ (pos (suc z)) (pos b))) [
      | inl e ↦
          rw e (pos a, ground arith, omega arith, omega arith, inr refl, λ within. ground arith)
      | inr e ↦
          let part : b ≤ z = ground arith in
          let positive : leb_ℤ (pos (suc z)) (pos 0) ≡ false = ground arith in
          rw e (
            pos (half_up (a * b) (suc z)),
            rw (pos_mul a b, positive) (round_div_pos (a * b) z),
            omega arith,
            omega (arith, share_le a b z part),
            inl (ground arith),
            λ within. omega (arith, share_le_part a b z (omega arith)),
          )
    ]

-- The tax on a base at a rate of at most one hundred per cent is within the base.
compute_wht_minor_bounds :
    (base rate : ℤ)
    → pos 0 ≤ℤ base
    → pos 0 ≤ℤ rate
    → rate ≤ℤ pos 10000
    → (r : ℤ) × (compute_wht_minor base rate ≡ ok r) × (pos 0 ≤ℤ r) × (r ≤ℤ base)
unfolding compute_wht_minor
compute_wht_minor_bounds (negsuc a) rate h k b = absurd (omega arith)
compute_wht_minor_bounds (pos a) (negsuc r) h k b = absurd (omega arith)
compute_wht_minor_bounds (pos a) (pos r) h k b = (
  pos (half_up (a * r) 10000),
  rw (pos_mul a r) (round_div_pos (a * r) 9999),
  omega arith,
  omega (arith, tax_le a r (omega arith)),
)

-- Of a base that is not negative and within the positive total of its invoice, at a rate from
-- nothing to one hundred per cent, the tax of a payment that is not negative is always computed; it
-- is not negative, within the base it is computed on and within the payment, that base is within
-- the whole base, and it is the whole base unless the payment is less than the total.
pub wht_line_bounds :
    (settlement total : ℤ) (b : WhtBase)
    → pos 0 ≤ℤ settlement
    → pos 0 <ℤ total
    → pos 0 ≤ℤ b.base_minor
    → b.base_minor ≤ℤ total
    → pos 0 ≤ℤ b.rate_bp
    → b.rate_bp ≤ℤ pos 10000
    → (l : WhtLineInput) × (wht_line settlement total b ≡ ok l)
      × (pos 0 ≤ℤ l.tax_minor)
      × (l.tax_minor ≤ℤ l.base_minor)
      × (l.base_minor ≤ℤ b.base_minor)
      × (l.tax_minor ≤ℤ settlement)
      × ((settlement <ℤ total) ⊎ (l.base_minor ≡ b.base_minor))
unfolding wht_line
wht_line_bounds settlement total b s t lo hi rl rh =
    let (base, e, bl, bb, full, within) =
      prorated_base_bounds b.base_minor settlement total lo s t in
    let (tax, f, tl, tb) = compute_wht_minor_bounds base b.rate_bp bl rl rh in
    (
      record {
        tax_code = b.tax_code;
        income_type = or_else b.income_type b.tax_code;
        rate_bp = b.rate_bp;
        pnd_form = or_else b.pnd_form "PND53";
        base_minor = base;
        tax_minor = tax;
      },
      rw (e, f) refl,
      tl,
      tb,
      bb,
      omega (arith, tb, within hi),
      full,
    )

-- Neither is it negative where the base is above the total.
pub wht_line_nonneg :
    (settlement total : ℤ) (b : WhtBase) {l : WhtLineInput}
    → pos 0 ≤ℤ settlement
    → pos 0 <ℤ total
    → pos 0 ≤ℤ b.base_minor
    → pos 0 ≤ℤ b.rate_bp
    → b.rate_bp ≤ℤ pos 10000
    → wht_line settlement total b ≡ ok l
    → pos 0 ≤ℤ l.tax_minor
unfolding wht_line
wht_line_nonneg settlement total b {l} s t lo rl rh h =
    let (base, e, bl, _, _, _) = prorated_base_bounds b.base_minor settlement total lo s t in
    let (tax, f, tl, _) = compute_wht_minor_bounds base b.rate_bp bl rl rh in
    let tax_is : l.tax_minor ≡ tax = ground (arith, e, f) in rw tax_is tl
