-- ===== src/Shared/Rounding.antt =====
-- The rounding of `round_div` and `percent`.
use nestjs_api_template.Prelude.{
  arith, bool_ne, false, if◌then◌else◌, inl, inr, ok, refl, suc, true, zero, ℕ, ◌*◌, ◌+◌, ◌/◌, ◌<◌,
  ◌≡◌, ◌≢◌, ◌≤◌, ◌⊎◌,
}
use nestjs_api_template.Prelude.Int.{abs, eqb_ℤ, is_neg, neg, negsuc, pos, pos_mul, ℤ}
use nestjs_api_template.Shared.Money.{Money, basis_points, percent, round_div}

nearest :
    (a d : ℕ)
    → let q = (a + suc d / 2) / suc d in
      (2 * (q * suc d) ≤ 2 * a + suc d) × (2 * a < 2 * (q * suc d) + suc d)
nearest a d = omega arith

abbrev rounded : ℤ → ℤ → ℤ
rounded n d =
    let q = (abs n + abs d / 2) / abs d in
    if bool_ne (is_neg n) (is_neg d) then neg (pos q) else pos q

eqb_ℤ_ne : (d : ℤ) → d ≢ pos 0 → eqb_ℤ d (pos 0) ≡ false
eqb_ℤ_ne (pos zero) h = absurd (h refl)
eqb_ℤ_ne (pos (suc n)) h = ground arith
eqb_ℤ_ne (negsuc n) h = ground arith

round_div_eq : (n d : ℤ) → d ≢ pos 0 → round_div n d ≡ ok (rounded n d)
unfolding round_div
round_div_eq n d h = rw (eqb_ℤ_ne d h)

neg_pos :
    (q : ℕ) → (abs (neg (pos q)) ≡ q) × ((neg (pos q) ≡ pos 0) ⊎ (is_neg (neg (pos q)) ≡ true))
unfolding neg
neg_pos zero = (refl, inl refl)
neg_pos (suc q) = ground arith

-- Of any number and any divisor but zero, `round_div` returns the nearest integer to the exact
-- quotient, the one further from zero in a tie, with the sign of the quotient.
pub round_div_nearest :
    (n d : ℤ)
    → d ≢ pos 0
    → (q : ℤ) × (round_div n d ≡ ok q)
      × (2 * (abs q * abs d) ≤ 2 * abs n + abs d)
      × (2 * abs n < 2 * (abs q * abs d) + abs d)
      × ((q ≡ pos 0) ⊎ (is_neg q ≡ bool_ne (is_neg n) (is_neg d)))
round_div_nearest n (pos zero) h = absurd (h refl)
round_div_nearest (pos a) (pos (suc d)) h =
    (rounded (pos a) (pos (suc d)), round_div_eq _ _ h, (nearest a d).0, (nearest a d).1, inr refl)
round_div_nearest (negsuc a) (negsuc d) h = (
  rounded (negsuc a) (negsuc d),
  round_div_eq _ _ h,
  (nearest (suc a) d).0,
  (nearest (suc a) d).1,
  inr refl,
)
round_div_nearest (negsuc a) (pos (suc d)) h =
    let (size, sign) = neg_pos ((suc a + suc d / 2) / suc d) in
    (
      rounded (negsuc a) (pos (suc d)),
      round_div_eq _ _ h,
      rw size (nearest (suc a) d).0,
      rw size (nearest (suc a) d).1,
      sign,
    )
round_div_nearest (pos a) (negsuc d) h =
    let (size, sign) = neg_pos ((a + suc d / 2) / suc d) in
    (
      rounded (pos a) (negsuc d),
      round_div_eq _ _ h,
      rw size (nearest a d).0,
      rw size (nearest a d).1,
      sign,
    )

-- A percentage of an amount that is not negative.
pub percent_pos :
    (m : Money) (g b : ℕ)
    → m.amount ≡ pos g
    → percent m (pos b)
      ≡ ok (record { amount = pos ((g * b + 5000) / 10000); currency = m.currency })
unfolding percent
percent_pos m g b e = rw (e, pos_mul, round_div_eq (pos (g * b)) basis_points (λ z. cc))

-- A quotient of natural numbers.
pub round_div_pos : (n d : ℕ) → round_div (pos n) (pos (suc d)) ≡ ok (pos ((n + suc d / 2) / suc d))
round_div_pos n d = round_div_eq (pos n) (pos (suc d)) (λ e. absurd (ground arith))
