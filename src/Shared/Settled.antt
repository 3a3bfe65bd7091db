-- ===== src/Shared/Settled.antt =====
-- The amounts that invoices of both sides keep: what is settled, and the balance that is open.
use nestjs_api_template.Prelude.{arith, false, ◌↔◌, ◌≡◌}
use nestjs_api_template.Prelude.Int.{+ℤ_parts, int_laws, ltb_ℤ, ℤ, ◌+ℤ◌, ◌-ℤ◌, ◌≤ℤ◌, -ℤ_parts}

-- An amount is within the balance exactly when what is settled with it is within the total.
pub fits_balance :
    (total settled balance amount : ℤ)
    → balance ≡ total -ℤ settled
    → (ltb_ℤ balance amount ≡ false) ↔ (settled +ℤ amount ≤ℤ total)
fits_balance total settled balance amount e = rw e (
  λ h. ground (arith, +ℤ_parts settled amount, -ℤ_parts total settled),
  λ h. ground (arith, +ℤ_parts settled amount, -ℤ_parts total settled),
)

pub sum_minus : (a b : ℤ) → a +ℤ b -ℤ b ≡ a
sum_minus a b = omega int_laws
