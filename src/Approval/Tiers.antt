-- ===== src/Approval/Tiers.antt =====
-- The amount tiers of a policy, and the steps that apply to an amount.
use nestjs_api_template.Approval.Policy.{
  ApprovalPolicySnapshot, ApprovalPolicyStepSnapshot, CreateApprovalPolicyProps,
  CreatePolicyStepInput, applicable_steps, applies, checked_approvals, create_policy, make_step,
  make_steps, tier_of,
}
use nestjs_api_template.Prelude.{
  Bool-cases, List, Option, Result-cases, [], ap, arith, false, inl, inr, none, ok, refl, some, suc,
  true, ℕ, ◌++◌, ◌+◌, ◌∷◌, ◌≡◌, ◌≤◌,
}
use nestjs_api_template.Prelude.Int.{leb_ℤ, negsuc, pos, ℤ, ◌<ℤ◌, ◌≤ℤ◌}
use nestjs_api_template.Prelude.Lists.{All, filter}
use nestjs_api_template.Prelude.Text.{Number, Unicode, integer, not_integer}

-- The steps are numbered from the given number, their tiers never fall below the given tier nor
-- below an earlier step's, and each wants 1 to 10 approvals.
abbrev pub IsLadder : ℤ → ℕ → List ApprovalPolicyStepSnapshot → Type 0
IsLadder tier i [] = Unit
IsLadder tier i (st ∷ sts) =
    (st.step_no ≡ i + 1)
    × (pos 0 ≤ℤ tier_of st.min_amount_minor)
    × (tier ≤ℤ tier_of st.min_amount_minor)
    × (1 ≤ st.required_approvals)
    × (st.required_approvals ≤ 10)
    × IsLadder (tier_of st.min_amount_minor) (suc i) sts

checked_approvals_bounds :
    (v : Option Number) {n : ℕ} → checked_approvals v ≡ ok n → (1 ≤ n) × (n ≤ 10)
unfolding checked_approvals
checked_approvals_bounds none h = ground arith
checked_approvals_bounds (some not_integer) h = absurd (cc)
checked_approvals_bounds (some (integer (negsuc n))) h = absurd (cc)
checked_approvals_bounds (some (integer (pos n))) h = ground arith

make_step_lem :
    (t : ℤ) (i : ℕ) (st : CreatePolicyStepInput) {s : ApprovalPolicyStepSnapshot}
    → make_step t i st ≡ ok s
    → (s.step_no ≡ i + 1)
      × (s.min_amount_minor ≡ st.min_amount_minor)
      × (pos 0 ≤ℤ tier_of st.min_amount_minor)
      × (t ≤ℤ tier_of st.min_amount_minor)
      × (1 ≤ s.required_approvals)
      × (s.required_approvals ≤ 10)
unfolding make_step
make_step_lem t i st h = elim (Result-cases (checked_approvals st.required_approvals)) [
  | inr (e, e1) ↦ absurd (ground arith)
  | inl (n, e1) ↦ ground (arith, checked_approvals_bounds st.required_approvals e1)
]

make_steps-IsLadder :
    (t : ℤ) (i : ℕ) (sts : List CreatePolicyStepInput) {ss : List ApprovalPolicyStepSnapshot}
    → make_steps t i sts ≡ ok ss
    → IsLadder t i ss
unfolding make_steps
make_steps-IsLadder t i [] {ss = []} h = tt
make_steps-IsLadder t i [] {ss = s ∷ ss} h = absurd (ground arith)
make_steps-IsLadder t i (st ∷ sts) {ss} h = elim (Result-cases (make_step t i st)) [
  | inr (e, e1) ↦ absurd (ground arith)
  | inl (s, e1) ↦ elim (Result-cases (make_steps (tier_of st.min_amount_minor) (suc i) sts)) [
    | inr (e, e2) ↦ absurd (ground arith)
    | inl (rest, e2) ↦
        let same : ss ≡ s ∷ rest = ground arith in
        let (number, kept, nonneg, up, lo, hi) = make_step_lem t i st e1 in
        rw (same, kept)
          (
            number,
            nonneg,
            up,
            lo,
            hi,
            make_steps-IsLadder (tier_of st.min_amount_minor) (suc i) sts e2,
          )
  ]
]

-- A policy that is accepted has at least one step, and its steps are a ladder from the first.
create_policy-IsLadder :
    ⦃u : Unicode⦄ (props : CreateApprovalPolicyProps) {s : ApprovalPolicySnapshot}
    → create_policy props ≡ ok s
    → IsLadder (negsuc 0) 0 s.steps
unfolding create_policy
create_policy-IsLadder props {s} h = elim (Result-cases (make_steps (negsuc 0) 0 props.steps)) [
  | inr (e, e1) ↦ absurd (ground arith)
  | inl (steps, e1) ↦
      let same : s.steps ≡ steps = ground arith in
      rw same (make_steps-IsLadder (negsuc 0) 0 props.steps e1)
]

not_applies :
    (b : ℤ) (st : ApprovalPolicyStepSnapshot)
    → b <ℤ tier_of st.min_amount_minor
    → pos 0 ≤ℤ b
    → applies b st ≡ false
not_applies b st k z = ground arith

does_apply :
    (b : ℤ) (st : ApprovalPolicyStepSnapshot)
    → tier_of st.min_amount_minor ≤ℤ b
    → applies b st ≡ true
does_apply b st k = ground arith

-- From an amount below a tier on, no later step of the ladder applies.
none_apply :
    (a t : ℤ) (i : ℕ) (ss : List ApprovalPolicyStepSnapshot)
    → a <ℤ t
    → pos 0 ≤ℤ a
    → IsLadder t i ss
    → (filter (applies a) ss ≡ []) × All (λ s. a <ℤ tier_of s.min_amount_minor) ss
none_apply a t i [] l z h = (refl, tt)
none_apply a t i (s ∷ ss) l z (_, _, up, _, _, h) =
    let above : a <ℤ tier_of s.min_amount_minor = omega arith in
    let (e, k) = none_apply a (tier_of s.min_amount_minor) (suc i) ss above z h in
    (rw (not_applies a s above z) e, (above, k))

-- The steps that apply to an amount are the first ones of the ladder, up to the first whose tier is
-- above the amount, and all that follow are above it too.
applicable_prefix :
    (a t : ℤ) (i : ℕ) (ss : List ApprovalPolicyStepSnapshot)
    → pos 0 ≤ℤ a
    → IsLadder t i ss
    → (rest : List ApprovalPolicyStepSnapshot) × (ss ≡ filter (applies a) ss ++ rest)
      × All (λ s. a <ℤ tier_of s.min_amount_minor) rest
applicable_prefix a t i [] z h = ([], refl, tt)
applicable_prefix a t i (s ∷ ss) z (number, nonneg, up, lo, hi, h) =
    elim (Bool-cases (leb_ℤ (tier_of s.min_amount_minor) a)) [
      | inl e ↦
          let (rest, split, above) =
            applicable_prefix a (tier_of s.min_amount_minor) (suc i) ss z h in
          (rest, rw (does_apply a s (ground arith)) (ap (λ x. s ∷ x) split), above)
      | inr e ↦
          let over : a <ℤ tier_of s.min_amount_minor = ground arith in
          let (none_left, above) =
            none_apply a (tier_of s.min_amount_minor) i (s ∷ ss) over z
              (number, nonneg, omega arith, lo, hi, h) in
          (s ∷ ss, rw none_left, above)
    ]

applicable_tiers :
    (a : ℤ) (ss : List ApprovalPolicyStepSnapshot)
    → pos 0 ≤ℤ a
    → All (λ s. tier_of s.min_amount_minor ≤ℤ a) (filter (applies a) ss)
applicable_tiers a [] z = tt
applicable_tiers a (s ∷ ss) z = elim (Bool-cases (leb_ℤ (tier_of s.min_amount_minor) a)) [
  | inl e ↦ rw (does_apply a s (ground arith)) (ground arith, applicable_tiers a ss z)
  | inr e ↦ rw (not_applies a s (ground arith) z) (applicable_tiers a ss z)
]

-- Of a policy that was created, the steps for a document of an amount that is not negative are the
-- first ones: the tier of each is at most the amount, and the tier of every step left out is above it.
pub applicable_steps_are_first :
    ⦃u : Unicode⦄ (props : CreateApprovalPolicyProps) {s : ApprovalPolicySnapshot} (amount : ℤ)
    → pos 0 ≤ℤ amount
    → create_policy props ≡ ok s
    → (rest : List ApprovalPolicyStepSnapshot) × (s.steps ≡ applicable_steps s amount ++ rest)
      × All (λ st. tier_of st.min_amount_minor ≤ℤ amount) (applicable_steps s amount)
      × All (λ st. amount <ℤ tier_of st.min_amount_minor) rest
unfolding applicable_steps
applicable_steps_are_first props {s} amount z h =
    let (rest, split, above) =
      applicable_prefix amount (negsuc 0) 0 s.steps z (create_policy-IsLadder props h) in
    (rest, split, applicable_tiers amount s.steps z, above)
