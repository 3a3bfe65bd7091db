-- ===== src/Approval/Invariant.antt =====
-- What holds of an approval request between two calls.
use nestjs_api_template.Approval.Policy.{ApprovalPolicyStepSnapshot}
use nestjs_api_template.Approval.Request.{
  ApprovalRequest, CreateApprovalRequestProps, DecisionSnapshot, RequestStepSnapshot, StepStatus,
  approvals, approved, create_request, pending, replace_step, request_steps, step_approved, step_at,
  with_step,
}
use nestjs_api_template.Prelude.{
  Bool, Bool-cases, List, String, [], arith, false, inl, inr, none, ok, refl, some, suc, ℕ, ◌++◌,
  ◌+◌, ◌<◌, ◌==◌, ◌∷◌, ◌≡◌, ◌≢◌, ◌≤◌,
}
use nestjs_api_template.Prelude.Lists.{All, All-append, Pairs, Pairs-snoc, any, length}
use nestjs_api_template.Prelude.Text.{Unicode}

-- No decision is by the requester or on the requester's behalf, no two are by one user, and an
-- approved step has the approvals it wants.
pub record IsFair (requester : String) (st : RequestStepSnapshot) : Type 0 where
  pub not_by_requester : All (λ d. d.decided_by ≢ requester) st.decisions
  pub not_for_requester : All (λ d. d.on_behalf_of ≢ some requester) st.decisions
  pub distinct_users : Pairs (λ d e. d.decided_by ≢ e.decided_by) st.decisions
  pub enough : st.status ≡ step_approved → st.required_approvals ≤ approvals st.decisions

-- The steps are numbered in order from the given number plus one.
abbrev pub Numbered : ℕ → List RequestStepSnapshot → Type 0
Numbered i [] = Unit
Numbered i (st ∷ sts) = (st.step_no ≡ i + 1) × Numbered (suc i) sts

-- Every step with a number below is approved.
abbrev pub ApprovedBelow : ℕ → List RequestStepSnapshot → Type 0
ApprovedBelow n = All (λ st. st.step_no < n → st.status ≡ step_approved)

pub record IsValid (s : ApprovalRequest) : Type 0 where
  pub numbered : Numbered 0 s.steps
  pub fair : All (IsFair s.requested_by) s.steps
  pub earlier : (n : ℕ) → s.current_step_no ≡ some n → ApprovedBelow n s.steps
  pub finished : s.status ≡ approved → All (λ st. st.status ≡ step_approved) s.steps
  pub idle : s.status ≢ pending → s.current_step_no ≡ none

request_steps-Numbered :
    (i : ℕ) (sts : List (ApprovalPolicyStepSnapshot × String)) → Numbered i (request_steps i sts)
unfolding request_steps
request_steps-Numbered i [] = tt
request_steps-Numbered i (st ∷ sts) = (refl, request_steps-Numbered (suc i) sts)

request_steps-IsFair :
    (r : String) (i : ℕ) (sts : List (ApprovalPolicyStepSnapshot × String))
    → All (IsFair r) (request_steps i sts)
unfolding request_steps
request_steps-IsFair r i [] = tt
request_steps-IsFair r i (st ∷ sts) = (
  record {
    not_by_requester = tt;
    not_for_requester = tt;
    distinct_users = tt;
    enough = λ e. absurd (cc);
  },
  request_steps-IsFair r (suc i) sts,
)

-- No step of a list numbered from 0 has a number below 1.
below_one : (i : ℕ) (sts : List RequestStepSnapshot) → Numbered i sts → ApprovedBelow 1 sts
below_one i [] h = tt
below_one i (st ∷ sts) (e, h) = ((λ l. absurd (omega arith)), below_one (suc i) sts h)

All-empty : {A : Type 0} (P : A → Type 0) (xs : List A) → length xs ≡ 0 → All P xs
All-empty P [] e = tt
All-empty P (x ∷ xs) e = absurd (ground arith)

-- A request that is created is valid.
pub create_request-IsValid :
    ⦃u : Unicode⦄ (props : CreateApprovalRequestProps) {s : ApprovalRequest}
    → create_request props ≡ ok s
    → IsValid s
unfolding create_request
create_request-IsValid props {s} h =
    let same : s.steps ≡ request_steps 0 props.steps = ground arith in
    let requester : s.requested_by ≡ props.requested_by = ground arith in
    let numbers = request_steps-Numbered 0 props.steps in
    record {
      numbered = rw same numbers;
      fair = rw (same, requester) (request_steps-IsFair props.requested_by 0 props.steps);
      earlier = λ n e.
          let one : n ≡ 1 = ground arith in
          rw (same, one) (below_one 0 (request_steps 0 props.steps) numbers);
      finished = λ e. rw same (
          All-empty (λ st. st.status ≡ step_approved) (request_steps 0 props.steps) (ground arith));
      idle = λ e. ground arith;
    }

-- A test that no element passes fails at each of them.
pub any-false :
    {A : Type 0} (p : A → Bool) (xs : List A) → any p xs ≡ false → All (λ x. p x ≡ false) xs
any-false p [] h = tt
any-false p (x ∷ xs) h = (ground arith, any-false p xs (ground arith))

-- A step that replaces the one of its number keeps the numbers.
replace-Numbered :
    (step : RequestStepSnapshot) (i : ℕ) (sts : List RequestStepSnapshot)
    → Numbered i sts
    → Numbered i (replace_step step sts)
unfolding replace_step
replace-Numbered step i [] h = tt
replace-Numbered step i (st ∷ sts) (e, h) = (ground arith, replace-Numbered step (suc i) sts h)

pub replace-All :
    (P Q : RequestStepSnapshot → Type 0) (step : RequestStepSnapshot)
    → Q step
    → ((st : RequestStepSnapshot) → st.step_no ≢ step.step_no → P st → Q st)
    → (sts : List RequestStepSnapshot) → All P sts
    → All Q (replace_step step sts)
unfolding replace_step
replace-All P Q step q k [] h = tt
replace-All P Q step q k (st ∷ sts) h = (
  elim (Bool-cases (st.step_no == step.step_no)) [
    | inl t ↦ rw t q
    | inr f ↦ rw f (k st (ground arith) h.0)
  ],
  replace-All P Q step q k sts h.1,
)

-- If no step has a number above the list's first, no step has a larger one.
pub none_above :
    (i n : ℕ) (sts : List RequestStepSnapshot)
    → Numbered i sts
    → i < n
    → step_at sts n ≡ none
    → All (λ st. st.step_no < n) sts
none_above i n [] h l e = tt
none_above i n (st ∷ sts) (num, h) l e =
    (ground arith, none_above (suc i) n sts h (ground arith) (ground arith))

pub both :
    {A : Type 0} (P Q : A → Type 0) (xs : List A) → All P xs → All Q xs → All (λ x. P x × Q x) xs
both P Q [] h k = tt
both P Q (x ∷ xs) h k = ((h.0, k.0), both P Q xs h.1 k.1)

-- A fair step that gets one more decision, by another user, neither by nor for the requester.
pub voted-IsFair :
    (r : String) (step : RequestStepSnapshot) (d : DecisionSnapshot) (status : StepStatus)
    → IsFair r step
    → d.decided_by ≢ r
    → d.on_behalf_of ≢ some r
    → All (λ e. e.decided_by ≢ d.decided_by) step.decisions
    → (status ≡ step_approved → step.required_approvals ≤ approvals (step.decisions ++ d ∷ []))
    → IsFair r (record step { decisions = step.decisions ++ d ∷ []; status = status })
voted-IsFair r step d status fair by on new enough = record {
  not_by_requester =
      All-append (λ e. e.decided_by ≢ r) step.decisions (d ∷ []) fair.not_by_requester (by, tt);
  not_for_requester =
      All-append (λ e. e.on_behalf_of ≢ some r) step.decisions (d ∷ []) fair.not_for_requester
        (on, tt);
  distinct_users =
      Pairs-snoc (λ a b. a.decided_by ≢ b.decided_by) step.decisions d fair.distinct_users new;
  enough = enough;
}

-- The request that `with_step` makes is valid if the new step is fair and the rest of the request
-- agrees with the steps.
pub with_step-IsValid :
    (step : RequestStepSnapshot) (s h : ApprovalRequest) (now : ℕ)
    → IsValid s
    → h.steps ≡ s.steps
    → h.requested_by ≡ s.requested_by
    → IsFair s.requested_by step
    → ((n : ℕ) → h.current_step_no ≡ some n → ApprovedBelow n (replace_step step s.steps))
    → (h.status ≡ approved → All (λ st. st.status ≡ step_approved) (replace_step step s.steps))
    → (h.status ≢ pending → h.current_step_no ≡ none)
    → IsValid (with_step step h now)
unfolding with_step
with_step-IsValid step s h now v same_steps same_requester fair earlier finished idle = record {
  numbered = rw same_steps (replace-Numbered step 0 s.steps v.numbered);
  fair =
      rw (same_steps, same_requester)
        (replace-All (IsFair s.requested_by) (IsFair s.requested_by) step fair (λ st _ f. f) s.steps
          v.fair);
  earlier = rw same_steps earlier;
  finished = rw same_steps finished;
  idle = idle;
}
