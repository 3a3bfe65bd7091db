-- ===== src/Approval/Decide.antt =====
-- Deciding and cancelling: what a call requires, and that the invariant stays.
use nestjs_api_template.Approval.Invariant.{
  ApprovedBelow, IsFair, IsValid, any-false, both, none_above, replace-All, voted-IsFair,
  with_step-IsValid,
}
use nestjs_api_template.Approval.Request.{
  ApprovalRequest, DecideInput, DecisionSnapshot, RequestStepSnapshot, advance, approvals, approved,
  cancel_request, clean_comment, current_step, decide, eligibility_of, is_approve, pending,
  replace_step, settle, step_approved, step_at, step_rejected, with_step,
}
use nestjs_api_template.Prelude.{
  Bool-cases, List, Option, Option-cases, String, [], arith, false, inl, inr, ltb, none, ok, refl,
  some, ℕ, ◌++◌, ◌+◌, ◌<◌, ◌||◌, ◌∷◌, ◌≡◌, ◌≢◌, ◌≤◌,
}
use nestjs_api_template.Prelude.Lists.{All, any, find-All}
use nestjs_api_template.Prelude.Text.{eq_iff, opt_str_eq, str_eq}

approvals-snoc :
    (ds : List DecisionSnapshot) (d : DecisionSnapshot) → approvals ds ≤ approvals (ds ++ d ∷ [])
approvals-snoc [] d = ground arith
approvals-snoc (e ∷ ds) d = ground (arith, approvals-snoc ds d)

-- What holds below the current step holds below the next once the current one is approved.
below_next :
    (s : ApprovalRequest) (step : RequestStepSnapshot)
    → IsValid s
    → s.current_step_no ≡ some step.step_no
    → step.status ≡ step_approved
    → ApprovedBelow (step.step_no + 1) (replace_step step s.steps)
below_next s step v at e =
    replace-All (λ st. st.step_no < step.step_no → st.status ≡ step_approved)
      (λ st. st.step_no < step.step_no + 1 → st.status ≡ step_approved) step (λ _. e)
      (λ st other below l. below (ground arith)) s.steps (v.earlier step.step_no at)

-- If there is no next step, approving the current one leaves every step approved.
last_step_finishes :
    (s : ApprovalRequest) (step : RequestStepSnapshot)
    → IsValid s
    → s.current_step_no ≡ some step.step_no
    → step.status ≡ step_approved
    → step_at s.steps (step.step_no + 1) ≡ none
    → All (λ st. st.status ≡ step_approved) (replace_step step s.steps)
last_step_finishes s step v at e last =
    replace-All
      (λ st.
        (st.step_no < step.step_no → st.status ≡ step_approved) × (st.step_no < step.step_no + 1))
      (λ st. st.status ≡ step_approved) step e (λ st other h. h.0 (ground arith)) s.steps
      (both _ _ s.steps (v.earlier step.step_no at)
        (none_above 0 (step.step_no + 1) s.steps v.numbered (omega arith) last))

module _ (s : ApprovalRequest) (step : RequestStepSnapshot) (d : DecisionSnapshot) (now : ℕ) where
  approved-IsValid :
      IsValid s
      → s.status ≡ pending
      → s.current_step_no ≡ some step.step_no
      → (w : RequestStepSnapshot) → w.step_no ≡ step.step_no
      → w.status ≡ step_approved
      → IsFair s.requested_by w
      → IsValid (with_step w (advance s step now) now)
  unfolding advance
  approved-IsValid v p at w number e fair =
      elim (Option-cases (step_at s.steps (step.step_no + 1))) [
        | inr (next, found) ↦
            let (_, test) = find-All _ _ s.steps v.fair found in
            let next_number : next.step_no ≡ step.step_no + 1 = ground arith in
            let ahead : advance s step now ≡ record s { current_step_no = some next.step_no } =
              ground arith in
            rw ahead (
              with_step-IsValid w s _ now v refl refl fair
                (λ n h.
                  let it : n ≡ w.step_no + 1 = ground arith in
                  rw it (below_next s w v (rw number at) e))
                (λ h. absurd (ground arith)) (λ h. absurd (h p)))
        | inl last ↦
            let over : advance s step now
                ≡ record s { status = approved; current_step_no = none; resolved_at = some now } =
              ground arith in
            rw over (
              with_step-IsValid w s _ now v refl refl fair (λ n h. absurd (ground arith))
                (λ h. last_step_finishes s w v (rw number at) e (rw number last)) (λ h. refl))
      ]

  settle-IsValid :
      IsValid s
      → s.status ≡ pending
      → s.current_step_no ≡ some step.step_no
      → IsFair s.requested_by step
      → d.decided_by ≢ s.requested_by
      → d.on_behalf_of ≢ some s.requested_by
      → All (λ e. e.decided_by ≢ d.decided_by) step.decisions
      → IsValid (settle s step d now)
  unfolding settle
  settle-IsValid v p at fair by on new =
      let voted = voted-IsFair s.requested_by step d in
      elim (Bool-cases (is_approve d.decision)) [
        | inr reject ↦ rw reject (
            with_step-IsValid _ s _ now v refl refl
              (voted step_rejected fair by on new (λ e. absurd (cc))) (λ n e. absurd (cc))
              (λ e. absurd (cc)) (λ e. refl))
        | inl accept ↦
            elim (Bool-cases (ltb (approvals (step.decisions ++ d ∷ [])) step.required_approvals)) [
              | inl few ↦
                  rw (accept, few)
                    (with_step-IsValid _ s s now v refl refl
                      (voted step.status fair by on new
                        (λ e. ground (arith, fair.enough, approvals-snoc step.decisions d)))
                      (λ n e.
                        let it : n ≡ step.step_no = ground arith in
                        rw it (
                          replace-All (λ st. st.step_no < step.step_no → st.status ≡ step_approved)
                            (λ st. st.step_no < step.step_no → st.status ≡ step_approved)
                            (record step { decisions = step.decisions ++ d ∷ [] })
                            (λ l. absurd (omega arith)) (λ st _ h. h) s.steps
                            (v.earlier step.step_no at)))
                      (λ e. absurd (cc)) v.idle)
              | inr enough ↦
                  rw (accept, enough)
                    (approved-IsValid v p at
                      (record step { status = step_approved; decisions = step.decisions ++ d ∷ [] })
                      refl refl (voted step_approved fair by on new (λ e. ground arith)))
            ]
      ]

-- The decision that a call records.
abbrev pub decision_of : DecideInput → Option String → DecisionSnapshot
decision_of input on_behalf_of = record {
  id = input.decision_id;
  decided_by = input.decider.user_id;
  on_behalf_of = on_behalf_of;
  decision = input.decision;
  comment = clean_comment input.comment;
  decided_at = input.now;
}

-- What a call of `decide` that returns has passed, and what it returns.
pub record Admitted (s : ApprovalRequest) (input : DecideInput) (s' : ApprovalRequest)
    : Type 0 where
  pub step : RequestStepSnapshot
  pub on_behalf_of : Option String
  pub is_open : s.status ≡ pending
  pub current : current_step s ≡ some step
  pub by_another : input.decider.user_id ≢ s.requested_by
  pub eligible : eligibility_of s input.decider ≡ some on_behalf_of
  pub for_another : on_behalf_of ≢ some s.requested_by
  pub first_time :
      any
        (λ d.
          str_eq d.decided_by input.decider.user_id
          || opt_str_eq d.on_behalf_of (some input.decider.user_id))
        step.decisions
      ≡ false
  pub outcome : s' ≡ settle s step (decision_of input on_behalf_of) input.now

pub opt_str_eq-false : (x : Option String) (a : String) → opt_str_eq x (some a) ≡ false → x ≢ some a
opt_str_eq-false none a h e = cc
opt_str_eq-false (some b) a h e = ground (arith, eq_iff b a)

-- A decision that is accepted has passed every guard of `decide` (the request pending, a current
-- step, the user not the requester, eligible, not acting for the requester, without a decision at
-- the step by or for the user), and the request returned settles the step with the decision.
decide-Admitted :
    (s : ApprovalRequest) (input : DecideInput) {s' : ApprovalRequest}
    → decide s input ≡ ok s'
    → Admitted s input s'
unfolding decide
decide-Admitted s input {s'} h = elim (Option-cases (current_step s)) [
  | inl none_left ↦ absurd (ground arith)
  | inr (step, current) ↦ elim (Option-cases (eligibility_of s input.decider)) [
    | inl refused ↦ absurd (ground arith)
    | inr (on_behalf_of, eligible) ↦ ground (
      arith,
      eq_iff input.decider.user_id s.requested_by,
      opt_str_eq-false on_behalf_of s.requested_by,
    )
  ]
]

-- The users of the step's decisions are not the one who decides.
not_decided_by :
    (a : String) (ds : List DecisionSnapshot)
    → All (λ d. (str_eq d.decided_by a || opt_str_eq d.on_behalf_of (some a)) ≡ false) ds
    → All (λ d. d.decided_by ≢ a) ds
not_decided_by a [] h = tt
not_decided_by a (d ∷ ds) h = (ground (arith, eq_iff d.decided_by a), not_decided_by a ds h.1)

pub current_number :
    (s : ApprovalRequest) {step : RequestStepSnapshot}
    → current_step s ≡ some step
    → (n : ℕ) × (s.current_step_no ≡ some n) × (step_at s.steps n ≡ some step)
unfolding current_step
current_number s h = elim (Option-cases s.current_step_no) [
  | inl e ↦ absurd (ground arith)
  | inr (n, e) ↦ (n, e, ground arith)
]

-- A decision that is accepted keeps a valid request valid.
pub decide-IsValid :
    (s : ApprovalRequest) (input : DecideInput) {s' : ApprovalRequest}
    → IsValid s
    → decide s input ≡ ok s'
    → IsValid s'
decide-IsValid s input v h =
    let a = decide-Admitted s input h in
    let (n, at, found) = current_number s a.current in
    let (fair, test) = find-All _ _ s.steps v.fair found in
    let number : a.step.step_no ≡ n = ground arith in
    rw a.outcome (
      settle-IsValid s a.step (decision_of input a.on_behalf_of) input.now v a.is_open
        (rw number at) fair a.by_another a.for_another
        (not_decided_by input.decider.user_id a.step.decisions
          (any-false _ a.step.decisions a.first_time)))

-- A cancellation that is accepted keeps a valid request valid.
cancel_request-IsValid :
    (s : ApprovalRequest) (by : String) (now : ℕ) {s' : ApprovalRequest}
    → IsValid s
    → cancel_request s by now ≡ ok s'
    → IsValid s'
unfolding cancel_request
cancel_request-IsValid s by now v h = ground (arith, v)
