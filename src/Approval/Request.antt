-- ===== src/Approval/Request.antt =====
-- approval-request.ts: a request with its steps, and the methods that decide and cancel it.
use nestjs_api_template.Approval.Policy.{ApprovalPolicyStepSnapshot}
use nestjs_api_template.Prelude.{
  Bool, List, Option, Result, String, [], err, false, if◌then◌else◌, ltb, map, none, not, ok, some,
  suc, throw_if, true, ℕ, ◌++◌, ◌+◌, ◌==◌, ◌>>=◌, ◌>>◌, ◌||◌, ◌∷◌,
}
use nestjs_api_template.Prelude.Int.{ltb_ℤ, pos, ℤ}
use nestjs_api_template.Prelude.Lists.{any, filter, find, length}
use nestjs_api_template.Prelude.Text.{Unicode, is_empty, opt_str_eq, str_eq, text_length, trim}

pub data ApprovalStatus : Type 0 where
  pending : ApprovalStatus
  approved : ApprovalStatus
  rejected : ApprovalStatus
  cancelled : ApprovalStatus

pub data StepStatus : Type 0 where
  step_pending : StepStatus
  step_approved : StepStatus
  step_rejected : StepStatus

pub data Decision : Type 0 where
  approve_it : Decision
  reject_it : Decision

pub data RequestError : Type 0 where
  approval_not_pending : String → ApprovalStatus → RequestError
  not_an_eligible_approver : String → ℕ → String → RequestError
  self_approval : String → RequestError
  already_decided : String → ℕ → RequestError
  not_the_requester : String → RequestError
  invalid_request : RequestError

pub record DecisionSnapshot : Type 0 where
  pub id : String
  pub decided_by : String
  pub on_behalf_of : Option String
  pub decision : Decision
  pub comment : Option String
  pub decided_at : ℕ

pub record RequestStepSnapshot : Type 0 where
  pub id : String
  pub step_no : ℕ
  pub name : String
  pub approver_role : String
  pub required_approvals : ℕ
  pub status : StepStatus
  pub decisions : List DecisionSnapshot

pub record ApprovalRequest : Type 0 where
  pub id : String
  pub tenant_id : String
  pub document_type : String
  pub document_id : String
  pub policy_id : Option String
  pub amount_minor : ℤ
  pub currency : String
  pub requested_by : String
  pub status : ApprovalStatus
  pub current_step_no : Option ℕ
  pub steps : List RequestStepSnapshot
  pub created_at : ℕ
  pub resolved_at : Option ℕ
  pub updated_at : ℕ

-- The steps of a new request come with the ids that the steps of the request get.
pub record CreateApprovalRequestProps : Type 0 where
  pub id : String
  pub tenant_id : String
  pub document_type : String
  pub document_id : String
  pub policy_id : Option String
  pub amount_minor : ℤ
  pub currency : String
  pub requested_by : String
  pub steps : List (ApprovalPolicyStepSnapshot × String)
  pub now : ℕ

pub record Decider : Type 0 where
  pub user_id : String
  pub own_roles : List String
  pub delegated_roles : List (String × List String)

pub record DecideInput : Type 0 where
  pub decider : Decider
  pub decision : Decision
  pub comment : Option String
  pub decision_id : String
  pub now : ℕ

abbrev pub is_pending : ApprovalStatus → Bool
is_pending pending = true
is_pending _ = false

abbrev pub is_approve : Decision → Bool
is_approve approve_it = true
is_approve reject_it = false

unfoldable pub request_steps :
    ℕ → List (ApprovalPolicyStepSnapshot × String) → List RequestStepSnapshot
request_steps i [] = []
request_steps i ((st, request_step_id) ∷ sts) =
    record {
      id = request_step_id;
      step_no = i + 1;
      name = st.name;
      approver_role = st.approver_role;
      required_approvals = st.required_approvals;
      status = step_pending;
      decisions = [];
    }
    ∷ request_steps (suc i) sts

unfoldable pub create_request :
    ⦃u : Unicode⦄ → CreateApprovalRequestProps → Result RequestError ApprovalRequest
create_request ⦃u⦄ props = do
  throw_if (ltb_ℤ props.amount_minor (pos 0)) invalid_request
  let steps = request_steps 0 props.steps
  let auto = length steps == 0
  ok (record {
    id = props.id;
    tenant_id = props.tenant_id;
    document_type = props.document_type;
    document_id = props.document_id;
    policy_id = props.policy_id;
    amount_minor = props.amount_minor;
    currency = u.to_upper_case props.currency;
    requested_by = props.requested_by;
    status = if auto then approved else pending;
    current_step_no = if auto then none else some 1;
    steps = steps;
    created_at = props.now;
    resolved_at = if auto then some props.now else none;
    updated_at = props.now;
  })

-- `steps.find((st) => st.stepNo === n)`
abbrev pub step_at : List RequestStepSnapshot → ℕ → Option RequestStepSnapshot
step_at steps n = find (λ st. st.step_no == n) steps

unfoldable pub current_step : ApprovalRequest → Option RequestStepSnapshot
current_step s = elim (s.current_step_no) [ none ↦ none | some n ↦ step_at s.steps n ]

-- The loop over the delegations: whose role the decider acts with.
unfoldable pub delegator : String → List (String × List String) → Option String
delegator role [] = none
delegator role ((from, roles) ∷ rest) =
    let later = delegator role rest in if any (str_eq role) roles then some from else later

-- `eligibilityOf`: `none` if not eligible, else on whose behalf.
unfoldable pub eligibility_of : ApprovalRequest → Decider → Option (Option String)
eligibility_of s decider = elim (current_step s) [
  | none ↦ none
  | some step ↦
      if any (str_eq step.approver_role) decider.own_roles
      then some none
      else elim (delegator step.approver_role decider.delegated_roles) [
        | none ↦ none
        | some from ↦ some (some from)
      ]
]

-- `(input.comment ?? '').trim() || null`
unfoldable pub clean_comment : Option String → Option String
clean_comment none = none
clean_comment (some c) = if is_empty (trim c) then none else some (trim c)

abbrev pub comment_length : Option String → ℕ
comment_length none = 0
comment_length (some c) = text_length c

abbrev pub or_throw : {A : Type 0} → Option A → RequestError → Result RequestError A
or_throw none e = err e
or_throw (some a) e = ok a

-- The steps with one of them replaced, by its number.
unfoldable pub replace_step :
    RequestStepSnapshot → List RequestStepSnapshot → List RequestStepSnapshot
replace_step step steps = map (λ st. if st.step_no == step.step_no then step else st) steps

unfoldable pub with_step : RequestStepSnapshot → ApprovalRequest → ℕ → ApprovalRequest
unfolding replace_step
with_step step s now = record s { steps = replace_step step s.steps; updated_at = now }

-- How many approvals the decisions hold.
abbrev pub approvals : List DecisionSnapshot → ℕ
approvals ds = length (filter (λ d. is_approve d.decision) ds)

-- The header once the step has its approvals: the next step, or the end.
unfoldable pub advance : ApprovalRequest → RequestStepSnapshot → ℕ → ApprovalRequest
advance s step now = elim (step_at s.steps (step.step_no + 1)) [
  | some next ↦ record s { current_step_no = some next.step_no }
  | none ↦ record s { status = approved; current_step_no = none; resolved_at = some now }
]

-- The end of `decide`, with the new decision appended to the step's.
unfoldable pub settle :
    ApprovalRequest → RequestStepSnapshot → DecisionSnapshot → ℕ → ApprovalRequest
settle s step decision now =
    let decisions = step.decisions ++ decision ∷ [] in
    let voted = record step { decisions = decisions } in
    if not (is_approve decision.decision)
    then with_step (record voted { status = step_rejected })
        (record s { status = rejected; current_step_no = none; resolved_at = some now }) now
    else if ltb (approvals decisions) step.required_approvals
    then with_step voted s now
    else with_step (record voted { status = step_approved }) (advance s step now) now

unfoldable pub decide : ApprovalRequest → DecideInput → Result RequestError ApprovalRequest
decide s input = do
  throw_if (not (is_pending s.status)) (approval_not_pending s.id s.status)
  step ← or_throw (current_step s) invalid_request
  let user_id = input.decider.user_id
  throw_if (str_eq user_id s.requested_by) (self_approval s.id)
  on_behalf_of ←
      or_throw (eligibility_of s input.decider)
        (not_an_eligible_approver s.id step.step_no step.approver_role)
  throw_if (opt_str_eq on_behalf_of (some s.requested_by)) (self_approval s.id)
  throw_if
      (any (λ d. str_eq d.decided_by user_id || opt_str_eq d.on_behalf_of (some user_id))
        step.decisions)
      (already_decided s.id step.step_no)
  let comment = clean_comment input.comment
  throw_if (ltb 500 (comment_length comment)) invalid_request
  ok (
      settle s step
        (record {
          id = input.decision_id;
          decided_by = user_id;
          on_behalf_of = on_behalf_of;
          decision = input.decision;
          comment = comment;
          decided_at = input.now;
        })
        input.now)

unfoldable pub cancel_request : ApprovalRequest → String → ℕ → Result RequestError ApprovalRequest
cancel_request s by now = do
  throw_if (not (is_pending s.status)) (approval_not_pending s.id s.status)
  throw_if (not (str_eq by s.requested_by)) (not_the_requester s.id)
  ok (record s {
    status = cancelled;
    current_step_no = none;
    resolved_at = some now;
    updated_at = now;
  })
