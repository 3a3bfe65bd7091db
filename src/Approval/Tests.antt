-- ===== src/Approval/Tests.antt =====
-- Policies and requests at concrete values, on which the theorems apply.
use nestjs_api_template.Approval.Decide.{decide-IsValid, decision_of}
use nestjs_api_template.Approval.Invariant.{IsValid, create_request-IsValid}
use nestjs_api_template.Approval.Policy.{
  ApprovalPolicySnapshot, ApprovalPolicyStepSnapshot, CreateApprovalPolicyProps, applicable_steps,
  checked_approvals, create_policy, make_step, make_steps, tier_of,
}
use nestjs_api_template.Approval.Request.{
  ApprovalRequest, CreateApprovalRequestProps, DecideInput, DecisionSnapshot, RequestStepSnapshot,
  approve_it, cancel_request, cancelled, clean_comment, create_request, current_step, decide,
  delegator, eligibility_of, pending, request_steps, settle, step_pending, with_step,
}
use nestjs_api_template.Approval.Tiers.{applicable_steps_are_first}
use nestjs_api_template.Prelude.{List, [], arith, none, ok, refl, some, true, ◌++◌, ◌∷◌, ◌≡◌}
use nestjs_api_template.Prelude.Int.{pos, ◌<ℤ◌, ◌≤ℤ◌}
use nestjs_api_template.Prelude.Lists.{All}
use nestjs_api_template.Prelude.Text.{Unicode, integer, text_length, trim}

-- Tables under which a text in capitals stays as it is.
abbrev capitals : Unicode
capitals = record { to_upper_case = λ s. s; locale_compare = λ a b. pos 0 }

abbrev policy_input : CreateApprovalPolicyProps
policy_input = record {
  id = "P";
  tenant_id = "T";
  document_type = "ORDER";
  name = "Orders";
  steps =
      record {
        id = "S1";
        name = "Manager";
        approver_role = "manager";
        min_amount_minor = none;
        required_approvals = some (integer (pos 2));
      }
      ∷ record {
        id = "S2";
        name = "Director";
        approver_role = "director";
        min_amount_minor = some (pos 1000);
        required_approvals = none;
      }
      ∷ [];
  now = 1;
}

abbrev manager_step : ApprovalPolicyStepSnapshot
manager_step = record {
  id = "S1";
  step_no = 1;
  name = "Manager";
  approver_role = "manager";
  min_amount_minor = none;
  required_approvals = 2;
}

abbrev director_step : ApprovalPolicyStepSnapshot
director_step = record {
  id = "S2";
  step_no = 2;
  name = "Director";
  approver_role = "director";
  min_amount_minor = some (pos 1000);
  required_approvals = 1;
}

abbrev policy : ApprovalPolicySnapshot
policy = record {
  id = "P";
  tenant_id = "T";
  document_type = "ORDER";
  name = "Orders";
  is_active = true;
  steps = manager_step ∷ director_step ∷ [];
  created_at = 1;
  updated_at = 1;
}

policy_is_created : create_policy ⦃u = capitals⦄ policy_input ≡ ok policy
unfolding create_policy trim text_length make_steps make_step checked_approvals
policy_is_created = refl

applicable_steps_are_first_example :
    (rest : List ApprovalPolicyStepSnapshot) × (policy.steps
      ≡ applicable_steps policy (pos 500) ++ rest)
    × All (λ st. tier_of st.min_amount_minor ≤ℤ pos 500) (applicable_steps policy (pos 500))
    × All (λ st. pos 500 <ℤ tier_of st.min_amount_minor) rest
applicable_steps_are_first_example =
    applicable_steps_are_first ⦃u = capitals⦄ policy_input (pos 500) (omega arith) policy_is_created

abbrev request_input : CreateApprovalRequestProps
request_input = record {
  id = "R";
  tenant_id = "T";
  document_type = "ORDER";
  document_id = "D";
  policy_id = some "P";
  amount_minor = pos 500;
  currency = "THB";
  requested_by = "ann";
  steps = (manager_step, "RS1") ∷ [];
  now = 2;
}

abbrev request_with : List DecisionSnapshot → ApprovalRequest
request_with decisions = record {
  id = "R";
  tenant_id = "T";
  document_type = "ORDER";
  document_id = "D";
  policy_id = some "P";
  amount_minor = pos 500;
  currency = "THB";
  requested_by = "ann";
  status = pending;
  current_step_no = some 1;
  steps =
      record {
        id = "RS1";
        step_no = 1;
        name = "Manager";
        approver_role = "manager";
        required_approvals = 2;
        status = step_pending;
        decisions = decisions;
      }
      ∷ [];
  created_at = 2;
  resolved_at = none;
  updated_at = 2;
}

abbrev request : ApprovalRequest
request = request_with []

request_is_created : create_request ⦃u = capitals⦄ request_input ≡ ok request
unfolding create_request request_steps
request_is_created = refl

request-IsValid : IsValid request
request-IsValid = create_request-IsValid ⦃u = capitals⦄ request_input request_is_created

-- The manager's decision, and the one of a user who holds the manager's role by delegation.
abbrev by_manager : DecideInput
by_manager = record {
  decider = record { user_id = "bob"; own_roles = "manager" ∷ []; delegated_roles = [] };
  decision = approve_it;
  comment = none;
  decision_id = "X1";
  now = 2;
}

abbrev by_delegate : DecideInput
by_delegate = record {
  decider = record {
    user_id = "cy";
    own_roles = [];
    delegated_roles = ("bob", "manager" ∷ []) ∷ [];
  };
  decision = approve_it;
  comment = none;
  decision_id = "X2";
  now = 2;
}

abbrev decided : ApprovalRequest
decided = request_with (decision_of by_manager none ∷ [])

manager_decides : decide request by_manager ≡ ok decided
unfolding decide current_step eligibility_of clean_comment settle with_step
manager_decides = refl

decide-IsValid_example : IsValid decided
decide-IsValid_example = decide-IsValid request by_manager request-IsValid manager_decides

cancelled_is :
    cancel_request request "ann" 3
    ≡ ok (record request {
      status = cancelled;
      current_step_no = none;
      resolved_at = some 3;
      updated_at = 3;
    })
unfolding cancel_request
cancelled_is = refl

-- The step that Bob has approved.
abbrev decided_step : RequestStepSnapshot
decided_step = record {
  id = "RS1";
  step_no = 1;
  name = "Manager";
  approver_role = "manager";
  required_approvals = 2;
  status = step_pending;
  decisions = decision_of by_manager none ∷ [];
}

-- Bob has approved the step; his delegate approves it on his behalf once more.
delegate_decides_again :
    decide decided by_delegate
    ≡ ok (settle decided decided_step (decision_of by_delegate (some "bob")) 2)
unfolding decide current_step eligibility_of delegator clean_comment
delegate_decides_again = refl
