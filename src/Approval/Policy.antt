-- ===== src/Approval/Policy.antt =====
-- approval-policy.ts: the approval matrix of a document type.
use nestjs_api_template.Prelude.{
  Bool, List, Option, Result, String, [], code, err, false, if◌then◌else◌, leb, ltb, none, not, ok,
  some, suc, throw_if, true, ℕ, ◌&&◌, ◌+◌, ◌==◌, ◌>>=◌, ◌>>◌, ◌||◌, ◌∷◌,
}
use nestjs_api_template.Prelude.Int.{leb_ℤ, ltb_ℤ, negsuc, pos, ℤ}
use nestjs_api_template.Prelude.Lists.{filter, length}
use nestjs_api_template.Prelude.Text.{
  Number, Unicode, integer, is_capital, not_integer, text_length, trim,
}

pub data PolicyError : Type 0 where
  invalid_policy : PolicyError

pub record ApprovalPolicyStepSnapshot : Type 0 where
  pub id : String
  pub step_no : ℕ
  pub name : String
  pub approver_role : String
  pub min_amount_minor : Option ℤ
  pub required_approvals : ℕ

pub record ApprovalPolicySnapshot : Type 0 where
  pub id : String
  pub tenant_id : String
  pub document_type : String
  pub name : String
  pub is_active : Bool
  pub steps : List ApprovalPolicyStepSnapshot
  pub created_at : ℕ
  pub updated_at : ℕ

pub record CreatePolicyStepInput : Type 0 where
  pub id : String
  pub name : String
  pub approver_role : String
  pub min_amount_minor : Option ℤ
  pub required_approvals : Option Number

pub record CreateApprovalPolicyProps : Type 0 where
  pub id : String
  pub tenant_id : String
  pub document_type : String
  pub name : String
  pub steps : List CreatePolicyStepInput
  pub now : ℕ

-- `minAmountMinor ?? 0n`
abbrev pub tier_of : Option ℤ → ℤ
tier_of none = pos 0
tier_of (some m) = m

-- `requiredApprovals ?? 1`, checked to be an integer from 1 to 10.
unfoldable pub checked_approvals : Option Number → Result PolicyError ℕ
checked_approvals none = ok 1
checked_approvals (some not_integer) = err invalid_policy
checked_approvals (some (integer (negsuc n))) = err invalid_policy
checked_approvals (some (integer (pos n))) =
    if ltb n 1 || ltb 10 n then err invalid_policy else ok n

-- One round of `props.steps.map`, with the tier of the step before.
unfoldable pub make_step :
    ℤ → ℕ → CreatePolicyStepInput → Result PolicyError ApprovalPolicyStepSnapshot
make_step previous_tier i st = do
  let name = trim st.name
  throw_if (text_length name == 0 || ltb 100 (text_length name)) invalid_policy
  let role = trim st.approver_role
  throw_if (text_length role == 0 || ltb 64 (text_length role)) invalid_policy
  throw_if (ltb_ℤ (tier_of st.min_amount_minor) (pos 0)) invalid_policy
  throw_if (ltb_ℤ (tier_of st.min_amount_minor) previous_tier) invalid_policy
  required ← checked_approvals st.required_approvals
  ok (record {
    id = st.id;
    step_no = i + 1;
    name = name;
    approver_role = role;
    min_amount_minor = st.min_amount_minor;
    required_approvals = required;
  })

unfoldable pub make_steps :
    ℤ → ℕ → List CreatePolicyStepInput → Result PolicyError (List ApprovalPolicyStepSnapshot)
make_steps previous_tier i [] = ok []
make_steps previous_tier i (st ∷ sts) = make_step previous_tier i st >>= λ step.
    make_steps (tier_of st.min_amount_minor) (suc i) sts >>= λ steps. ok (step ∷ steps)

-- `/[A-Z0-9_]/`, at every character.
all_snake : String → Bool
all_snake String.[] = true
all_snake (String.◌∷◌ c s) =
    (is_capital c || leb b'0' (code c) && leb (code c) b'9' || code c == b'_') && all_snake s

-- `/^[A-Z][A-Z0-9_]{2,31}$/`
is_document_type : String → Bool
is_document_type String.[] = false
is_document_type (String.◌∷◌ c s) =
    is_capital c && all_snake s && leb 2 (text_length s) && leb (text_length s) 31

unfoldable pub create_policy :
    ⦃u : Unicode⦄ → CreateApprovalPolicyProps → Result PolicyError ApprovalPolicySnapshot
unfolding is_document_type all_snake
create_policy ⦃u⦄ props = do
  let document_type = u.to_upper_case (trim props.document_type)
  throw_if (not (is_document_type document_type)) invalid_policy
  let name = trim props.name
  throw_if (text_length name == 0 || ltb 100 (text_length name)) invalid_policy
  throw_if (length props.steps == 0) invalid_policy
  steps ← make_steps (negsuc 0) 0 props.steps
  ok (record {
    id = props.id;
    tenant_id = props.tenant_id;
    document_type = document_type;
    name = name;
    is_active = true;
    steps = steps;
    created_at = props.now;
    updated_at = props.now;
  })

-- `st.minAmountMinor === null || amountMinor >= st.minAmountMinor`
abbrev pub applies : ℤ → ApprovalPolicyStepSnapshot → Bool
applies amount st = elim (st.min_amount_minor) [ none ↦ true | some m ↦ leb_ℤ m amount ]

unfoldable pub applicable_steps : ApprovalPolicySnapshot → ℤ → List ApprovalPolicyStepSnapshot
applicable_steps s amount_minor = filter (applies amount_minor) s.steps

unfoldable pub deactivate : ApprovalPolicySnapshot → ℕ → ApprovalPolicySnapshot
deactivate s now = if not s.is_active then s else record s { is_active = false; updated_at = now }
