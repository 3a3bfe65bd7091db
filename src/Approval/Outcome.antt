-- ===== src/Approval/Outcome.antt =====
-- What a resolved request does.
use nestjs_api_template.Approval.Request.{
  ApprovalRequest, DecideInput, approval_not_pending, cancel_request, decide, pending,
}
use nestjs_api_template.Prelude.{String, arith, err, ℕ, ◌≡◌, ◌≢◌}

-- A request that is no longer pending refuses every decision and every cancellation.
resolved_refuses :
    (s : ApprovalRequest) (input : DecideInput) (by : String) (now : ℕ)
    → s.status ≢ pending
    → (decide s input ≡ err (approval_not_pending s.id s.status))
      × (cancel_request s by now ≡ err (approval_not_pending s.id s.status))
unfolding decide cancel_request
resolved_refuses s input by now h = (ground arith, ground arith)
