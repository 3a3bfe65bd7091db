-- ===== src/Approval.antt =====
-- Approval policies and requests (src/modules/approval/domain).
pub mod Policy
pub mod Tiers
pub mod Request
pub mod Invariant
pub mod Decide
pub mod Outcome
mod Tests
