-- ===== src/ProductionOrder/Order.antt =====
-- production-order.ts, errors.ts and events.ts: the aggregate. A method takes the order and returns
-- the order after the call with `ok` or the error thrown; what was written before a throw stays.
pub mod State
pub mod Methods
pub mod Progress
pub mod Commands
pub mod Invariant
pub mod Transitions
pub mod Approval
pub mod Tolerance
pub mod History
