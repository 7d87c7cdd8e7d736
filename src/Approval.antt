-- ===== src/Approval.antt =====
-- The approval state manager, packages/policy/src/approval-state.ts, and its data,
-- packages/protocol/src/approval.ts.
pub mod Data
pub mod Summary
pub mod State
pub mod Lifecycle
pub mod Requests
pub mod Decisions
pub mod Queries
pub mod Effects
pub mod Invariant
pub mod Transitions
pub mod Grants
pub mod Stores
pub mod Moves
pub mod Expiry
pub mod Admission
pub mod Calls
pub mod Operations
pub mod History
pub mod Redemption
pub mod SingleUse
pub mod Deadlines
pub mod Reuse
pub mod Quotas
pub mod RoundTrip
pub mod Scenario
mod Tests
