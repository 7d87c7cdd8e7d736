-- ===== src/Limiter.antt =====
-- The request limiter of the remote gateways, `BoundedRequestLimiter` of
-- apps/mcp-server/src/remote-resource-limits.ts: its objects (Store), its table
-- of token buckets (Buckets), the invariant of the table (Invariant, Holds, Steps), the rate of a
-- bucket (Rates), and what the decisions leave of the table (Decisions).
pub mod Store
pub mod Buckets
pub mod Invariant
pub mod Holds
pub mod Steps
pub mod Rates
pub mod Decisions
mod Tests
