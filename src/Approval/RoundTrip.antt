-- ===== src/Approval/RoundTrip.antt =====
-- From `approve` to `redeemAndConsume` of packages/policy/src/approval-state.ts: a token that was
-- granted redeems the request that it was granted for.
