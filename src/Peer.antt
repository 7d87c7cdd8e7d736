-- ===== src/Peer.antt =====
-- The keys of the limiters, `normalizePeerNetwork` of apps/mcp-server/src/remote-resource-limits.ts:
-- the reading of addresses (Addresses), the writing of keys (Keys), and what the keys are (Digits,
-- Networks).
pub mod Addresses
pub mod Keys
pub mod Digits
pub mod Networks
mod Tests
