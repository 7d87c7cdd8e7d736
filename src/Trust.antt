-- ===== src/Trust.antt =====
-- The enrolled devices (packages/auth/src/device-identity.ts and trust-store.ts).
pub mod Devices
pub mod Store
pub mod Pins
pub mod Invariant
pub mod Operations
pub mod Runs
pub mod Revocation
mod Tests
