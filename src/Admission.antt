-- ===== src/Admission.antt =====
-- Connection admission, `AdmissionLimiter` of apps/mcp-server/src/admission-limiter.ts, over the
-- request limiter: its operations (Slots), the
-- invariant that they keep (Grants, Invariant), and its bounds (Bounds).
pub mod Slots
pub mod Grants
pub mod Invariant
pub mod Bounds
mod Tests
