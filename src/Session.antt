-- ===== src/Session.antt =====
-- Sessions (packages/auth/src/session.ts).
pub mod Data
pub mod Resolver
pub mod Bearer
pub mod BearerLaws
pub mod Manager
pub mod Requests
pub mod Admission
pub mod Invariant
pub mod Operations
pub mod Issuance
pub mod Runs
pub mod Authentication
pub mod Failures
pub mod Effects
pub mod Origins
pub mod History
pub mod Endings
pub mod RoundTrip
pub mod Reservation
pub mod Bootstrap
pub mod Decisions
pub mod Scenario
mod Tests
mod ResolverTests
