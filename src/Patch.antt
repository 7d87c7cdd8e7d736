-- ===== src/Patch.antt =====
-- Patches.
pub mod Data
pub mod Headers
pub mod Parser
pub mod Parsing
pub mod Apply
pub mod Hunks
pub mod Invariant
pub mod Keeping
pub mod Sections
pub mod Parsed
pub mod Meaning
pub mod Checks
pub mod Application
pub mod Reversal
pub mod Undo
mod Tests
