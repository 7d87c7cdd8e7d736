-- ===== src/Policy.antt =====
-- The declarative policy, packages/policy/src/declarative-policy.ts: its tools and documents
-- (Tools, Documents), its normal form (Normal), its engine (Engine, Evaluation), the rule that wins
-- (Order, Winner), what the decisions are (Decisions, Reorder), and what a document means (Unique,
-- Meaning, Refinement).
pub mod Order
pub mod Tools
pub mod Documents
pub mod Normal
pub mod Engine
pub mod Evaluation
pub mod Winner
pub mod Decisions
pub mod Reorder
pub mod Unique
pub mod Meaning
pub mod Refinement
mod Tests
