-- ===== src/Glob.antt =====
-- The matcher of path patterns, packages/policy/src/restricted-glob.ts: its definitions (Matcher),
-- the language that a pattern stands for (Language), that the two loops over rolling rows decide
-- it (Rows, Patterns), and what an accepted path is (Paths).
pub mod Matcher
pub mod Language
pub mod Rows
pub mod Patterns
pub mod Paths
pub mod Tests
