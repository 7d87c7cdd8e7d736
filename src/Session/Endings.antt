-- ===== src/Session/Endings.antt =====
-- Revocation of sessions (packages/auth/src/session.ts) is final.
use cesspace_arc.Base.{Bool, false, Text, text_eq}
use cesspace_arc.Session.Runs.{SessionCall, issues}

-- The call asks for a session under `id`.
abbrev pub issues_under : Text → SessionCall → Bool
issues_under id (issues _ _ _ _ k _) = text_eq k id
issues_under id _ = false
