-- ===== src/Session/Failures.antt =====
-- What a failed authentication of packages/auth/src/session.ts leaves.
use cesspace_arc.Base.{
  ℕ, ◌≡◌, ◌⊎◌, true, none, Text, ltb, delete, byte_length, Bool-cases, inl, inr, arith,
}
use cesspace_arc.Session.Data.{SessionIdentity, SessionRecord, SessionManager}
use cesspace_arc.Session.Manager.{is_expired}
use cesspace_arc.Session.Requests.{token_matches, is_bound_to, authenticate_record}

abbrev pub without : SessionRecord → SessionManager → SessionManager
without r s = record s { sessions = delete r.session_id s.sessions }

module _ (sha256 : Text → Text) (mono : ℕ → ℕ) where
  pub failed_record :
      (submitted : Text) (i : SessionIdentity) (r : SessionRecord) (s : SessionManager)
      → (authenticate_record sha256 mono submitted i r s).0 ≡ none
      → ((authenticate_record sha256 mono submitted i r s).1 ≡ s)
        ⊎ ((token_matches sha256 submitted r ≡ true)
            × (is_expired (mono 0) r ≡ true)
            × ((authenticate_record sha256 mono submitted i r s).1 ≡ without r s))
  unfolding authenticate_record
  failed_record submitted i r s h = elim (Bool-cases r.revoked) [
    | inl gone ↦ inl (ground arith)
    | inr active ↦ elim (Bool-cases (ltb 128 (byte_length submitted))) [
      | inl long ↦ inl (ground arith)
      | inr short ↦ elim (Bool-cases (token_matches sha256 submitted r)) [
        | inr wrong ↦ inl (ground arith)
        | inl right ↦ elim (Bool-cases (is_expired (mono 0) r)) [
          | inl old ↦ inr (right, old, ground arith)
          | inr live ↦ elim (Bool-cases (is_bound_to i r)) [
            | inr other ↦ inl (ground arith)
            | inl bound ↦ absurd (ground arith)
          ]
        ]
      ]
    ]
  ]
