-- ===== src/Session/Bootstrap.antt =====
-- An idle `SessionManager` (packages/auth/src/session.ts) can always issue a session again.
use cesspace_arc.Base.{
  ℕ, ◌+◌, ◌≤◌, ◌<◌, ◌≡◌, refl, true, false, none, [], ◌∷◌, Text, text_eq_refl, leb, lookup, retain,
  total, returned, arith,
}
use cesspace_arc.Session.Data.{
  SessionIdentity, Registry, SessionManager, session_id_reservation_ttl, is_well_formed_session_id,
}
use cesspace_arc.Session.Manager.{
  purge_expired, is_stale, prune_reservations, count_sessions, quota_error, reserve_session_id,
}
use cesspace_arc.Session.Requests.{issuance_error, activate, issue_session}
use cesspace_arc.Session.Origins.{issuance}
use cesspace_arc.Session.Reservation.{IsIdle, reserved_when_idle}

module _ (sha256 : Text → Text) (mono : ℕ → ℕ) (reg : Registry) (wall token id : Text)
    (i : SessionIdentity) (at : ℕ) where
  activated_alone :
      (activate sha256 mono wall token id i (record { sessions = []; reserved = (id, at) ∷ [] })).0
      ≡ returned (issuance wall token id)
  unfolding activate quota_error count_sessions total
  activated_alone = refl

  issued_alone :
      issuance_error reg id i ≡ none
      → mono 1 < at + session_id_reservation_ttl
      → (issue_session sha256 mono reg wall token id i
          (record { sessions = []; reserved = (id, at) ∷ [] })).0
        ≡ returned (issuance wall token id)
  unfolding issue_session purge_expired prune_reservations is_stale retain lookup
  issued_alone fine soon =
      let fresh : leb (at + session_id_reservation_ttl) (mono 1) ≡ false = ground arith in
      rw (issue_session, fine, fresh, text_eq_refl id) activated_alone

-- Take any manager in which no session was authenticated and no identifier reserved within the last
-- 300 seconds, however full it is. If one of the first eight draws has 64 hexadecimal digits, then
-- that draw or one before it is reserved and returned, and every identity that passes the checks of
-- the input is issued a session under it, if the reservation is less than 300 seconds old then.
pub bootstrap_when_idle :
    (mono : ℕ → ℕ) (random : ℕ → Text) (s : SessionManager) (k : ℕ)
    → IsIdle (mono 0) (mono 1) s
    → k < 8
    → is_well_formed_session_id (random k) ≡ true
    → (m : ℕ) × (m ≤ k)
      × ((reserve_session_id mono random s).0 ≡ returned (random m))
      × ((sha256 : Text → Text) (later : ℕ → ℕ) (reg : Registry) (wall token : Text)
            (i : SessionIdentity)
          → issuance_error reg (random m) i ≡ none
          → later 1 < mono 2 + session_id_reservation_ttl
          → (issue_session sha256 later reg wall token
              (random m)
              i
              (reserve_session_id mono random s).1).0
            ≡ returned (issuance wall token (random m)))
bootstrap_when_idle mono random s k idle few formed =
    let (m, le, e) = reserved_when_idle mono random s k idle few formed in
    (
      m,
      le,
      rw e,
      λ sha256 later reg wall token i fine soon.
          rw e (issued_alone sha256 later reg wall token (random m) i (mono 2) fine soon),
    )
