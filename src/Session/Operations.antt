-- ===== src/Session/Operations.antt =====
-- Every operation of `SessionManager` (packages/auth/src/session.ts) keeps its invariant, and what a
-- run of them is.
use cesspace_arc.Base.{
  ℕ, zero, suc, ◌+◌, ◌≤◌, Bool, not, Text, length, leb, ◌==◌, leb-false→lt, lookup, delete, retain,
  self-Within, delete-Within, retain-Within, Bool-cases, Option-cases, inl, inr, arith,
}
use cesspace_arc.Session.Data.{SessionRecord, SessionManager, is_well_formed_session_id}
use cesspace_arc.Session.Manager.{
  is_expired, purge_expired, is_stale, prune_reservations, draw_session_id, reserve_session_id,
  release_session_id_reservation, of_device, revoke_session, revoke_sessions_for_device,
  has_session,
}
use cesspace_arc.Session.Invariant.{IsSessionSound, fewer-IsSessionSound, reserve-IsSessionSound}

module _ (s : SessionManager) (w : IsSessionSound s) where
  pub without_session : (id : Text) → IsSessionSound (record s { sessions = delete id s.sessions })
  without_session id =
      fewer-IsSessionSound s _ _ (delete-Within id s.sessions) (self-Within s.reserved) w

  pub without_reservation :
      (id : Text) → IsSessionSound (record s { reserved = delete id s.reserved })
  without_reservation id =
      fewer-IsSessionSound s _ _ (self-Within s.sessions) (delete-Within id s.reserved) w

  kept_sessions :
      (p : SessionRecord → Bool) → IsSessionSound (record s { sessions = retain p s.sessions })
  kept_sessions p =
      fewer-IsSessionSound s _ _ (retain-Within p s.sessions) (self-Within s.reserved) w

  pub purge-IsSessionSound : (now : ℕ) → IsSessionSound (purge_expired now s)
  unfolding purge_expired
  purge-IsSessionSound now = kept_sessions (λ r. not (is_expired now r))

  pub prune-IsSessionSound : (now : ℕ) → IsSessionSound (prune_reservations now s)
  unfolding prune_reservations
  prune-IsSessionSound now =
      let pruned =
        fewer-IsSessionSound s _ _ (self-Within s.sessions)
          (retain-Within (λ t. not (is_stale now t)) s.reserved) w in
      elim (Bool-cases (length s.reserved == 0)) [
        | inl empty ↦ rw empty w
        | inr more ↦ rw more pruned
      ]

  pub release-IsSessionSound : (id : Text) → IsSessionSound (release_session_id_reservation id s).1
  unfolding release_session_id_reservation
  release-IsSessionSound id = elim (Bool-cases (is_well_formed_session_id id)) [
    | inl formed ↦ rw formed (without_reservation id)
    | inr bad ↦ rw bad w
  ]

draw-IsSessionSound :
    (attempts : ℕ) (random : ℕ → Text) (k at : ℕ) (s : SessionManager)
    → suc (length s.sessions + length s.reserved) ≤ 1024
    → IsSessionSound s
    → IsSessionSound (draw_session_id attempts random k at s).1
unfolding draw_session_id
draw-IsSessionSound zero random k at s room w = w
draw-IsSessionSound (suc attempts) random k at s room w =
    let rest = draw-IsSessionSound attempts random (k + 1) at s room w in
    elim (Bool-cases (is_well_formed_session_id (random k))) [
      | inr bad ↦ rw bad rest
      | inl formed ↦ elim (Option-cases (lookup (random k) s.sessions)) [
        | inr (r, used) ↦ rw (formed, used) rest
        | inl free ↦ elim (Option-cases (lookup (random k) s.reserved)) [
          | inr (t, used) ↦ rw (formed, free, used) rest
          | inl unreserved ↦
              rw (formed, free, unreserved)
                (reserve-IsSessionSound s (random k) at free unreserved room w)
        ]
      ]
    ]

module _ (mono : ℕ → ℕ) (s : SessionManager) (w : IsSessionSound s) where
  pub reserve_session_id-IsSessionSound :
      (random : ℕ → Text) → IsSessionSound (reserve_session_id mono random s).1
  unfolding reserve_session_id
  reserve_session_id-IsSessionSound random =
      let live = prune_reservations (mono 1) (purge_expired (mono 0) s) in
      let live_sound : IsSessionSound live =
        prune-IsSessionSound (purge_expired (mono 0) s) (purge-IsSessionSound s w (mono 0))
          (mono 1) in
      elim (Bool-cases (leb 1024 (length live.sessions + length live.reserved))) [
        | inl full ↦ rw full live_sound
        | inr room ↦ rw room (
            draw-IsSessionSound 8 random 0 (mono 2) live (omega (arith, leb-false→lt _ _ room))
              live_sound)
      ]

  pub revoke-IsSessionSound : (id : Text) → IsSessionSound (revoke_session mono id s).1
  unfolding revoke_session
  revoke-IsSessionSound id = elim (Option-cases (lookup id s.sessions)) [
    | inl missing ↦ rw (revoke_session, missing) w
    | inr (r, found) ↦ rw (revoke_session, found) (without_session s w id)
  ]

  pub revoke_for_device-IsSessionSound :
      (device : Text) → IsSessionSound (revoke_sessions_for_device mono device s).1
  unfolding revoke_sessions_for_device
  revoke_for_device-IsSessionSound device = elim (Bool-cases (length device == 0)) [
    | inl empty ↦ rw empty w
    | inr named ↦ rw named (
        kept_sessions (purge_expired (mono 0) s) (purge-IsSessionSound s w (mono 0))
          (λ r. not (of_device device r)))
  ]

  pub has_session-IsSessionSound : (id : Text) → IsSessionSound (has_session mono id s).1
  unfolding has_session
  has_session-IsSessionSound id = elim (Option-cases (lookup id s.sessions)) [
    | inl missing ↦ rw (has_session, missing) w
    | inr (r, found) ↦ elim (Bool-cases (is_expired (mono 0) r)) [
      | inl old ↦
          rw (has_session, found, w.unrevoked id r found, old) (without_session s w r.session_id)
      | inr live ↦ rw (has_session, found, w.unrevoked id r found, live) w
    ]
  ]
