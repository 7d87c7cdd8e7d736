-- ===== src/Session/Reservation.antt =====
-- `reserveSessionId` (packages/auth/src/session.ts): what it returns, and that room comes back.
use cesspace_arc.Base.{
  ℕ, zero, suc, ◌+◌, ◌≤◌, ◌<◌, ◌≡◌, refl, Bool, true, false, not, ◌&&◌, is_some, List, [], ◌∷◌,
  Text, length, All, ◌==◌, Dict, lookup, insert, retain, returned, Bool-cases, inl, inr, arith,
}
use native.Mathlib.Nat.{zero-add}
use cesspace_arc.Session.Data.{
  SessionRecord, SessionManager, is_well_formed_session_id, session_idle_timeout,
  session_id_reservation_ttl,
}
use cesspace_arc.Session.Manager.{
  empty_manager, is_expired, purge_expired, is_stale, prune_reservations, draw_session_id,
  reserve_session_id,
}

-- A drawn text is a new identifier for `s`.
unfoldable pub is_usable : Text → SessionManager → Bool
is_usable id s =
    is_well_formed_session_id id
    && not (is_some (lookup id s.sessions))
    && not (is_some (lookup id s.reserved))

module _ (random : ℕ → Text) (at : ℕ) (s : SessionManager) where
  -- The first usable one of the draws is reserved.
  draws :
      (n k j : ℕ)
      → j < n
      → is_usable (random (k + j)) s ≡ true
      → (m : ℕ) × (m ≤ j)
        × (is_usable (random (k + m)) s ≡ true)
        × (draw_session_id n random k at s ≡ (
          returned (random (k + m)),
          record s { reserved = insert (random (k + m)) at s.reserved },
        ))
  unfolding draw_session_id is_usable
  draws zero k j h u = absurd (omega arith)
  draws (suc n) k zero h u =
      let e : k + 0 ≡ k = omega arith in
      let good : is_usable (random k) s ≡ true = rw (← e) u in
      (0, omega arith, u, rw e (ground (arith, good)))
  draws (suc n) k (suc j) h u = elim (Bool-cases (is_usable (random k) s)) [
    | inl good ↦
        let e : k + 0 ≡ k = omega arith in (0, omega arith, rw e good, rw e (ground (arith, good)))
    | inr bad ↦
        let shift : k + suc j ≡ k + 1 + j = omega arith in
        let (m, le, found, result) = draws n (k + 1) j (omega arith) (rw (← shift) u) in
        let back : k + 1 + m ≡ k + suc m = omega arith in
        (suc m, omega arith, rw (← back) found, rw (← back) (ground (arith, bad, result)))
  ]

retain-none {ℓ} :
    {V : Type ℓ} (p : V → Bool) (m : Dict V)
    → All (λ (e : Text × V). p e.1 ≡ false) m
    → retain p m ≡ []
unfolding retain
retain-none p [] h = refl
retain-none p ((k, v) ∷ m) (first, h) = rw first (retain-none p m h)

nil_of_length {ℓ} : {A : Type ℓ} (xs : List A) → length xs ≡ 0 → xs ≡ []
nil_of_length [] h = refl
nil_of_length (x ∷ xs) h = absurd (omega arith)

All-map {ℓ κ μ} :
    {A : Type ℓ} (P : A → Type κ) (Q : A → Type μ) (xs : List A)
    → ((x : A) → P x → Q x)
    → All P xs
    → All Q xs
All-map P Q [] f h = tt
All-map P Q (x ∷ xs) f (p, h) = (f x p, All-map P Q xs f h)

-- No session was authenticated and no identifier reserved in the last 300 seconds.
pub record IsIdle (sessions_at reserved_at : ℕ) (s : SessionManager) : Type 0 where
  pub sessions :
      All
        (λ (e : Text × SessionRecord). e.1.last_auth + session_idle_timeout ≤ sessions_at)
        s.sessions
  pub reserved : All (λ (e : Text × ℕ). e.1 + session_id_reservation_ttl ≤ reserved_at) s.reserved

idle-expired :
    (now : ℕ) (r : SessionRecord)
    → r.last_auth + session_idle_timeout ≤ now
    → not (is_expired now r) ≡ false
unfolding is_expired
idle-expired now r h = ground arith

old-stale : (now t : ℕ) → t + session_id_reservation_ttl ≤ now → not (is_stale now t) ≡ false
unfolding is_stale
old-stale now t h = ground arith

emptied :
    (now now' : ℕ) (s : SessionManager)
    → IsIdle now now' s
    → prune_reservations now' (purge_expired now s) ≡ empty_manager
unfolding prune_reservations purge_expired
emptied now now' s w =
    let no_sessions : retain (λ r. not (is_expired now r)) s.sessions ≡ [] =
      retain-none (λ r. not (is_expired now r)) s.sessions
        (All-map _ _ s.sessions (λ e h. idle-expired now e.1 h) w.sessions) in
    let no_reserved : retain (λ t. not (is_stale now' t)) s.reserved ≡ [] =
      retain-none (λ t. not (is_stale now' t)) s.reserved
        (All-map _ _ s.reserved (λ e h. old-stale now' e.1 h) w.reserved) in
    elim (Bool-cases (length s.reserved == 0)) [
      | inl empty ↦
          let nil : s.reserved ≡ [] = nil_of_length s.reserved (ground arith) in
          rw (empty, no_sessions, nil)
      | inr more ↦ rw (more, no_sessions, no_reserved)
    ]

fresh_usable : (id : Text) → is_well_formed_session_id id ≡ true → is_usable id empty_manager ≡ true
unfolding is_usable lookup
fresh_usable id h = ground arith

module _ (mono : ℕ → ℕ) (random : ℕ → Text) (s : SessionManager) where
  -- The manager with one reservation.
  abbrev pub one_reserved : ℕ → SessionManager
  one_reserved m = record { sessions = []; reserved = (random m, mono 2) ∷ [] }

  pub reserved_when_idle :
      (k : ℕ)
      → IsIdle (mono 0) (mono 1) s
      → k < 8
      → is_well_formed_session_id (random k) ≡ true
      → (m : ℕ) × (m ≤ k)
        × (reserve_session_id mono random s ≡ (returned (random m), one_reserved m))
  unfolding reserve_session_id insert
  reserved_when_idle k w few formed =
      let e = emptied (mono 0) (mono 1) s w in
      let (m, le, _, result) =
        draws random (mono 2) empty_manager 8 0 k few
          (fresh_usable (random (0 + k)) (rw (zero-add k) formed)) in
      (m, le, rw (e, ← zero-add m) result)
