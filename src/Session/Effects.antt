-- ===== src/Session/Effects.antt =====
-- What one operation of `SessionManager` (packages/auth/src/session.ts) does to the stored sessions.
use cesspace_arc.Base.{
  ℕ, zero, suc, ◌+◌, ◌≡◌, refl, sym, subst, ap, not, Option, none, some, [], Text, text_eq,
  text_eq_iff, length, ◌==◌, Dict, lookup, delete, lookup-insert, Within, delete-Within,
  retain-Within, Bool-cases, Option-cases, or_else, inl, inr, arith,
}
use cesspace_arc.Session.Data.{
  SessionIdentity, Registry, SessionRecord, SessionManager, has_resolver_provenance,
  is_well_formed_session_id,
}
use cesspace_arc.Session.Bearer.{parse_bearer_credential}
use cesspace_arc.Session.Manager.{
  is_expired, purge_expired, prune_reservations, draw_session_id, reserve_session_id,
  release_session_id_reservation, of_device, revoke_session, revoke_sessions_for_device,
  has_session,
}
use cesspace_arc.Session.Requests.{authenticate_record, authenticate_as, authenticate}
use cesspace_arc.Session.Admission.{
  RequestContext, recognized_id, requires_session_context, admit_in_session, admit_request,
}
use cesspace_arc.Session.Invariant.{IsSessionSound}
use cesspace_arc.Session.Issuance.{prune-sessions}
use cesspace_arc.Session.Authentication.{record_success, refreshed}
use cesspace_arc.Session.Failures.{failed_record, without}

-- All of a session but the time of its last authentication.
abbrev pub core : SessionRecord → SessionRecord
core r = record r { last_auth = 0 }

-- A session that is stored later was stored before.
abbrev pub Carried : SessionManager → SessionManager → Type 0
Carried s s' =
    (k : Text) (x : SessionRecord)
    → lookup k s'.sessions ≡ some x
    → (r : SessionRecord) × (lookup k s.sessions ≡ some r) × (core x ≡ core r)

Carried-same : (s s' : SessionManager) → s'.sessions ≡ s.sessions → Carried s s'
Carried-same s s' e k x h = (x, subst (λ (m : Dict SessionRecord). lookup k m ≡ some x) e h, refl)

module _ (s : SessionManager) (w : IsSessionSound s) where
  Within-Carried : (s' : SessionManager) → Within s'.sessions s.sessions → Carried s s'
  Within-Carried s' a k x h = (x, a.found k x w.distinct h, refl)

  pub purge-Carried : (now : ℕ) → Carried s (purge_expired now s)
  unfolding purge_expired
  purge-Carried now =
      Within-Carried (purge_expired now s) (retain-Within (λ r. not (is_expired now r)) s.sessions)

  pub release-Carried : (id : Text) → Carried s (release_session_id_reservation id s).1
  unfolding release_session_id_reservation
  release-Carried id = Carried-same s (release_session_id_reservation id s).1 (ground arith)

draw-sessions :
    (attempts : ℕ) (random : ℕ → Text) (k at : ℕ) (s : SessionManager)
    → (draw_session_id attempts random k at s).1.sessions ≡ s.sessions
unfolding draw_session_id
draw-sessions zero random k at s = refl
draw-sessions (suc n) random k at s = ground (arith, draw-sessions n random (k + 1) at s)

module _ (mono : ℕ → ℕ) (s : SessionManager) (w : IsSessionSound s) where
  reserve-sessions :
      (random : ℕ → Text)
      → (reserve_session_id mono random s).1.sessions ≡ (purge_expired (mono 0) s).sessions
  unfolding reserve_session_id
  reserve-sessions random =
      let live = prune_reservations (mono 1) (purge_expired (mono 0) s) in
      ground (
        arith,
        draw-sessions 8 random 0 (mono 2) live,
        prune-sessions (mono 1) (purge_expired (mono 0) s),
      )

  pub reserve-Carried : (random : ℕ → Text) → Carried s (reserve_session_id mono random s).1
  reserve-Carried random k x h =
      purge-Carried s w (mono 0) k x
        (subst (λ (m : Dict SessionRecord). lookup k m ≡ some x) (reserve-sessions random) h)

  pub revoke-Carried : (id : Text) → Carried s (revoke_session mono id s).1
  unfolding revoke_session
  revoke-Carried id = elim (Option-cases (lookup id s.sessions)) [
    | inl missing ↦ rw (revoke_session, missing) (Carried-same s s refl)
    | inr (r, found) ↦
        rw (revoke_session, found)
          (Within-Carried s w (record s { sessions = delete id s.sessions })
            (delete-Within id s.sessions))
  ]

  pub has_session-Carried : (id : Text) → Carried s (has_session mono id s).1
  unfolding has_session
  has_session-Carried id = elim (Option-cases (lookup id s.sessions)) [
    | inl missing ↦ rw (has_session, missing) (Carried-same s s refl)
    | inr (r, found) ↦ elim (Bool-cases (is_expired (mono 0) r)) [
      | inl old ↦
          rw (has_session, found, w.unrevoked id r found, old)
            (Within-Carried s w (without r s) (delete-Within r.session_id s.sessions))
      | inr live ↦ rw (has_session, found, w.unrevoked id r found, live) (Carried-same s s refl)
    ]
  ]

  pub revoke_for_device-Carried :
      (device : Text) → Carried s (revoke_sessions_for_device mono device s).1
  unfolding revoke_sessions_for_device
  revoke_for_device-Carried device = elim (Bool-cases (length device == 0)) [
    | inl empty ↦ rw empty (Carried-same s s refl)
    | inr named ↦ rw named (λ k x h. purge-Carried s w (mono 0) k x (
        (retain-Within (λ r. not (of_device device r)) (purge_expired (mono 0) s).sessions).found k
          x ((retain-Within (λ r. not (is_expired (mono 0) r)) s.sessions).distinct w.distinct) h))
  ]

-- Authentication.
module _ (sha256 : Text → Text) (mono : ℕ → ℕ) (s : SessionManager) (w : IsSessionSound s) where
  refreshed-Carried :
      (r : SessionRecord) → lookup r.session_id s.sessions ≡ some r → Carried s (refreshed mono r s)
  refreshed-Carried r found k x h = elim (Bool-cases (text_eq r.session_id k)) [
    | inl same ↦
        let here = (text_eq_iff r.session_id k).0 same in
        let e : record r { last_auth = mono 1 } ≡ x =
          ground
            (arith, lookup-insert r.session_id k (record r { last_auth = mono 1 }) s.sessions) in
        (
          r,
          subst (λ j. lookup j s.sessions ≡ some r) here found,
          ap (λ (y : SessionRecord). core y) (sym e),
        )
    | inr other ↦ (
      x,
      ground (arith, lookup-insert r.session_id k (record r { last_auth = mono 1 }) s.sessions),
      refl,
    )
  ]

  record-Carried :
      (submitted id : Text) (i : SessionIdentity) (r : SessionRecord)
      → lookup id s.sessions ≡ some r
      → Carried s (authenticate_record sha256 mono submitted i r s).1
  record-Carried submitted id i r found =
      let found' : lookup r.session_id s.sessions ≡ some r =
        subst (λ j. lookup j s.sessions ≡ some r) (sym (w.keyed id r found)) found in
      let result = authenticate_record sha256 mono submitted i r s in
      elim (Option-cases result.0) [
        | inl failed ↦ elim (failed_record sha256 mono submitted i r s failed) [
          | inl same ↦ Carried-same s result.1 (ap (λ (m : SessionManager). m.sessions) same)
          | inr (_, _, dropped) ↦
              subst (Carried s) (sym dropped)
                (Within-Carried s w (without r s) (delete-Within r.session_id s.sessions))
        ]
        | inr (t, ok) ↦
            let e : result ≡ (some t, result.1) = ap (λ o. (o, result.1)) ok in
            let (_, _, after) = record_success sha256 mono submitted i r s result.1 t e in
            subst (Carried s) (sym after) (refreshed-Carried r found')
      ]

  pub authenticate-Carried :
      (reg : Registry) (id : Text) (token : Option Text) (i : Option SessionIdentity)
      → Carried s (authenticate sha256 mono reg id token i s).1
  unfolding authenticate authenticate_as
  authenticate-Carried reg id token none = Carried-same s s refl
  authenticate-Carried reg id token (some i) =
      elim (Bool-cases (has_resolver_provenance reg (some i))) [
        | inr forged ↦ rw forged (Carried-same s s refl)
        | inl real ↦ elim (Bool-cases (is_well_formed_session_id id)) [
          | inr bad ↦ rw (real, bad) (Carried-same s s refl)
          | inl formed ↦ elim (Option-cases (lookup id s.sessions)) [
            | inl missing ↦ rw (real, authenticate_as, formed, missing) (Carried-same s s refl)
            | inr (r, found) ↦
                rw (real, authenticate_as, formed, found)
                  (record-Carried (or_else token []) id i r found)
          ]
        ]
      ]

  in_session-Carried :
      (reg : Registry) (recognized credential : Option Text) (c : RequestContext)
      → Carried s (admit_in_session sha256 mono reg recognized credential c s).1
  unfolding admit_in_session
  in_session-Carried reg none credential c = Carried-same s s refl
  in_session-Carried reg (some id) none c = Carried-same s s refl
  in_session-Carried reg (some id) (some token) c =
      authenticate-Carried reg id (some token) c.identity

  pub admit-Carried :
      (reg : Registry) (c : RequestContext) → Carried s (admit_request sha256 mono reg c s).1
  unfolding admit_request
  admit-Carried reg c = elim (Bool-cases (requires_session_context c s)) [
    | inl inside ↦ rw inside (
        in_session-Carried reg (recognized_id c.presented_session_id s)
          (parse_bearer_credential c.authorization_header) c)
    | inr outside ↦ rw outside (Carried-same s s refl)
  ]
