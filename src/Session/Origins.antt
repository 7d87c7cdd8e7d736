-- ===== src/Session/Origins.antt =====
-- A session that an operation of packages/auth/src/session.ts leaves was there before, or the
-- operation issued it.
use cesspace_arc.Base.{
  ℕ, ◌≡◌, ◌⊎◌, refl, sym, subst, ap, ◌∙◌, is_some, some, List, [], ◌∷◌, ◌++◌, Text, text_eq,
  text_eq_iff, Dict, lookup, insert, delete, lookup-insert, returned, Bool-cases, Option-cases, inl,
  inr, arith,
}
use cesspace_arc.Session.Data.{
  SessionIdentity, Registry, SessionRecord, SessionManager, SessionIssuance,
}
use cesspace_arc.Session.Manager.{
  purge_expired, prune_reservations, quota_error, clear_sessions, close_session,
  get_active_session_count_for_device, get_active_session_count_for_client,
  get_reserved_session_id_count, get_active_session_count, list_sessions,
}
use cesspace_arc.Session.Requests.{issuance_error, new_session, activate, issue_session}
use cesspace_arc.Session.Invariant.{IsSessionSound}
use cesspace_arc.Session.Issuance.{prune-sessions}
use cesspace_arc.Session.Effects.{
  core, purge-Carried, reserve-Carried, revoke-Carried, has_session-Carried,
  revoke_for_device-Carried, release-Carried, authenticate-Carried, admit-Carried,
}
use cesspace_arc.Session.Runs.{
  SessionCall, reserves, releases, issues, authenticates, admits, ends, closes, ends_device,
  asks_has, asks_device, asks_client, asks_reserved, asks_active, lists, clears, run_call,
  run_calls, call-IsSessionSound,
}

abbrev pub issuance : (wall token id : Text) → SessionIssuance
issuance wall token id = record { session_id = id; token = token; issued_at = wall }

module _ (sha256 : Text → Text) where
  -- The call is an issuance that succeeds in `s`, and `x` is its record.
  abbrev pub Issues : SessionCall → SessionManager → Text → SessionRecord → Type 0
  Issues (issues mono reg wall token id i) s k x =
      ((issue_session sha256 mono reg wall token id i s).0 ≡ returned (issuance wall token id))
      × (k ≡ id)
      × (x ≡ new_session sha256 mono wall token id i)
  Issues _ s k x = ⊥

  abbrev Origin : SessionCall → SessionManager → Text → SessionRecord → Type 0
  Origin c s k x =
      ((r : SessionRecord) × (lookup k s.sessions ≡ some r) × (core x ≡ core r)) ⊎ Issues c s k x

  module _ (mono : ℕ → ℕ) (reg : Registry) (wall token id : Text) (i : SessionIdentity) (k : Text)
      (x : SessionRecord) where
    activate-origin :
        (s : SessionManager)
        → lookup k (activate sha256 mono wall token id i s).1.sessions ≡ some x
        → (lookup k s.sessions ≡ some x)
          ⊎ (((activate sha256 mono wall token id i s).0 ≡ returned (issuance wall token id))
              × (k ≡ id)
              × (x ≡ new_session sha256 mono wall token id i))
    unfolding activate
    activate-origin s h =
        let used : SessionManager = record s { reserved = delete id s.reserved } in
        let new = new_session sha256 mono wall token id i in
        elim (Option-cases (quota_error i.device_id i.client_id used)) [
          | inr (e, over) ↦ inl (rw (activate, over) at h)
          | inl within ↦
              let h' : lookup k (insert id new s.sessions) ≡ some x = rw (activate, within) at h in
              elim (Bool-cases (text_eq id k)) [
                | inl same ↦
                    let e : new ≡ x = ground (arith, lookup-insert id k new s.sessions) in
                    inr (rw (activate, within), sym ((text_eq_iff id k).0 same), sym e)
                | inr other ↦ inl (ground (arith, lookup-insert id k new s.sessions))
              ]
        ]

    issue-Origin :
        (s : SessionManager)
        → IsSessionSound s
        → lookup k (issue_session sha256 mono reg wall token id i s).1.sessions ≡ some x
        → Origin (issues mono reg wall token id i) s k x
    unfolding issue_session
    issue-Origin s w h =
        let live = purge_expired (mono 0) s in
        let pruned = prune_reservations (mono 1) live in
        let same = prune-sessions (mono 1) live in
        let before : lookup k pruned.sessions ≡ some x
            → Origin (issues mono reg wall token id i) s k x =
          λ f. inl (
            purge-Carried s w (mono 0) k x
              (subst (λ (m : Dict SessionRecord). lookup k m ≡ some x) same f)) in
        elim (Option-cases (issuance_error reg id i)) [
          | inr (e, bad) ↦ inl (x, (rw (issue_session, bad) at h), refl)
          | inl fine ↦ elim (Option-cases (lookup id live.sessions)) [
            | inr (r, active) ↦
                inl (purge-Carried s w (mono 0) k x (rw (issue_session, fine, active) at h))
            | inl free ↦ elim (Bool-cases (is_some (lookup id pruned.reserved))) [
              | inr unreserved ↦ before (rw (issue_session, fine, free, unreserved) at h)
              | inl reserved ↦
                  elim (activate-origin pruned (rw (issue_session, fine, free, reserved) at h)) [
                    | inl old ↦ before old
                    | inr (ok, here, new) ↦
                        inr (rw (issue_session, fine, free, reserved) ok, here, new)
                  ]
            ]
          ]
        ]

  -- Every call.
  call-Origin :
      (c : SessionCall) (s : SessionManager) (k : Text) (x : SessionRecord)
      → IsSessionSound s
      → lookup k (run_call sha256 c s).sessions ≡ some x
      → Origin c s k x
  unfolding run_call close_session get_active_session_count_for_device
      get_active_session_count_for_client get_reserved_session_id_count get_active_session_count
      list_sessions clear_sessions lookup
  call-Origin (issues mono reg wall token id i) s k x w h =
      issue-Origin mono reg wall token id i k x s w h
  call-Origin (reserves mono random) s k x w h = inl (reserve-Carried mono s w random k x h)
  call-Origin (releases id) s k x w h = inl (release-Carried s w id k x h)
  call-Origin (authenticates mono reg id token i) s k x w h =
      inl (authenticate-Carried sha256 mono s w reg id token i k x h)
  call-Origin (admits mono reg c) s k x w h = inl (admit-Carried sha256 mono s w reg c k x h)
  call-Origin (ends mono id) s k x w h = inl (revoke-Carried mono s w id k x h)
  call-Origin (closes mono id) s k x w h = inl (revoke-Carried mono s w id k x h)
  call-Origin (ends_device mono device) s k x w h =
      inl (revoke_for_device-Carried mono s w device k x h)
  call-Origin (asks_has mono id) s k x w h = inl (has_session-Carried mono s w id k x h)
  call-Origin (asks_device mono device) s k x w h = inl (purge-Carried s w (mono 0) k x h)
  call-Origin (asks_client mono client) s k x w h = inl (purge-Carried s w (mono 0) k x h)
  call-Origin (asks_reserved mono) s k x w h = inl (
    x,
    subst (λ (m : Dict SessionRecord). lookup k m ≡ some x) (prune-sessions (mono 0) s) h,
    refl,
  )
  call-Origin (asks_active mono) s k x w h = inl (purge-Carried s w (mono 0) k x h)
  call-Origin (lists mono) s k x w h = inl (purge-Carried s w (mono 0) k x h)
  call-Origin clears s k x w h = absurd (cc)

  -- A call among `cs` issues the session under `k`, whose data are those of `x`.
  pub record IsIssuedIn (cs : List SessionCall) (s : SessionManager) (k : Text) (x : SessionRecord)
      : Type 0 where
    pub before : List SessionCall
    pub issuing : SessionCall
    pub after : List SessionCall
    pub split : cs ≡ before ++ issuing ∷ after
    pub record_then : SessionRecord
    pub by : Issues issuing (run_calls sha256 before s) k record_then
    pub same : core x ≡ core record_then

  pub calls-origin :
      (cs : List SessionCall) (s : SessionManager) (k : Text) (x : SessionRecord)
      → IsSessionSound s
      → lookup k (run_calls sha256 cs s).sessions ≡ some x
      → ((r : SessionRecord) × (lookup k s.sessions ≡ some r) × (core x ≡ core r))
        ⊎ IsIssuedIn cs s k x
  unfolding run_calls
  calls-origin [] s k x w h = inl (x, h, refl)
  calls-origin (c ∷ cs) s k x w h =
      elim (calls-origin cs (run_call sha256 c s) k x (call-IsSessionSound sha256 c s w) h) [
        | inr later ↦ inr (record {
          before = c ∷ later.before;
          issuing = later.issuing;
          after = later.after;
          split = ap (λ l. c ∷ l) later.split;
          record_then = later.record_then;
          by = later.by;
          same = later.same;
        })
        | inl (y, stored, same) ↦ elim (call-Origin c s k y w stored) [
          | inl (r, old, same') ↦ inl (r, old, same ∙ same')
          | inr new ↦ inr (record {
            before = [];
            issuing = c;
            after = cs;
            split = refl;
            record_then = y;
            by = new;
            same = same;
          })
        ]
      ]
