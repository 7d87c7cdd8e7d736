-- ===== src/Session/Issuance.antt =====
-- Issuance and authentication (packages/auth/src/session.ts) keep the invariant.
use cesspace_arc.Base.{
  ℕ, suc, ◌≤◌, ◌≡◌, refl, sym, subst, true, false, is_some, Option, none, some, [], Text,
  text_eq_refl, length, ltb, lookup, delete, lookup-delete, length-delete, Bool-cases, Option-cases,
  or_else, byte_length, inl, inr, arith,
}
use cesspace_arc.Session.Data.{
  SessionIdentity, Registry, SessionRecord, SessionManager, has_resolver_provenance,
  is_well_formed_session_id,
}
use cesspace_arc.Session.Bearer.{parse_bearer_credential}
use cesspace_arc.Session.Manager.{
  is_expired, purge_expired, prune_reservations, count_sessions, of_device, of_client, quota_error,
}
use cesspace_arc.Session.Requests.{
  issuance_error, new_session, activate, issue_session, token_matches, is_bound_to,
  authenticate_record, authenticate_as, authenticate,
}
use cesspace_arc.Session.Admission.{
  RequestContext, recognized_id, requires_session_context, admit_in_session, admit_request,
}
use cesspace_arc.Session.Invariant.{IsSessionSound, new-IsSessionSound, refresh-IsSessionSound}
use cesspace_arc.Session.Operations.{
  without_session, without_reservation, purge-IsSessionSound, prune-IsSessionSound,
}

-- What is left of the quotas when no error is thrown.
pub quota_left :
    (device client : Text) (s : SessionManager)
    → quota_error device client s ≡ none
    → (suc (length s.sessions) ≤ 1024)
      × (suc (count_sessions (of_device device) s) ≤ 8)
      × (suc (count_sessions (of_client client) s) ≤ 64)
unfolding quota_error
quota_left device client s h = (ground arith, ground arith, ground arith)

purge-reserved : (now : ℕ) (s : SessionManager) → (purge_expired now s).reserved ≡ s.reserved
unfolding purge_expired
purge-reserved now s = refl

pub prune-sessions :
    (now : ℕ) (s : SessionManager) → (prune_reservations now s).sessions ≡ s.sessions
unfolding prune_reservations
prune-sessions now s = ground arith

module _ (sha256 : Text → Text) (mono : ℕ → ℕ) where
  activate-IsSessionSound :
      (wall token id : Text) (i : SessionIdentity) (s : SessionManager)
      → lookup id s.sessions ≡ none
      → is_some (lookup id s.reserved) ≡ true
      → IsSessionSound s
      → IsSessionSound (activate sha256 mono wall token id i s).1
  unfolding activate
  activate-IsSessionSound wall token id i s free reserved w =
      let used : SessionManager = record s { reserved = delete id s.reserved } in
      let used_sound : IsSessionSound used = without_reservation s w id in
      elim (Option-cases (quota_error i.device_id i.client_id used)) [
        | inr (e, over) ↦ rw (activate, over) used_sound
        | inl within ↦
            let (_, device, client) = quota_left i.device_id i.client_id used within in
            let unreserved : lookup id used.reserved ≡ none =
              ground (arith, lookup-delete id id s.reserved, text_eq_refl id) in
            rw (activate, within)
              (unfold new_session in
                new-IsSessionSound used id (new_session sha256 mono wall token id i) refl refl free
                  unreserved (omega (arith, w.size, length-delete id s.reserved reserved)) device
                  client used_sound)
      ]

  pub issue-IsSessionSound :
      (reg : Registry) (wall token id : Text) (i : SessionIdentity) (s : SessionManager)
      → IsSessionSound s
      → IsSessionSound (issue_session sha256 mono reg wall token id i s).1
  unfolding issue_session
  issue-IsSessionSound reg wall token id i s w =
      let live = purge_expired (mono 0) s in
      let live_sound : IsSessionSound live = purge-IsSessionSound s w (mono 0) in
      let pruned = prune_reservations (mono 1) live in
      let pruned_sound : IsSessionSound pruned = prune-IsSessionSound live live_sound (mono 1) in
      elim (Option-cases (issuance_error reg id i)) [
        | inr (e, bad) ↦ rw (issue_session, bad) w
        | inl fine ↦ elim (Option-cases (lookup id live.sessions)) [
          | inr (r, active) ↦ rw (issue_session, fine, active) live_sound
          | inl free ↦ elim (Bool-cases (is_some (lookup id pruned.reserved))) [
            | inr unreserved ↦ rw (issue_session, fine, free, unreserved) pruned_sound
            | inl reserved ↦
                rw (issue_session, fine, free, reserved)
                  (activate-IsSessionSound wall token id i pruned
                    (rw (prune-sessions (mono 1) live) free) reserved pruned_sound)
          ]
        ]
      ]

  authenticate_record-IsSessionSound :
      (submitted id : Text) (i : SessionIdentity) (r : SessionRecord) (s : SessionManager)
      → lookup id s.sessions ≡ some r
      → IsSessionSound s
      → IsSessionSound (authenticate_record sha256 mono submitted i r s).1
  unfolding authenticate_record
  authenticate_record-IsSessionSound submitted id i r s found w =
      let own = w.keyed id r found in
      let dropped = without_session s w r.session_id in
      let found' : lookup r.session_id s.sessions ≡ some r =
        subst (λ j. lookup j s.sessions ≡ some r) (sym own) found in
      let refreshed =
        refresh-IsSessionSound s r.session_id r (record r { last_auth = mono 1; revoked = false })
          found' refl refl refl (sym (w.unrevoked id r found)) w in
      elim (Bool-cases (ltb 128 (byte_length submitted))) [
        | inl long ↦ rw (w.unrevoked id r found, long) w
        | inr short ↦ elim (Bool-cases (token_matches sha256 submitted r)) [
          | inr wrong ↦ rw (w.unrevoked id r found, short, wrong) w
          | inl right ↦ elim (Bool-cases (is_expired (mono 0) r)) [
            | inl old ↦ rw (w.unrevoked id r found, short, right, old) dropped
            | inr live ↦ elim (Bool-cases (is_bound_to i r)) [
              | inr other ↦ rw (w.unrevoked id r found, short, right, live, other) w
              | inl bound ↦ rw (w.unrevoked id r found, short, right, live, bound) refreshed
            ]
          ]
        ]
      ]

  pub authenticate-IsSessionSound :
      (reg : Registry) (id : Text) (token : Option Text) (i : Option SessionIdentity)
      (s : SessionManager)
      → IsSessionSound s
      → IsSessionSound (authenticate sha256 mono reg id token i s).1
  unfolding authenticate authenticate_as
  authenticate-IsSessionSound reg id token none s w = w
  authenticate-IsSessionSound reg id token (some i) s w =
      elim (Bool-cases (has_resolver_provenance reg (some i))) [
        | inr forged ↦ rw forged w
        | inl real ↦ elim (Bool-cases (is_well_formed_session_id id)) [
          | inr bad ↦ rw (real, bad) w
          | inl formed ↦ elim (Option-cases (lookup id s.sessions)) [
            | inl missing ↦ rw (real, authenticate_as, formed, missing) w
            | inr (r, found) ↦
                rw (real, authenticate_as, formed, found)
                  (authenticate_record-IsSessionSound (or_else token []) id i r s found w)
          ]
        ]
      ]

  admit_in_session-IsSessionSound :
      (reg : Registry) (recognized credential : Option Text) (c : RequestContext)
      (s : SessionManager)
      → IsSessionSound s
      → IsSessionSound (admit_in_session sha256 mono reg recognized credential c s).1
  unfolding admit_in_session
  admit_in_session-IsSessionSound reg none credential c s w = w
  admit_in_session-IsSessionSound reg (some id) none c s w = w
  admit_in_session-IsSessionSound reg (some id) (some token) c s w =
      authenticate-IsSessionSound reg id (some token) c.identity s w

  pub admit-IsSessionSound :
      (reg : Registry) (c : RequestContext) (s : SessionManager)
      → IsSessionSound s
      → IsSessionSound (admit_request sha256 mono reg c s).1
  unfolding admit_request
  admit-IsSessionSound reg c s w = elim (Bool-cases (requires_session_context c s)) [
    | inl inside ↦ rw inside (
        admit_in_session-IsSessionSound reg (recognized_id c.presented_session_id s)
          (parse_bearer_credential c.authorization_header) c s w)
    | inr outside ↦ rw outside w
  ]
