-- ===== src/Session/Runs.antt =====
-- Runs of the operations of `SessionManager` (packages/auth/src/session.ts) and the bounds that hold
-- in them.
use cesspace_arc.Base.{
  ℕ, ◌+◌, ◌≤◌, ◌≡◌, false, Option, none, some, List, [], ◌∷◌, Text, length, lookup,
}
use cesspace_arc.Session.Data.{SessionIdentity, Registry, SessionRecord, SessionManager}
use cesspace_arc.Session.Manager.{
  empty_manager, count_sessions, of_device, of_client, reserve_session_id,
  release_session_id_reservation, revoke_session, close_session, revoke_sessions_for_device,
  clear_sessions, get_reserved_session_id_count, get_active_session_count,
  get_active_session_count_for_device, get_active_session_count_for_client, has_session,
  list_sessions,
}
use cesspace_arc.Session.Requests.{issue_session, authenticate}
use cesspace_arc.Session.Admission.{RequestContext, admit_request}
use cesspace_arc.Session.Invariant.{IsSessionSound, empty-IsSessionSound}
use cesspace_arc.Session.Operations.{
  purge-IsSessionSound, prune-IsSessionSound, reserve_session_id-IsSessionSound,
  release-IsSessionSound, revoke-IsSessionSound, revoke_for_device-IsSessionSound,
  has_session-IsSessionSound,
}
use cesspace_arc.Session.Issuance.{
  issue-IsSessionSound, authenticate-IsSessionSound, admit-IsSessionSound,
}

-- A call with the readings of its clock, its random draws and its inputs.
pub data SessionCall : Type 0 where
  reserves : (mono : ℕ → ℕ) (random : ℕ → Text) → SessionCall
  releases : Text → SessionCall
  issues : (mono : ℕ → ℕ) → Registry → (wall token id : Text) → SessionIdentity → SessionCall
  authenticates :
      (mono : ℕ → ℕ) → Registry → Text → Option Text → Option SessionIdentity → SessionCall
  admits : (mono : ℕ → ℕ) → Registry → RequestContext → SessionCall
  ends closes ends_device asks_has asks_device asks_client : (mono : ℕ → ℕ) → Text → SessionCall
  asks_reserved asks_active lists : (mono : ℕ → ℕ) → SessionCall
  clears : SessionCall

module _ (sha256 : Text → Text) where
  unfoldable pub run_call : SessionCall → SessionManager → SessionManager
  unfolding reserve_session_id release_session_id_reservation issue_session authenticate
      admit_request revoke_session close_session revoke_sessions_for_device has_session
      get_active_session_count_for_device get_active_session_count_for_client
      get_reserved_session_id_count get_active_session_count list_sessions clear_sessions
  run_call (reserves mono random) s = (reserve_session_id mono random s).1
  run_call (releases id) s = (release_session_id_reservation id s).1
  run_call (issues mono reg wall token id i) s = (issue_session sha256 mono reg wall token id i s).1
  run_call (authenticates mono reg id token i) s = (authenticate sha256 mono reg id token i s).1
  run_call (admits mono reg c) s = (admit_request sha256 mono reg c s).1
  run_call (ends mono id) s = (revoke_session mono id s).1
  run_call (closes mono id) s = (close_session mono id s).1
  run_call (ends_device mono device) s = (revoke_sessions_for_device mono device s).1
  run_call (asks_has mono id) s = (has_session mono id s).1
  run_call (asks_device mono device) s = (get_active_session_count_for_device mono device s).1
  run_call (asks_client mono client) s = (get_active_session_count_for_client mono client s).1
  run_call (asks_reserved mono) s = (get_reserved_session_id_count mono s).1
  run_call (asks_active mono) s = (get_active_session_count mono s).1
  run_call (lists mono) s = (list_sessions mono s).1
  run_call clears s = clear_sessions s

  unfoldable pub run_calls : List SessionCall → SessionManager → SessionManager
  unfolding run_call
  run_calls [] s = s
  run_calls (c ∷ cs) s = run_calls cs (run_call c s)

  pub call-IsSessionSound :
      (c : SessionCall) (s : SessionManager) → IsSessionSound s → IsSessionSound (run_call c s)
  unfolding run_call close_session get_active_session_count_for_device
      get_active_session_count_for_client get_reserved_session_id_count get_active_session_count
      list_sessions clear_sessions
  call-IsSessionSound (reserves mono random) s w = reserve_session_id-IsSessionSound mono s w random
  call-IsSessionSound (releases id) s w = release-IsSessionSound s w id
  call-IsSessionSound (issues mono reg wall token id i) s w =
      issue-IsSessionSound sha256 mono reg wall token id i s w
  call-IsSessionSound (authenticates mono reg id token i) s w =
      authenticate-IsSessionSound sha256 mono reg id token i s w
  call-IsSessionSound (admits mono reg c) s w = admit-IsSessionSound sha256 mono reg c s w
  call-IsSessionSound (ends mono id) s w = revoke-IsSessionSound mono s w id
  call-IsSessionSound (closes mono id) s w = revoke-IsSessionSound mono s w id
  call-IsSessionSound (ends_device mono device) s w =
      revoke_for_device-IsSessionSound mono s w device
  call-IsSessionSound (asks_has mono id) s w = has_session-IsSessionSound mono s w id
  call-IsSessionSound (asks_device mono device) s w = purge-IsSessionSound s w (mono 0)
  call-IsSessionSound (asks_client mono client) s w = purge-IsSessionSound s w (mono 0)
  call-IsSessionSound (asks_reserved mono) s w = prune-IsSessionSound s w (mono 0)
  call-IsSessionSound (asks_active mono) s w = purge-IsSessionSound s w (mono 0)
  call-IsSessionSound (lists mono) s w = purge-IsSessionSound s w (mono 0)
  call-IsSessionSound clears s w = empty-IsSessionSound

  pub calls-IsSessionSound :
      (cs : List SessionCall) (s : SessionManager)
      → IsSessionSound s
      → IsSessionSound (run_calls cs s)
  unfolding run_calls
  calls-IsSessionSound [] s w = w
  calls-IsSessionSound (c ∷ cs) s w =
      calls-IsSessionSound cs (run_call c s) (call-IsSessionSound c s w)

  -- After any calls on a new manager, at any times and with any random draws: sessions and
  -- reservations are at most 1024 together, no device has more than 8 sessions and no client more
  -- than 64; no stored session is marked revoked; and an identifier of a session is not reserved,
  -- so that no second session can be issued under it.
  pub session_quotas :
      (cs : List SessionCall)
      → (length (run_calls cs empty_manager).sessions + length (run_calls cs empty_manager).reserved
          ≤ 1024)
        × ((d : Text) → count_sessions (of_device d) (run_calls cs empty_manager) ≤ 8)
        × ((c : Text) → count_sessions (of_client c) (run_calls cs empty_manager) ≤ 64)
        × ((k : Text) (r : SessionRecord)
            → lookup k (run_calls cs empty_manager).sessions ≡ some r
            → (r.session_id ≡ k)
              × (r.revoked ≡ false)
              × (lookup k (run_calls cs empty_manager).reserved ≡ none))
  session_quotas cs =
      let w = calls-IsSessionSound cs empty_manager empty-IsSessionSound in
      (w.size, w.devices, w.clients, λ k r h. (w.keyed k r h, w.unrevoked k r h, w.apart k r h))
