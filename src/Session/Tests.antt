-- ===== src/Session/Tests.antt =====
-- The theorems on `SessionManager` (packages/auth/src/session.ts) at the run of Scenario.
use cesspace_arc.Base.{
  ℕ, ◌+◌, ◌≤◌, ◌<◌, ◌≡◌, ◌↔◌, refl, true, false, none, some, Text, text, length, lookup, returned,
  arith,
}
use cesspace_arc.Session.Data.{
  SessionIdentity, Registry, SessionRecord, TrustedSession, has_resolver_provenance,
  is_well_formed_session_id, session_id_reservation_ttl,
}
use cesspace_arc.Session.Bearer.{parse_bearer_credential}
use cesspace_arc.Session.BearerLaws.{IsBearer, parse_bearer_credential_iff}
use cesspace_arc.Session.Manager.{
  empty_manager, reserve_session_id, count_sessions, of_device, of_client,
}
use cesspace_arc.Session.Requests.{issuance_error, issue_session, trusted, authenticate}
use cesspace_arc.Session.Admission.{
  initialize, ordinary, bootstrap_tokenless, authenticated, recognized_id, admit_request,
}
use cesspace_arc.Session.Runs.{run_calls, session_quotas}
use cesspace_arc.Session.Authentication.{IsAccepted, refreshed, authenticate_iff}
use cesspace_arc.Session.Origins.{issuance}
use cesspace_arc.Session.History.{IsBackedBy, authenticated_was_issued}
use cesspace_arc.Session.RoundTrip.{issued_session_authenticates}
use cesspace_arc.Session.Bootstrap.{bootstrap_when_idle}
use cesspace_arc.Session.Decisions.{admit_request_iff}
use cesspace_arc.Session.Scenario.{
  session, plain, clock, id_a, token_a, laptop, resolved, opening, opened, a_session, bearer,
  ordinary_request,
}

parse_bearer_credential_iff_example :
    ((parse_bearer_credential (some bearer) ≡ some token_a) ↔ IsBearer bearer token_a)
    × (parse_bearer_credential none ≡ none)
parse_bearer_credential_iff_example = parse_bearer_credential_iff bearer token_a

session_quotas_example :
    (length (run_calls plain opening empty_manager).sessions
        + length (run_calls plain opening empty_manager).reserved
      ≤ 1024)
    × ((d : Text) → count_sessions (of_device d) (run_calls plain opening empty_manager) ≤ 8)
    × ((c : Text) → count_sessions (of_client c) (run_calls plain opening empty_manager) ≤ 64)
    × ((k : Text) (r : SessionRecord)
        → lookup k (run_calls plain opening empty_manager).sessions ≡ some r
        → (r.session_id ≡ k)
          × (r.revoked ≡ false)
          × (lookup k (run_calls plain opening empty_manager).reserved ≡ none))
session_quotas_example = session_quotas plain opening

authenticate_iff_example :
    (authenticate plain (clock 8) resolved id_a (some token_a) (some laptop) opened
      ≡ (some (trusted a_session), refreshed (clock 8) a_session opened))
    ↔ ((r : SessionRecord) × (has_resolver_provenance resolved (some laptop) ≡ true)
        × (is_well_formed_session_id id_a ≡ true)
        × (lookup id_a opened.sessions ≡ some r)
        × IsAccepted plain 8 token_a laptop r
        × (trusted a_session ≡ trusted r)
        × (refreshed (clock 8) a_session opened ≡ refreshed (clock 8) r opened))
authenticate_iff_example =
    authenticate_iff plain (clock 8) resolved id_a (some token_a) laptop opened
      (refreshed (clock 8) a_session opened) (trusted a_session)

authenticated_was_issued_example : IsBackedBy plain opening 8 id_a token_a laptop
unfolding session
authenticated_was_issued_example =
    authenticated_was_issued plain opening (clock 8) resolved id_a (some token_a) laptop
      (trusted a_session) (refreshed (clock 8) a_session opened) refl

issued_session_authenticates_example :
    authenticate plain (clock 9) resolved id_a (some token_a) (some laptop) opened
    ≡ (some (trusted a_session), refreshed (clock 9) a_session opened)
unfolding session
issued_session_authenticates_example =
    issued_session_authenticates plain (clock 6) (clock 9) resolved resolved (text "t") token_a id_a
      laptop laptop (reserve_session_id (clock 5) (λ k. id_a) empty_manager).1 opened refl refl refl
      refl refl refl refl (omega arith)

abbrev much_later : ℕ
much_later = 300000000006

bootstrap_when_idle_example :
    (m : ℕ) × (m ≤ 0)
    × ((reserve_session_id (clock much_later) (λ k. token_a) opened).0 ≡ returned token_a)
    × ((sha256 : Text → Text) (later : ℕ → ℕ) (reg : Registry) (wall token : Text)
          (i : SessionIdentity)
        → issuance_error reg token_a i ≡ none
        → later 1 < much_later + session_id_reservation_ttl
        → (issue_session sha256 later reg wall token token_a i
            (reserve_session_id (clock much_later) (λ k. token_a) opened).1).0
          ≡ returned (issuance wall token token_a))
unfolding session
bootstrap_when_idle_example =
    bootstrap_when_idle (clock much_later) (λ k. token_a) opened 0
      (record { sessions = omega arith; reserved = tt }) (omega arith) refl

admit_request_iff_example :
    ((t : TrustedSession)
      → (admit_request plain (clock 8) resolved ordinary_request opened ≡ (authenticated t, opened))
        ↔ ((id : Text) × (token : Text) × (some id_a ≡ some id)
            × (parse_bearer_credential (some bearer) ≡ some token)
            × (authenticate plain (clock 8) resolved id (some token) (some laptop) opened
                ≡ (some t, opened))))
    × ((admit_request plain (clock 8) resolved ordinary_request opened
          ≡ (bootstrap_tokenless (some laptop), opened))
        ↔ ((ordinary ≡ initialize)
            × (false ≡ false)
            × (recognized_id (some id_a) opened ≡ none)
            × (parse_bearer_credential (some bearer) ≡ none)
            × (has_resolver_provenance resolved (some laptop) ≡ true)
            × (opened ≡ opened)))
admit_request_iff_example =
    admit_request_iff plain (clock 8) resolved ordinary_request opened opened
