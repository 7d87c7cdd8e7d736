-- ===== src/Session/Scenario.antt =====
-- A run of `SessionManager` (packages/auth/src/session.ts) for its tests, and its outcomes.
use cesspace_arc.Base.{
  ℕ, ◌≡◌, refl, false, none, some, List, [], ◌∷◌, ◌++◌, Text, text, text_eq, replicate, lookup,
  insert, delete, retain, total, is_blank, lower_ascii, is_hex, byte_length, thrown,
}
use cesspace_arc.Trust.Devices.{
  is_valid_device_id, is_valid_spki_pin, has_nul, client_id_ok, client_type_ok,
}
use cesspace_arc.Session.Data.{
  SessionIdentity, Registry, SessionRecord, SessionManager, has_resolver_provenance,
  is_well_formed_session_id, already_active, not_reserved,
}
use cesspace_arc.Session.Bearer.{
  includes_unit, has_separator, has_scheme, accept_token, parse_bearer_credential,
}
use cesspace_arc.Session.Manager.{
  empty_manager, is_expired, purge_expired, is_stale, prune_reservations, draw_session_id,
  reserve_session_id, release_session_id_reservation, count_sessions, quota_error, revoke_session,
  close_session, revoke_sessions_for_device, has_session,
}
use cesspace_arc.Session.Requests.{
  issuance_error, new_session, activate, issue_session, token_matches, is_bound_to, trusted,
  authenticate_record, authenticate_as, authenticate,
}
use cesspace_arc.Session.Admission.{
  RequestContext, ordinary, authenticated, unauthenticated, recognized_id, requires_session_context,
  admit_in_session, admit_before_session, admit_request,
}
use cesspace_arc.Session.Runs.{SessionCall, reserves, issues, run_call, run_calls}

unfoldable pub session : Unit {0}
unfolding text_eq lookup insert delete retain total is_blank is_hex byte_length is_valid_device_id
    is_valid_spki_pin has_nul client_id_ok client_type_ok has_resolver_provenance
    is_well_formed_session_id lower_ascii includes_unit has_separator has_scheme accept_token
    parse_bearer_credential is_expired purge_expired is_stale prune_reservations draw_session_id
    reserve_session_id release_session_id_reservation count_sessions quota_error revoke_session
    close_session revoke_sessions_for_device has_session issuance_error new_session activate
    issue_session token_matches is_bound_to authenticate_record authenticate_as authenticate
    recognized_id requires_session_context admit_in_session admit_before_session admit_request
    run_call run_calls
session = tt

-- The digest of a text in these runs is the text itself.
abbrev pub plain : Text → Text
plain s = s

abbrev pub clock : ℕ → ℕ → ℕ
clock n k = n

abbrev pub id_a : Text
id_a = replicate 64 97

abbrev pub token_a : Text
token_a = replicate 64 98

abbrev pub laptop : SessionIdentity
laptop = record {
  reference = 7;
  device_id = replicate 32 99;
  client_id = text "laptop";
  client_type = text "cli";
  spki_pin = replicate 64 100;
}

abbrev pub resolved : Registry
resolved = 7 ∷ []

abbrev pub opening : List SessionCall
opening =
    reserves (clock 5) (λ k. id_a) ∷ issues (clock 6) resolved (text "t") token_a id_a laptop ∷ []

abbrev pub opened : SessionManager
opened = run_calls plain opening empty_manager

abbrev pub a_session : SessionRecord
a_session = new_session plain (clock 6) (text "t") token_a id_a laptop

one_session : lookup id_a opened.sessions ≡ some a_session
unfolding session
one_session = refl

no_second_issue :
    (issue_session plain (clock 7) resolved (text "t") token_a id_a laptop opened).0
    ≡ thrown already_active
unfolding session
no_second_issue = refl

unreserved_refused :
    (issue_session plain (clock 7) resolved (text "t") token_a id_a laptop empty_manager).0
    ≡ thrown not_reserved
unfolding session
unreserved_refused = refl

idle_session_refused :
    (authenticate plain (clock 300000000006) resolved id_a (some token_a) (some laptop) opened).0
    ≡ none
unfolding session
idle_session_refused = refl

copied_identity_refused :
    (authenticate plain
      (clock 8)
      resolved
      id_a
      (some token_a)
      (some (record laptop { reference = 8 }))
      opened).0
    ≡ none
unfolding session
copied_identity_refused = refl

abbrev pub bearer : Text
bearer = text "beAREr " ++ token_a

abbrev pub ordinary_request : RequestContext
ordinary_request = record {
  kind = ordinary;
  has_existing_session_context = false;
  presented_session_id = some id_a;
  authorization_header = some bearer;
  identity = some laptop;
}

ordinary_admitted :
    (admit_request plain (clock 8) resolved ordinary_request opened).0
    ≡ authenticated (trusted a_session)
unfolding session
ordinary_admitted = refl

tokenless_refused :
    (admit_request plain
      (clock 8)
      resolved
      (record ordinary_request { presented_session_id = none; authorization_header = none })
      opened).0
    ≡ unauthenticated
unfolding session
tokenless_refused = refl
