-- ===== src/Session/Admission.antt =====
-- Admission of a request by `SessionManager` (packages/auth/src/session.ts). `sha256` is the digest
-- of a text, `mono k` the k-th reading of the monotonic clock in a call.
use cesspace_arc.Base.{
  ℕ, Bool, true, false, ◌&&◌, ◌||◌, Option, none, some, Text, if◌then◌else◌, is_some, lookup,
}
use cesspace_arc.Session.Data.{
  SessionIdentity, Registry, SessionManager, TrustedSession, has_resolver_provenance,
  is_well_formed_session_id,
}
use cesspace_arc.Session.Bearer.{parse_bearer_credential}
use cesspace_arc.Session.Requests.{authenticate}

pub data RequestKind : Type 0 where
  initialize ordinary : RequestKind

pub record RequestContext : Type 0 where
  pub kind : RequestKind
  pub has_existing_session_context : Bool
  pub presented_session_id : Option Text
  pub authorization_header : Option Text
  pub identity : Option SessionIdentity

pub data AdmissionOutcome : Type 0 where
  bootstrap_tokenless : Option SessionIdentity → AdmissionOutcome
  authenticated : TrustedSession → AdmissionOutcome
  unauthenticated invalid_session_token : AdmissionOutcome

abbrev pub is_ordinary : RequestKind → Bool
is_ordinary initialize = false
is_ordinary ordinary = true

abbrev pub admission_of : Option TrustedSession → AdmissionOutcome
admission_of none = invalid_session_token
admission_of (some t) = authenticated t

-- The presented identifier, if it is well formed and of a stored session.
unfoldable pub recognized_id : Option Text → SessionManager → Option Text
unfolding is_well_formed_session_id lookup
recognized_id none s = none
recognized_id (some id) s =
    if is_well_formed_session_id id && is_some (lookup id s.sessions) then some id else none

unfoldable pub requires_session_context : RequestContext → SessionManager → Bool
unfolding recognized_id
requires_session_context c s =
    c.has_existing_session_context
    || is_some (recognized_id c.presented_session_id s)
    || is_ordinary c.kind && is_some c.presented_session_id

-- Before there is a session.
unfoldable pub admit_before_session :
    Registry → (credential : Option Text) → RequestContext → AdmissionOutcome
unfolding has_resolver_provenance
admit_before_session reg credential c =
    if is_some credential
    then invalid_session_token
    else if is_ordinary c.kind
    then unauthenticated
    else if has_resolver_provenance reg c.identity
    then bootstrap_tokenless c.identity
    else unauthenticated

module _ (sha256 : Text → Text) (mono : ℕ → ℕ) (reg : Registry) where
  -- In the domain of sessions.
  unfoldable pub admit_in_session :
      (recognized credential : Option Text)
      → RequestContext
      → SessionManager
      → AdmissionOutcome × SessionManager
  unfolding authenticate
  admit_in_session none credential c s = (invalid_session_token, s)
  admit_in_session (some id) none c s = (invalid_session_token, s)
  admit_in_session (some id) (some token) c s =
      let (result, s') = authenticate sha256 mono reg id (some token) c.identity s in
      (admission_of result, s')

  unfoldable pub admit_request : RequestContext → SessionManager → AdmissionOutcome × SessionManager
  unfolding parse_bearer_credential requires_session_context recognized_id admit_in_session
      admit_before_session
  admit_request c s =
      let credential = parse_bearer_credential c.authorization_header in
      if requires_session_context c s
      then admit_in_session (recognized_id c.presented_session_id s) credential c s
      else (admit_before_session reg credential c, s)
