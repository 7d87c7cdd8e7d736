-- ===== src/Session/Decisions.antt =====
-- The decisions of `admitRequest` (packages/auth/src/session.ts).
use cesspace_arc.Base.{
  ℕ, ◌≡◌, ◌↔◌, refl, sym, ap, Bool, true, false, is_some, Option, none, some, Text, Bool-cases, inl,
  inr, arith,
}
use cesspace_arc.Session.Data.{
  SessionIdentity, Registry, SessionManager, TrustedSession, has_resolver_provenance,
}
use cesspace_arc.Session.Bearer.{parse_bearer_credential}
use cesspace_arc.Session.Requests.{authenticate}
use cesspace_arc.Session.Admission.{
  RequestContext, AdmissionOutcome, bootstrap_tokenless, authenticated, admission_of, RequestKind,
  initialize, ordinary, is_ordinary, recognized_id, requires_session_context, admit_in_session,
  admit_before_session, admit_request,
}
use cesspace_arc.Session.Authentication.{authenticate_iff}

abbrev pub is_authenticated : AdmissionOutcome → Option TrustedSession
is_authenticated (authenticated t) = some t
is_authenticated _ = none

abbrev is_bootstrap : AdmissionOutcome → Bool
is_bootstrap (bootstrap_tokenless _) = true
is_bootstrap _ = false

of_admission :
    (o : Option TrustedSession) (m : SessionManager) (t : TrustedSession) (s' : SessionManager)
    → ◌≡◌ {A = AdmissionOutcome × SessionManager} (admission_of o, m) (authenticated t, s')
    → ◌≡◌ {A = Option TrustedSession × SessionManager} (o, m) (some t, s')
of_admission none m t s' h = absurd (cc)
of_admission (some u) m t s' h = cc

before_session :
    (reg : Registry) (credential : Option Text) (c : RequestContext)
    → is_authenticated (admit_before_session reg credential c) ≡ none
unfolding admit_before_session
before_session reg credential c = ground arith

initialize_iff : (k : RequestKind) → (is_ordinary k ≡ false) ↔ (k ≡ initialize)
initialize_iff initialize = (λ h. refl, λ h. refl)
initialize_iff ordinary = (λ h. absurd (cc), λ h. absurd (cc))

none_iff {ℓ} : {A : Type ℓ} (o : Option A) → (is_some o ≡ false) ↔ (o ≡ none)
none_iff none = (λ h. refl, λ h. refl)
none_iff (some a) = (λ h. absurd (cc), λ h. absurd (cc))

before_bootstraps :
    (reg : Registry) (credential : Option Text) (c : RequestContext)
    → (admit_before_session reg credential c ≡ bootstrap_tokenless c.identity) ↔ (
        (c.kind ≡ initialize)
        × (credential ≡ none)
        × (has_resolver_provenance reg c.identity ≡ true))
unfolding admit_before_session
before_bootstraps reg credential c =
    let kind = initialize_iff c.kind in
    let header = none_iff credential in
    (
      λ h. (kind.0 (ground arith), header.0 (ground arith), ground arith),
      λ (k, n, real). rw (header.1 n, kind.1 k, real),
    )

outside_context :
    (c : RequestContext) (s : SessionManager)
    → requires_session_context c s ≡ false
    → (c.has_existing_session_context ≡ false) × (recognized_id c.presented_session_id s ≡ none)
unfolding requires_session_context
outside_context c s h =
    let unknown = none_iff (recognized_id c.presented_session_id s) in
    (ground arith, unknown.0 (ground arith))

module _ (sha256 : Text → Text) (mono : ℕ → ℕ) (reg : Registry) where
  -- A success in the domain of sessions.
  in_session_success :
      (recognized credential : Option Text) (c : RequestContext) (s s' : SessionManager)
      (t : TrustedSession)
      → admit_in_session sha256 mono reg recognized credential c s ≡ (authenticated t, s')
      → (id : Text) × (token : Text) × (recognized ≡ some id)
        × (credential ≡ some token)
        × (authenticate sha256 mono reg id (some token) c.identity s ≡ (some t, s'))
  unfolding admit_in_session
  in_session_success none credential c s s' t h = absurd (cc)
  in_session_success (some id) none c s s' t h = absurd (cc)
  in_session_success (some id) (some token) c s s' t h =
      let result = authenticate sha256 mono reg id (some token) c.identity s in
      (id, token, refl, refl, of_admission result.0 result.1 t s' h)

  recognized-eq-some :
      (presented : Option Text) (s : SessionManager) (id : Text)
      → recognized_id presented s ≡ some id
      → presented ≡ some id
  unfolding recognized_id
  recognized-eq-some none s id h = absurd (cc)
  recognized-eq-some (some k) s id h = ground arith

  stored_recognized :
      (id : Text) (token : Option Text) (i : Option SessionIdentity) (s s' : SessionManager)
      (t : TrustedSession)
      → authenticate sha256 mono reg id token i s ≡ (some t, s')
      → recognized_id (some id) s ≡ some id
  unfolding recognized_id authenticate
  stored_recognized id token none s s' t h = absurd (cc)
  stored_recognized id token (some i) s s' t h =
      let (r, _, formed, found, _, _, _) =
        (authenticate_iff sha256 mono reg id token i s s' t).0 h in
      ground (arith, formed, found)

  admitted_authenticates :
      (c : RequestContext) (s s' : SessionManager) (t : TrustedSession)
      → admit_request sha256 mono reg c s ≡ (authenticated t, s')
      → (id : Text) × (token : Text) × (c.presented_session_id ≡ some id)
        × (parse_bearer_credential c.authorization_header ≡ some token)
        × (authenticate sha256 mono reg id (some token) c.identity s ≡ (some t, s'))
  unfolding admit_request
  admitted_authenticates c s s' t h = elim (Bool-cases (requires_session_context c s)) [
    | inr outside ↦
        let e : admit_before_session reg (parse_bearer_credential c.authorization_header) c
            ≡ authenticated t =
          ap (λ p. p.0) (rw outside at h) in
        absurd (cc (before_session reg (parse_bearer_credential c.authorization_header) c))
    | inl inside ↦
        let (id, token, known, header, ok) =
          in_session_success (recognized_id c.presented_session_id s)
            (parse_bearer_credential c.authorization_header) c s s' t (rw inside at h) in
        (id, token, recognized-eq-some c.presented_session_id s id known, header, ok)
  ]

  authenticates_admitted :
      (c : RequestContext) (s s' : SessionManager) (t : TrustedSession) (id token : Text)
      → c.presented_session_id ≡ some id
      → parse_bearer_credential c.authorization_header ≡ some token
      → authenticate sha256 mono reg id (some token) c.identity s ≡ (some t, s')
      → admit_request sha256 mono reg c s ≡ (authenticated t, s')
  unfolding admit_request admit_in_session
  authenticates_admitted c s s' t id token presented header ok =
      let known = stored_recognized id (some token) c.identity s s' t ok in
      let known' : recognized_id c.presented_session_id s ≡ some id = rw presented known in
      let inside : requires_session_context c s ≡ true =
        unfold requires_session_context in ground (arith, known') in
      rw (inside, known', header, ok)

  no_bootstrap_in_session :
      (recognized credential : Option Text) (c : RequestContext) (s : SessionManager)
      → is_bootstrap (admit_in_session sha256 mono reg recognized credential c s).0 ≡ false
  unfolding admit_in_session
  no_bootstrap_in_session none credential c s = refl
  no_bootstrap_in_session (some id) none c s = refl
  no_bootstrap_in_session (some id) (some token) c s = ground arith

  bootstraps_iff :
      (c : RequestContext) (s s' : SessionManager)
      → (admit_request sha256 mono reg c s ≡ (bootstrap_tokenless c.identity, s')) ↔ (
          (c.kind ≡ initialize)
          × (c.has_existing_session_context ≡ false)
          × (recognized_id c.presented_session_id s ≡ none)
          × (parse_bearer_credential c.authorization_header ≡ none)
          × (has_resolver_provenance reg c.identity ≡ true)
          × (s' ≡ s))
  unfolding admit_request
  bootstraps_iff c s s' = (
    λ h. elim (Bool-cases (requires_session_context c s)) [
      | inl inside ↦
          let never =
            no_bootstrap_in_session (recognized_id c.presented_session_id s)
              (parse_bearer_credential c.authorization_header) c s in
          let e = ap (λ p. is_bootstrap p.0) (rw inside at h) in absurd (cc)
      | inr outside ↦
          let (context, unknown) = outside_context c s outside in
          let (kind, header, real) =
            (before_bootstraps reg (parse_bearer_credential c.authorization_header) c).0
              (ap (λ p. p.0) (rw outside at h)) in
          (kind, context, unknown, header, real, sym (ap (λ p. p.1) (rw outside at h)))
    ],
    λ (kind, context, unknown, header, real, same).
        let outside : requires_session_context c s ≡ false =
          unfold requires_session_context in rw (context, unknown, kind) in
        let e =
          (before_bootstraps reg (parse_bearer_credential c.authorization_header) c).1
            (kind, header, real) in
        rw (outside, e, same),
  )

  -- A request is admitted as authenticated exactly when it presents a session identifier and its
  -- header is a bearer credential that authenticates under that identifier for its identity,
  -- whatever its kind and its connection's context; the result is that of the authentication. A
  -- request bootstraps exactly when it is `initialize`, its connection has no session context, the
  -- identifier it may present is not recognized, it has no bearer credential, and its identity is one
  -- that the resolver made; and then nothing changes.
  pub admit_request_iff :
      (c : RequestContext) (s s' : SessionManager)
      → ((t : TrustedSession)
          → (admit_request sha256 mono reg c s ≡ (authenticated t, s')) ↔ (
              (id : Text) × (token : Text) × (c.presented_session_id ≡ some id)
              × (parse_bearer_credential c.authorization_header ≡ some token)
              × (authenticate sha256 mono reg id (some token) c.identity s ≡ (some t, s'))))
        × ((admit_request sha256 mono reg c s ≡ (bootstrap_tokenless c.identity, s')) ↔ (
            (c.kind ≡ initialize)
            × (c.has_existing_session_context ≡ false)
            × (recognized_id c.presented_session_id s ≡ none)
            × (parse_bearer_credential c.authorization_header ≡ none)
            × (has_resolver_provenance reg c.identity ≡ true)
            × (s' ≡ s)))
  admit_request_iff c s s' = (
    λ t. (
      admitted_authenticates c s s' t,
      λ (id, token, presented, header, ok).
          authenticates_admitted c s s' t id token presented header ok,
    ),
    bootstraps_iff c s s',
  )
