-- ===== src/Session/Authentication.antt =====
-- When `authenticate` of packages/auth/src/session.ts succeeds, and what a failure leaves.
use cesspace_arc.Base.{
  ℕ, ◌+◌, ◌≤◌, ◌<◌, ◌≡◌, ◌↔◌, refl, Bool, true, false, not, Option, none, some, [], Text,
  text_eq_iff, if◌then◌else◌, ltb, ltb-false→le, le→ltb-false, not-false, lookup, insert, is_hex,
  byte_length, or_else, Bool-cases, Option-cases, inl, inr, arith,
}
use cesspace_arc.Session.Data.{
  SessionIdentity, Registry, SessionRecord, SessionManager, TrustedSession, session_absolute_ttl,
  session_idle_timeout, has_resolver_provenance, is_well_formed_session_id,
}
use cesspace_arc.Session.Manager.{is_expired}
use cesspace_arc.Session.Requests.{
  token_matches, is_bound_to, trusted, authenticate_record, authenticate_as, authenticate,
}

abbrev pub Attempt : Type 0
Attempt = Option TrustedSession × SessionManager

-- A check that refused nothing was passed.
passed :
    (refused : Bool) (s : SessionManager) (rest : Attempt) {t : TrustedSession}
    {s' : SessionManager}
    → (if refused then (none, s) else rest) ≡ (some t, s')
    → (refused ≡ false) × (rest ≡ (some t, s'))
passed true s rest h = absurd (cc)
passed false s rest h = (refl, h)

-- The token, its digest, the two deadlines and the four bindings.
pub record IsAccepted (sha256 : Text → Text) (now : ℕ) (submitted : Text) (i : SessionIdentity)
    (r : SessionRecord) : Type 0 where
  pub unrevoked : r.revoked ≡ false
  pub short : byte_length submitted ≤ 128
  pub token_form : is_hex 64 submitted ≡ true
  pub token : sha256 submitted ≡ r.token_digest
  pub young : now < r.created + session_absolute_ttl
  pub recent : now < r.last_auth + session_idle_timeout
  pub device : r.device_id ≡ i.device_id
  pub client : r.client_id ≡ i.client_id
  pub kind : r.client_type ≡ i.client_type
  pub pin : r.spki_pin ≡ i.spki_pin

module _ (sha256 : Text → Text) (submitted : Text) (r : SessionRecord) where
  pub matches_iff :
      (token_matches sha256 submitted r ≡ true)
      ↔ ((is_hex 64 submitted ≡ true) × (sha256 submitted ≡ r.token_digest))
  unfolding token_matches
  matches_iff =
      let form = text_eq_iff (sha256 submitted) r.token_digest in
      elim (Bool-cases (is_hex 64 submitted)) [
        | inl formed ↦ rw formed (λ h. (refl, form.0 h), λ p. form.1 p.1)
        | inr bad ↦ rw bad (λ h. absurd (cc), λ p. absurd (cc (p.0)))
      ]

bound_iff :
    (i : SessionIdentity) (r : SessionRecord)
    → (is_bound_to i r ≡ true) ↔ (
        (r.device_id ≡ i.device_id)
        × (r.client_id ≡ i.client_id)
        × (r.client_type ≡ i.client_type)
        × (r.spki_pin ≡ i.spki_pin))
unfolding is_bound_to
bound_iff i r =
    let a = text_eq_iff r.device_id i.device_id in
    let b = text_eq_iff r.client_id i.client_id in
    let c = text_eq_iff r.client_type i.client_type in
    let d = text_eq_iff r.spki_pin i.spki_pin in
    (
      λ h. (ground (arith, a), ground (arith, b), ground (arith, c), ground (arith, d)),
      λ (p, q, u, v). rw (a.1 p, b.1 q, c.1 u, d.1 v),
    )

live_iff :
    (now : ℕ) (r : SessionRecord)
    → (is_expired now r ≡ false)
      ↔ ((now < r.created + session_absolute_ttl) × (now < r.last_auth + session_idle_timeout))
unfolding is_expired
live_iff now r = (λ h. (ground arith, ground arith), λ (p, q). ground arith)

-- The manager after a success: the time of the last authentication is that of the call.
abbrev pub refreshed : (mono : ℕ → ℕ) → SessionRecord → SessionManager → SessionManager
refreshed mono r s = record s {
  sessions = insert r.session_id (record r { last_auth = mono 1 }) s.sessions;
}

module _ (sha256 : Text → Text) (mono : ℕ → ℕ) where
  pub record_success :
      (submitted : Text) (i : SessionIdentity) (r : SessionRecord) (s s' : SessionManager)
      (t : TrustedSession)
      → authenticate_record sha256 mono submitted i r s ≡ (some t, s')
      → IsAccepted sha256 (mono 0) submitted i r × (t ≡ trusted r) × (s' ≡ refreshed mono r s)
  unfolding authenticate_record
  record_success submitted i r s s' t h =
      let (unrevoked, h1) = passed r.revoked s _ h in
      let (short, h2) = passed (ltb 128 (byte_length submitted)) s _ h1 in
      let (right, h3) = passed (not (token_matches sha256 submitted r)) s _ h2 in
      let (live, h4) = passed (is_expired (mono 0) r) _ _ h3 in
      let (bound, h5) = passed (not (is_bound_to i r)) s _ h4 in
      let (form, token) = (matches_iff sha256 submitted r).0 (not-false _ right) in
      let (young, recent) = (live_iff (mono 0) r).0 live in
      let (device, client, kind, pin) = (bound_iff i r).0 (not-false _ bound) in
      (
        record {
          unrevoked = unrevoked;
          short = ltb-false→le 128 _ short;
          token_form = form;
          token = token;
          young = young;
          recent = recent;
          device = device;
          client = client;
          kind = kind;
          pin = pin;
        },
        cc,
        cc,
      )

  record_accepted :
      (submitted : Text) (i : SessionIdentity) (r : SessionRecord) (s : SessionManager)
      → IsAccepted sha256 (mono 0) submitted i r
      → authenticate_record sha256 mono submitted i r s ≡ (some (trusted r), refreshed mono r s)
  unfolding authenticate_record
  record_accepted submitted i r s w =
      let short = le→ltb-false 128 (byte_length submitted) w.short in
      let right = (matches_iff sha256 submitted r).1 (w.token_form, w.token) in
      let live = (live_iff (mono 0) r).1 (w.young, w.recent) in
      let bound = (bound_iff i r).1 (w.device, w.client, w.kind, w.pin) in
      ground (arith, w.unrevoked, short, right, live, bound)

  -- An authentication succeeds exactly when the identity is one that the resolver made, the
  -- presented identifier has 64 hexadecimal digits and names a stored session that is not revoked,
  -- the token has 64 hexadecimal digits and the digest that is stored, the call is before both
  -- deadlines of the session, and the identity's device, client, type and pin are those of the
  -- session. Then the session's data are returned, and its idle time starts anew.
  pub authenticate_iff :
      (reg : Registry) (id : Text) (token : Option Text) (i : SessionIdentity)
      (s s' : SessionManager) (t : TrustedSession)
      → (authenticate sha256 mono reg id token (some i) s ≡ (some t, s')) ↔ (
          (r : SessionRecord) × (has_resolver_provenance reg (some i) ≡ true)
          × (is_well_formed_session_id id ≡ true)
          × (lookup id s.sessions ≡ some r)
          × IsAccepted sha256 (mono 0) (or_else token []) i r
          × (t ≡ trusted r)
          × (s' ≡ refreshed mono r s))
  unfolding authenticate authenticate_as
  authenticate_iff reg id token i s s' t = (
    λ h. elim (Bool-cases (has_resolver_provenance reg (some i))) [
      | inr forged ↦ absurd (cc (rw forged at h))
      | inl real ↦ elim (Bool-cases (is_well_formed_session_id id)) [
        | inr bad ↦ absurd (cc (rw (real, bad) at h))
        | inl formed ↦ elim (Option-cases (lookup id s.sessions)) [
          | inl missing ↦ absurd (cc (rw (real, authenticate_as, formed, missing) at h))
          | inr (r, found) ↦
              let (ok, same, after) =
                record_success (or_else token []) i r s s' t
                  (rw (real, authenticate_as, formed, found) at h) in
              (r, real, formed, found, ok, same, after)
        ]
      ]
    ],
    λ (r, real, formed, found, ok, same, after).
        let e = record_accepted (or_else token []) i r s ok in
        rw (real, authenticate_as, formed, found, same, after) e,
  )
