-- ===== src/Session/RoundTrip.antt =====
-- A session that was issued authenticates (packages/auth/src/session.ts).
use cesspace_arc.Base.{
  ℕ, ◌+◌, ◌≤◌, ◌<◌, ◌≡◌, refl, sym, subst, ap, true, false, is_some, none, some, [], ◌∷◌, Text,
  text_eq_refl, length, all, ltb, leb, lookup, insert, delete, lookup-insert, is_hex, is_hex_char,
  byte_length, returned, and→both, Bool-cases, Option-cases, inl, inr, arith,
}
use cesspace_arc.Session.Data.{
  SessionIdentity, Registry, SessionManager, session_idle_timeout, has_resolver_provenance,
  is_well_formed_session_id,
}
use cesspace_arc.Session.Manager.{purge_expired, prune_reservations, quota_error}
use cesspace_arc.Session.Requests.{
  issuance_error, new_session, activate, issue_session, trusted, authenticate,
}
use cesspace_arc.Session.Authentication.{IsAccepted, authenticate_iff, refreshed}
use cesspace_arc.Session.Origins.{issuance}

hex_char-lt : (c : ℕ) → is_hex_char c ≡ true → c < 128
unfolding is_hex_char
hex_char-lt c h = ground arith

byte_length-ascii : (c : ℕ) (s : Text) → c < 128 → byte_length (c ∷ s) ≡ 1 + byte_length s
unfolding byte_length
byte_length-ascii c [] h = let low : ltb c 128 ≡ true = ground arith in rw low
byte_length-ascii c (d ∷ s) h =
    let low : ltb c 128 ≡ true = ground arith in
    let no_pair : leb 55296 c ≡ false = ground arith in rw (no_pair, low)

hex_bytes : (s : Text) → all is_hex_char s ≡ true → byte_length s ≡ length s
unfolding byte_length
hex_bytes [] h = refl
hex_bytes (c ∷ s) h =
    let (first, rest) = and→both (is_hex_char c) _ h in
    omega (arith, byte_length-ascii c s (hex_char-lt c first), hex_bytes s rest)

hex-bytes_le : (s : Text) → is_hex 64 s ≡ true → byte_length s ≤ 128
unfolding is_hex
hex-bytes_le s h = ground (arith, hex_bytes s)

module _ (sha256 : Text → Text) (mono : ℕ → ℕ) (wall token id : Text) (i : SessionIdentity) where
  activated :
      (s s' : SessionManager)
      → activate sha256 mono wall token id i s ≡ (returned (issuance wall token id), s')
      → lookup id s'.sessions ≡ some (new_session sha256 mono wall token id i)
  unfolding activate
  activated s s' h =
      let used : SessionManager = record s { reserved = delete id s.reserved } in
      let new = new_session sha256 mono wall token id i in
      elim (Option-cases (quota_error i.device_id i.client_id used)) [
        | inr (e, over) ↦ absurd (cc (rw (activate, over) at h))
        | inl within ↦
            let e : record used { sessions = insert id new s.sessions } ≡ s' =
              ap (λ p. p.1) (rw (activate, within) at h) in
            subst (λ (m : SessionManager). lookup id m.sessions ≡ some new) e
              (ground (arith, lookup-insert id id new s.sessions, text_eq_refl id))
      ]

  issued_stored :
      (reg : Registry) (s s' : SessionManager)
      → issue_session sha256 mono reg wall token id i s ≡ (returned (issuance wall token id), s')
      → (issuance_error reg id i ≡ none)
        × (lookup id s'.sessions ≡ some (new_session sha256 mono wall token id i))
  unfolding issue_session
  issued_stored reg s s' h =
      let live = purge_expired (mono 0) s in
      let pruned = prune_reservations (mono 1) live in
      elim (Option-cases (issuance_error reg id i)) [
        | inr (e, bad) ↦ absurd (cc (rw (issue_session, bad) at h))
        | inl fine ↦ elim (Option-cases (lookup id live.sessions)) [
          | inr (r, active) ↦ absurd (cc (rw (issue_session, fine, active) at h))
          | inl free ↦ elim (Bool-cases (is_some (lookup id pruned.reserved))) [
            | inr unreserved ↦ absurd (cc (rw (issue_session, fine, free, unreserved) at h))
            | inl reserved ↦
                (fine, activated pruned s' (rw (issue_session, fine, free, reserved) at h))
          ]
        ]
      ]

formed_input :
    (reg : Registry) (id : Text) (i : SessionIdentity)
    → issuance_error reg id i ≡ none
    → is_well_formed_session_id id ≡ true
unfolding issuance_error
formed_input reg id i h = ground arith

-- A session that was issued is authenticated by its identifier and its token, for every identity
-- that the resolver made with the same device, client, type and pin, less than 300 seconds after
-- the issuance; the result has the data of the issuance, and only the idle time changes.
pub issued_session_authenticates :
    (sha256 : Text → Text) (mono now : ℕ → ℕ) (reg reg' : Registry) (wall token id : Text)
    (i j : SessionIdentity) (s s' : SessionManager)
    → issue_session sha256 mono reg wall token id i s ≡ (returned (issuance wall token id), s')
    → is_hex 64 token ≡ true
    → has_resolver_provenance reg' (some j) ≡ true
    → j.device_id ≡ i.device_id
    → j.client_id ≡ i.client_id
    → j.client_type ≡ i.client_type
    → j.spki_pin ≡ i.spki_pin
    → now 0 < mono 2 + session_idle_timeout
    → authenticate sha256 now reg' id (some token) (some j) s' ≡ (
      some (trusted (new_session sha256 mono wall token id i)),
      refreshed now (new_session sha256 mono wall token id i) s',
    )
unfolding new_session
issued_session_authenticates sha256 mono now reg reg' wall token id i j s s' h hex real dev client
      kind pin soon =
    let r = new_session sha256 mono wall token id i in
    let (fine, stored) = issued_stored sha256 mono wall token id i reg s s' h in
    let ok : IsAccepted sha256 (now 0) token j r = record {
      unrevoked = refl;
      short = hex-bytes_le token hex;
      token_form = hex;
      token = refl;
      young = omega arith;
      recent = soon;
      device = sym dev;
      client = sym client;
      kind = sym kind;
      pin = sym pin;
    } in
    (authenticate_iff sha256 now reg' id (some token) j s' (refreshed now r s') (trusted r)).1
      (r, real, formed_input reg id i fine, stored, ok, refl, refl)
