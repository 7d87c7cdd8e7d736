-- ===== src/Session/Requests.antt =====
-- Issuance and authentication of `SessionManager` (packages/auth/src/session.ts).
-- `sha256` is the digest of a text, `mono k` the k-th reading of the monotonic clock in a call.
use cesspace_arc.Base.{
  ℕ, Bool, false, not, ◌&&◌, Option, none, some, [], Text, text_eq, ltb, if◌then◌else◌, is_some,
  or_else, lookup, insert, delete, is_hex, byte_length, replicate, Outcome, returned, thrown,
  first_error, unless,
}
use cesspace_arc.Trust.Devices.{is_valid_device_id, is_valid_spki_pin, client_id_ok, client_type_ok}
use cesspace_arc.Session.Data.{
  SessionIdentity, Registry, SessionRecord, SessionManager, SessionError, SessionIssuance,
  TrustedSession, has_resolver_provenance, is_well_formed_session_id, max_session_token_input_bytes,
  id_not_canonical, identity_not_resolved, bad_device_id, bad_spki_pin, bad_client_id,
  bad_client_type, already_active, not_reserved,
}
use cesspace_arc.Session.Manager.{is_expired, purge_expired, prune_reservations, quota_error}

-- The checks of the input of an issuance, in their order.
unfoldable pub issuance_error : Registry → Text → SessionIdentity → Option SessionError
unfolding is_well_formed_session_id has_resolver_provenance is_valid_device_id is_valid_spki_pin
    client_id_ok client_type_ok
issuance_error reg id i = first_error (unless (is_well_formed_session_id id) id_not_canonical) (
    first_error (unless (has_resolver_provenance reg (some i)) identity_not_resolved) (
      first_error (unless (is_valid_device_id i.device_id) bad_device_id) (
        first_error (unless (is_valid_spki_pin i.spki_pin) bad_spki_pin) (
          first_error (unless (client_id_ok i.client_id) bad_client_id)
            (unless (client_type_ok i.client_type) bad_client_type)))))

-- The submitted token against the digest of the record. A malformed one is compared with 32 zero
-- bytes, and never matches.
unfoldable pub token_matches : (sha256 : Text → Text) → Text → SessionRecord → Bool
unfolding is_hex text_eq
token_matches sha256 submitted r =
    let well_formed = is_hex 64 submitted in
    let expected = if well_formed then r.token_digest else replicate 32 0 in
    well_formed && text_eq (sha256 submitted) expected

unfoldable pub is_bound_to : SessionIdentity → SessionRecord → Bool
unfolding text_eq
is_bound_to i r =
    text_eq r.device_id i.device_id
    && text_eq r.client_id i.client_id
    && text_eq r.client_type i.client_type
    && text_eq r.spki_pin i.spki_pin

abbrev pub trusted : SessionRecord → TrustedSession
trusted r = record {
  session_id = r.session_id;
  device_id = r.device_id;
  client_id = r.client_id;
  client_type = r.client_type;
  spki_pin = r.spki_pin;
  issued_at = r.issued_at;
}

module _ (sha256 : Text → Text) (mono : ℕ → ℕ) where
  -- The record of a new session; `token` is 32 random bytes in hexadecimal and `wall` the time as
  -- text.
  unfoldable pub new_session : (wall token id : Text) → SessionIdentity → SessionRecord
  new_session wall token id i = record {
    session_id = id;
    device_id = i.device_id;
    client_id = i.client_id;
    client_type = i.client_type;
    spki_pin = i.spki_pin;
    token_digest = sha256 token;
    created = mono 2;
    last_auth = mono 2;
    issued_at = wall;
    revoked = false;
  }

  -- The identifier is reserved, and its reservation is used up before the quotas are checked.
  unfoldable pub activate :
      (wall token id : Text)
      → SessionIdentity
      → SessionManager
      → Outcome SessionError SessionIssuance × SessionManager
  unfolding new_session quota_error insert delete
  activate wall token id i s =
      let used = record s { reserved = delete id s.reserved } in
      elim (quota_error i.device_id i.client_id used) [
        | some e ↦ (thrown e, used)
        | none ↦ (
          returned (record { session_id = id; token = token; issued_at = wall }),
          record used { sessions = insert id (new_session wall token id i) used.sessions },
        )
      ]

  unfoldable pub issue_session :
      (reg : Registry) (wall token id : Text)
      → SessionIdentity
      → SessionManager
      → Outcome SessionError SessionIssuance × SessionManager
  unfolding issuance_error purge_expired prune_reservations lookup activate
  issue_session reg wall token id i s = elim (issuance_error reg id i) [
    | some e ↦ (thrown e, s)
    | none ↦
        let live = purge_expired (mono 0) s in
        if is_some (lookup id live.sessions)
        then (thrown already_active, live)
        else let pruned = prune_reservations (mono 1) live in
          if is_some (lookup id pruned.reserved)
          then activate wall token id i pruned
          else (thrown not_reserved, pruned)
  ]

  -- With the record under the presented identifier. The write is to the record in the map.
  unfoldable pub authenticate_record :
      (submitted : Text)
      → SessionIdentity
      → SessionRecord
      → SessionManager
      → Option TrustedSession × SessionManager
  unfolding byte_length token_matches is_expired is_bound_to insert delete
  authenticate_record submitted i r s =
      if r.revoked
      then (none, s)
      else if ltb max_session_token_input_bytes (byte_length submitted)
      then (none, s)
      else if not (token_matches sha256 submitted r)
      then (none, s)
      else if is_expired (mono 0) r
      then (none, record s { sessions = delete r.session_id s.sessions })
      else if not (is_bound_to i r)
      then (none, s)
      else (
        some (trusted r),
        record s { sessions = insert r.session_id (record r { last_auth = mono 1 }) s.sessions },
      )

  -- With an identity; a token that is no string is taken as the empty one.
  unfoldable pub authenticate_as :
      Text → Option Text → SessionIdentity → SessionManager → Option TrustedSession × SessionManager
  unfolding is_well_formed_session_id lookup authenticate_record
  authenticate_as id token i s =
      if is_well_formed_session_id id
      then elim (lookup id s.sessions) [
        | none ↦ (none, s)
        | some r ↦ authenticate_record (or_else token []) i r s
      ]
      else (none, s)

  unfoldable pub authenticate :
      Registry
      → Text
      → Option Text
      → Option SessionIdentity
      → SessionManager
      → Option TrustedSession × SessionManager
  unfolding authenticate_as has_resolver_provenance
  authenticate reg id token none s = (none, s)
  authenticate reg id token (some i) s =
      if has_resolver_provenance reg (some i) then authenticate_as id token i s else (none, s)
