-- ===== src/Session/Data.antt =====
-- Identities, session records and results (packages/auth/src/session.ts). Times are the
-- nanoseconds of the monotonic clock.
use cesspace_arc.Base.{
  ℕ, ◌*◌, Bool, false, Option, none, some, List, ◌∷◌, Text, any, ◌==◌, if◌then◌else◌, is_hex, Dict,
}
use cesspace_arc.Trust.Devices.{is_valid_spki_pin}
use cesspace_arc.Trust.Store.{Devices, find_device_by_pin}

abbrev pub max_session_token_input_bytes : ℕ
max_session_token_input_bytes = 128

abbrev pub ns_per_second : ℕ
ns_per_second = 1000000000

abbrev pub session_absolute_ttl : ℕ
session_absolute_ttl = 3600 * ns_per_second

abbrev pub session_idle_timeout : ℕ
session_idle_timeout = 300 * ns_per_second

abbrev pub max_active_sessions_per_device : ℕ
max_active_sessions_per_device = 8

abbrev pub max_active_sessions_per_client : ℕ
max_active_sessions_per_client = 64

abbrev pub max_active_sessions_global : ℕ
max_active_sessions_global = 1024

abbrev pub max_session_id_generation_attempts : ℕ
max_session_id_generation_attempts = 8

abbrev pub session_id_reservation_ttl : ℕ
session_id_reservation_ttl = session_idle_timeout

-- `reference` tells one object from another: the registry of resolved identities knows objects, not
-- their fields.
pub record SessionIdentity : Type 0 where
  pub reference : ℕ
  pub device_id : Text
  pub client_id : Text
  pub client_type : Text
  pub spki_pin : Text

-- `RESOLVED_IDENTITIES`, the references of the objects in it.
abbrev pub Registry : Type 0
Registry = List ℕ

pub record SessionRecord : Type 0 where
  pub session_id : Text
  pub device_id : Text
  pub client_id : Text
  pub client_type : Text
  pub spki_pin : Text
  pub token_digest : Text
  pub created : ℕ
  pub last_auth : ℕ
  pub issued_at : Text
  pub revoked : Bool

-- The map of reservations has the time of each.
pub record SessionManager : Type 0 where
  pub sessions : Dict SessionRecord
  pub reserved : Dict ℕ

pub data SessionError : Type 0 where
  id_not_canonical identity_not_resolved bad_device_id bad_spki_pin : SessionError
  bad_client_id bad_client_type already_active not_reserved : SessionError
  global_limit device_limit client_limit : SessionError
  reservation_limit attempts_exhausted : SessionError

pub record SessionIssuance : Type 0 where
  pub session_id : Text
  pub token : Text
  pub issued_at : Text

pub record TrustedSession : Type 0 where
  pub session_id : Text
  pub device_id : Text
  pub client_id : Text
  pub client_type : Text
  pub spki_pin : Text
  pub issued_at : Text

pub record SessionView : Type 0 where
  pub session_id : Text
  pub device_id : Text
  pub client_id : Text
  pub client_type : Text
  pub issued_at : Text

-- An identity that may be absent.
unfoldable pub has_resolver_provenance : Registry → Option SessionIdentity → Bool
has_resolver_provenance reg none = false
has_resolver_provenance reg (some i) = any (λ r. r == i.reference) reg

-- The identity of an active device, as the object `reference`, which is registered.
unfoldable pub resolve_active_device_identity :
    (reference : ℕ) → Devices → Text → Registry → Option SessionIdentity × Registry
unfolding is_valid_spki_pin find_device_by_pin
resolve_active_device_identity reference store pin reg =
    if is_valid_spki_pin pin
    then elim (find_device_by_pin pin store) [
      | none ↦ (none, reg)
      | some dev ↦ if dev.revoked then (none, reg) else (
        some (record {
          reference = reference;
          device_id = dev.device_id;
          client_id = dev.client_id;
          client_type = dev.client_type;
          spki_pin = pin;
        }),
        reference ∷ reg,
      )
    ]
    else (none, reg)

unfoldable pub is_well_formed_session_id : Text → Bool
unfolding is_hex
is_well_formed_session_id id = is_hex 64 id
