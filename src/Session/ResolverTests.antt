-- ===== src/Session/ResolverTests.antt =====
-- Identities resolved from a concrete trust store (`resolveActiveDeviceIdentity`,
-- packages/auth/src/session.ts).
use cesspace_arc.Base.{
  ◌≡◌, ◌≢◌, refl, true, false, none, some, List, [], ◌∷◌, Text, text, text_eq, replicate, has,
  lookup, insert, is_blank, is_hex, byte_length, json_string, json_array,
}
use cesspace_arc.Trust.Devices.{
  EnrolledDevice, EnrollDeviceInput, is_valid_spki_pin, has_nul, client_id_ok, client_type_ok,
  display_label_ok,
}
use cesspace_arc.Trust.Store.{
  Devices, find_device_by_pin, is_device_revoked, store_json, enrollment_error, new_device,
  fits_in_file, enroll_new, enroll_device, pin_elsewhere, add_pin_to, add_pin_to_device,
  revoke_device,
}
use cesspace_arc.Trust.Invariant.{empty-IsTrusted}
use cesspace_arc.Trust.Runs.{
  TrustCall, enrolls, adds_pin, revokes, apply_call, apply_calls, calls-IsTrusted,
}
use cesspace_arc.Session.Data.{
  SessionIdentity, has_resolver_provenance, resolve_active_device_identity,
}
use cesspace_arc.Session.Resolver.{revoked_device_never_resolves}

resolver : Unit {0}
unfolding text_eq has lookup insert is_blank is_hex byte_length json_string json_array
    is_valid_spki_pin has_nul client_id_ok client_type_ok display_label_ok find_device_by_pin
    is_device_revoked store_json enrollment_error new_device fits_in_file enroll_new enroll_device
    pin_elsewhere add_pin_to add_pin_to_device revoke_device apply_call apply_calls
    has_resolver_provenance resolve_active_device_identity
resolver = tt

abbrev pin_a : Text
pin_a = replicate 64 97

abbrev pin_b : Text
pin_b = replicate 64 98

abbrev pin_c : Text
pin_c = replicate 64 99

abbrev laptop : EnrollDeviceInput
laptop = record {
  client_id = text "laptop";
  client_type = text "cli";
  pin = pin_a;
  display_label = none;
}

abbrev phone : EnrollDeviceInput
phone = record laptop { client_id = text "phone"; pin = pin_b }

-- Two devices, of which the first is revoked.
abbrev before : List TrustCall
before =
    enrolls (text "d1") (text "t1") laptop
    ∷ enrolls (text "d2") (text "t2") phone
    ∷ revokes (text "d1")
    ∷ []

abbrev after : List TrustCall
after = adds_pin (text "d2") pin_c ∷ []

abbrev phone_identity : SessionIdentity
phone_identity = record {
  reference = 4;
  device_id = text "d2";
  client_id = text "phone";
  client_type = text "cli";
  spki_pin = pin_c;
}

abbrev store : Devices
store = apply_calls after (apply_calls before [])

revoked_pin : (resolve_active_device_identity 4 store pin_a []).0 ≡ none
unfolding resolver
revoked_pin = refl

unknown_pin : (resolve_active_device_identity 4 store (replicate 64 100) []).0 ≡ none
unfolding resolver
unknown_pin = refl

revoked_device_never_resolves_example :
    (is_device_revoked (text "d1") store ≡ true)
    × (text "d2" ≢ text "d1")
    × ((d : EnrolledDevice) × (lookup (text "d2") store ≡ some d)
        × (d.revoked ≡ false)
        × (has pin_c d.pins ≡ true))
    × (has_resolver_provenance (4 ∷ []) (some phone_identity) ≡ true)
unfolding resolver
revoked_device_never_resolves_example =
    revoked_device_never_resolves (text "d1") after (apply_calls before []) 4 pin_c [] (4 ∷ [])
      phone_identity (calls-IsTrusted before [] empty-IsTrusted) refl refl refl
