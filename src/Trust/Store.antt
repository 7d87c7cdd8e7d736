-- ===== src/Trust/Store.antt =====
-- `DeviceTrustStore` in memory (packages/auth/src/trust-store.ts): the map from device ids to the
-- records of devices, and the operations on it.
use cesspace_arc.Base.{
  Bool, true, false, not, Option, none, some, List, [], ◌∷◌, ◌++◌, map, Text, text, text_eq, length,
  leb, keep, if◌then◌else◌, has, Dict, lookup, insert, byte_length, json_string, json_array,
  or_else, Outcome, returned, thrown, first_error, unless,
}
use cesspace_arc.Trust.Devices.{
  EnrolledDevice, EnrollDeviceInput, max_active_pins_per_device, max_enrolled_devices,
  max_trust_store_bytes, is_valid_spki_pin, has_nul, client_id_ok, client_type_ok, display_label_ok,
}

abbrev pub Devices : Type 0
Devices = Dict EnrolledDevice

pub data TrustError : Type 0 where
  bad_client_id bad_client_type bad_pin bad_label nul_in_label : TrustError
  other_client pin_taken pin_not_assigned last_pin : TrustError
  too_many_devices store_too_large too_many_pins : TrustError
  not_enrolled : TrustError

unfoldable pub find_device_by_pin : Text → Devices → Option EnrolledDevice
unfolding has
find_device_by_pin pin [] = none
find_device_by_pin pin ((id, dev) ∷ m) =
    if has pin dev.pins then some dev else find_device_by_pin pin m

unfoldable pub is_device_revoked : Text → Devices → Bool
unfolding lookup
is_device_revoked id m = elim (lookup id m) [ none ↦ false | some dev ↦ dev.revoked ]

-- `JSON.stringify` of one device and of the store.
device_json : EnrolledDevice → Text
unfolding json_string json_array
device_json d =
    text "{\"deviceId\":"
    ++ (json_string d.device_id
        ++ (text ",\"clientId\":"
            ++ (json_string d.client_id
                ++ (text ",\"clientType\":"
                    ++ (json_string d.client_type
                        ++ (text ",\"pins\":"
                            ++ (json_array (map some d.pins)
                                ++ (text ",\"enrolledAt\":"
                                    ++ (json_string d.enrolled_at
                                        ++ (text ",\"displayLabel\":"
                                            ++ (json_string d.display_label
                                                ++ (text ",\"revoked\":"
                                                    ++ (text (
                                                        if d.revoked
                                                        then "true}"
                                                        else "false}"))))))))))))))

devices_json : List EnrolledDevice → Text
unfolding device_json
devices_json [] = []
devices_json (d ∷ []) = device_json d
devices_json (d ∷ e ∷ ds) = device_json d ++ (44 ∷ devices_json (e ∷ ds))

unfoldable pub store_json : List EnrolledDevice → Text
unfolding devices_json
store_json ds = text "{\"version\":1,\"devices\":[" ++ (devices_json ds ++ text "]}")

unfoldable pub enrollment_error : EnrollDeviceInput → Option TrustError
unfolding client_id_ok client_type_ok is_valid_spki_pin display_label_ok
enrollment_error input = first_error (unless (client_id_ok input.client_id) bad_client_id) (
    first_error (unless (client_type_ok input.client_type) bad_client_type) (
      first_error (unless (is_valid_spki_pin input.pin) bad_pin)
        (unless (display_label_ok (or_else input.display_label [])) bad_label)))

-- The record that an enrollment adds.
unfoldable pub new_device : (device_id now : Text) → EnrollDeviceInput → EnrolledDevice
new_device device_id now input = record {
  device_id = device_id;
  client_id = input.client_id;
  client_type = input.client_type;
  pins = input.pin ∷ [];
  enrolled_at = now;
  display_label = or_else input.display_label [];
  revoked = false;
}

-- Whether the store with one device more stays within the size of its file.
unfoldable pub fits_in_file : EnrolledDevice → Devices → Bool
unfolding store_json byte_length
fits_in_file dev m =
    leb (byte_length (store_json (map (λ (e : Text × EnrolledDevice). e.1) m ++ dev ∷ [])))
      max_trust_store_bytes

module _ (device_id now : Text) (input : EnrollDeviceInput) where
  -- A pin that no device has.
  unfoldable pub enroll_new : Devices → Outcome TrustError (EnrolledDevice × Bool) × Devices
  unfolding new_device insert
  enroll_new m =
      let dev = new_device device_id now input in
      if leb max_enrolled_devices (length m)
      then (thrown too_many_devices, m)
      else if not (fits_in_file dev m)
      then (thrown store_too_large, m)
      else (returned (dev, false), insert device_id dev m)

  -- `device_id` is the generated identifier and `now` the time as text.
  unfoldable pub enroll_device : Devices → Outcome TrustError (EnrolledDevice × Bool) × Devices
  unfolding enrollment_error find_device_by_pin enroll_new
  enroll_device m = elim (enrollment_error input) [
    | some e ↦ (thrown e, m)
    | none ↦ elim (find_device_by_pin input.pin m) [
      | none ↦ enroll_new m
      | some dev ↦
          if text_eq dev.client_id input.client_id
          then (returned (dev, true), m)
          else (thrown other_client, m)
    ]
  ]

unfoldable pub pin_elsewhere : (id pin : Text) → Devices → Bool
unfolding find_device_by_pin
pin_elsewhere id pin m = elim (find_device_by_pin pin m) [
  | none ↦ false
  | some other ↦ not (text_eq other.device_id id)
]

unfoldable pub add_pin_to : (id pin : Text) → EnrolledDevice → Devices → Option TrustError × Devices
unfolding is_valid_spki_pin has pin_elsewhere insert
add_pin_to id pin dev m =
    if not (is_valid_spki_pin pin)
    then (some bad_pin, m)
    else if has pin dev.pins
    then (none, m)
    else if pin_elsewhere id pin m
    then (some pin_taken, m)
    else if leb max_active_pins_per_device (length dev.pins)
    then (some too_many_pins, m)
    else (none, insert id (record dev { pins = dev.pins ++ pin ∷ [] }) m)

unfoldable pub add_pin_to_device : (id pin : Text) → Devices → Option TrustError × Devices
unfolding lookup add_pin_to
add_pin_to_device id pin m = elim (lookup id m) [
  | none ↦ (some not_enrolled, m)
  | some dev ↦ add_pin_to id pin dev m
]

unfoldable pub remove_pin_of :
    (id pin : Text) → EnrolledDevice → Devices → Option TrustError × Devices
unfolding is_valid_spki_pin has insert
remove_pin_of id pin dev m =
    if not (is_valid_spki_pin pin)
    then (some bad_pin, m)
    else if not (has pin dev.pins)
    then (some pin_not_assigned, m)
    else if leb (length dev.pins) 1
    then (some last_pin, m)
    else (none, insert id (record dev { pins = keep (λ p. not (text_eq p pin)) dev.pins }) m)

unfoldable pub remove_pin_from_device : (id pin : Text) → Devices → Option TrustError × Devices
unfolding lookup remove_pin_of
remove_pin_from_device id pin m = elim (lookup id m) [
  | none ↦ (some not_enrolled, m)
  | some dev ↦ remove_pin_of id pin dev m
]

unfoldable pub rename_device : (id label : Text) → Devices → Option TrustError × Devices
unfolding lookup has_nul display_label_ok insert
rename_device id label m = elim (lookup id m) [
  | none ↦ (some not_enrolled, m)
  | some dev ↦
      if has_nul label
      then (some nul_in_label, m)
      else if not (display_label_ok label)
      then (some bad_label, m)
      else (none, insert id (record dev { display_label = label }) m)
]

unfoldable pub revoke_device : Text → Devices → Option TrustError × Devices
unfolding lookup insert
revoke_device id m = elim (lookup id m) [
  | none ↦ (some not_enrolled, m)
  | some dev ↦ (none, insert id (record dev { revoked = true }) m)
]
