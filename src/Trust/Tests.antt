-- ===== src/Trust/Tests.antt =====
-- Runs of `DeviceTrustStore` (packages/auth/src/trust-store.ts), and its theorems at one of them.
use cesspace_arc.Base.{
  ◌≤◌, ◌≡◌, ◌↔◌, refl, true, false, none, some, List, [], ◌∷◌, Text, text, text_eq, length,
  replicate, has, lookup, insert, is_blank, is_hex, byte_length, json_string, json_array, returned,
  thrown,
}
use cesspace_arc.Trust.Devices.{
  EnrolledDevice, EnrollDeviceInput, is_valid_spki_pin, has_nul, client_id_ok, client_type_ok,
  display_label_ok,
}
use cesspace_arc.Trust.Store.{
  Devices, other_client, pin_taken, too_many_pins, last_pin, find_device_by_pin, is_device_revoked,
  store_json, enrollment_error, new_device, fits_in_file, enroll_new, enroll_device, pin_elsewhere,
  add_pin_to, add_pin_to_device, remove_pin_of, remove_pin_from_device, rename_device,
  revoke_device,
}
use cesspace_arc.Trust.Invariant.{HasPins}
use cesspace_arc.Trust.Runs.{TrustCall, enrolls, apply_call, apply_calls, trusted_devices}
use cesspace_arc.Trust.Revocation.{enroll_device-enroll_device}

trust : Unit {0}
unfolding text_eq has lookup insert is_blank is_hex byte_length json_string json_array
    is_valid_spki_pin has_nul client_id_ok client_type_ok display_label_ok find_device_by_pin
    is_device_revoked store_json enrollment_error new_device fits_in_file enroll_new enroll_device
    pin_elsewhere add_pin_to add_pin_to_device remove_pin_of remove_pin_from_device rename_device
    revoke_device apply_call apply_calls
trust = tt

abbrev pin_a : Text
pin_a = replicate 64 97

abbrev pin_b : Text
pin_b = replicate 64 98

abbrev pin_c : Text
pin_c = replicate 64 99

abbrev laptop : EnrollDeviceInput
laptop = record {
  client_id = text "laptop";
  client_type = text "cli";
  pin = pin_a;
  display_label = some (text "Laptop");
}

abbrev phone : EnrollDeviceInput
phone = record laptop { client_id = text "phone"; pin = pin_b; display_label = none }

abbrev two_devices : List TrustCall
two_devices = enrolls (text "d1") (text "t1") laptop ∷ enrolls (text "d2") (text "t2") phone ∷ []

abbrev two : Devices
two = apply_calls two_devices []

two_enrolled : length two ≡ 2
unfolding trust
two_enrolled = refl

other_client_refused :
    (enroll_device (text "d3") (text "t3") (record laptop { client_id = text "x" }) two).0
    ≡ thrown other_client
unfolding trust
other_client_refused = refl

taken_pin_refused : (add_pin_to_device (text "d1") pin_b two).0 ≡ some pin_taken
unfolding trust
taken_pin_refused = refl

third_pin_refused :
    (add_pin_to_device (text "d1") (replicate 64 100) (add_pin_to_device (text "d1") pin_c two).1).0
    ≡ some too_many_pins
unfolding trust
third_pin_refused = refl

last_pin_kept : (remove_pin_from_device (text "d1") pin_a two).0 ≡ some last_pin
unfolding trust
last_pin_kept = refl

trusted_devices_example :
    (length (apply_calls two_devices []) ≤ 256)
    × ((k : Text) (d : EnrolledDevice)
        → lookup k (apply_calls two_devices []) ≡ some d
        → (d.device_id ≡ k) × HasPins d.pins)
    × ((p : Text) (d : EnrolledDevice)
        → (find_device_by_pin p (apply_calls two_devices []) ≡ some d)
          ↔ ((lookup d.device_id (apply_calls two_devices []) ≡ some d) × (has p d.pins ≡ true)))
trusted_devices_example = trusted_devices two_devices

enroll_device-enroll_device_example :
    enroll_device
      (text "d5")
      (text "t5")
      (record laptop { display_label = none })
      (enroll_device (text "d1") (text "t1") laptop []).1
    ≡ (
      returned (new_device (text "d1") (text "t1") laptop, true),
      (enroll_device (text "d1") (text "t1") laptop []).1,
    )
unfolding trust
enroll_device-enroll_device_example =
    enroll_device-enroll_device (text "d1") (text "t1") (text "d5") (text "t5") laptop
      (record laptop { display_label = none }) [] (new_device (text "d1") (text "t1") laptop) false
      refl refl refl refl
