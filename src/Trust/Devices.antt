-- ===== src/Trust/Devices.antt =====
-- Device records and their validation (packages/auth/src/device-identity.ts).
use cesspace_arc.Base.{
  ℕ, ◌*◌, Bool, not, ◌&&◌, Option, List, Text, length, any, leb, ◌==◌, is_blank, is_hex,
  byte_length,
}

abbrev pub max_active_pins_per_device : ℕ
max_active_pins_per_device = 2

abbrev pub max_enrolled_devices : ℕ
max_enrolled_devices = 256

abbrev pub max_display_label_bytes : ℕ
max_display_label_bytes = 64

abbrev pub max_trust_store_bytes : ℕ
max_trust_store_bytes = 256 * 1024

abbrev pub max_client_id_chars : ℕ
max_client_id_chars = 128

abbrev pub max_client_type_chars : ℕ
max_client_type_chars = 64

pub record EnrolledDevice : Type 0 where
  pub device_id : Text
  pub client_id : Text
  pub client_type : Text
  pub pins : List Text
  pub enrolled_at : Text
  pub display_label : Text
  pub revoked : Bool

pub record EnrollDeviceInput : Type 0 where
  pub client_id : Text
  pub client_type : Text
  pub pin : Text
  pub display_label : Option Text

unfoldable pub is_valid_device_id : Text → Bool
unfolding is_hex
is_valid_device_id id = is_hex 32 id

unfoldable pub is_valid_spki_pin : Text → Bool
unfolding is_hex
is_valid_spki_pin pin = is_hex 64 pin

unfoldable pub has_nul : Text → Bool
has_nul s = any (λ c. c == 0) s

unfoldable pub client_id_ok : Text → Bool
unfolding is_blank has_nul
client_id_ok s = not (is_blank s) && not (has_nul s) && leb (length s) max_client_id_chars

unfoldable pub client_type_ok : Text → Bool
unfolding is_blank has_nul
client_type_ok s = not (is_blank s) && not (has_nul s) && leb (length s) max_client_type_chars

unfoldable pub display_label_ok : Text → Bool
unfolding byte_length
display_label_ok s = leb (byte_length s) max_display_label_bytes
