-- ===== src/Trust/Revocation.antt =====
-- Revocation and repeated enrollment in `DeviceTrustStore` (packages/auth/src/trust-store.ts).
use cesspace_arc.Base.{
  ◌≡◌, refl, sym, ◌∙◌, Bool, true, false, not, none, some, List, [], ◌∷◌, ◌++◌, keep, Text, text_eq,
  text_eq_iff, text_eq_refl, all, has, lookup, insert, lookup-insert, Bool-cases, Option-cases, inl,
  inr, and→both, if◌then◌else◌, returned, arith,
}
use cesspace_arc.Trust.Devices.{EnrolledDevice, EnrollDeviceInput}
use cesspace_arc.Trust.Store.{
  Devices, find_device_by_pin, is_device_revoked, new_device, enrollment_error, enroll_new,
  enroll_device, add_pin_to, add_pin_to_device, remove_pin_of, remove_pin_from_device,
  rename_device, revoke_device,
}
use cesspace_arc.Trust.Runs.{
  TrustCall, enrolls, adds_pin, removes_pin, renames, revokes, apply_call, apply_calls,
}

-- The call gives an enrolled device the identifier `k`.
abbrev pub enrolls_under : Text → TrustCall → Bool
enrolls_under k (enrolls id _ _) = text_eq id k
enrolls_under k _ = false

is_device_revoked-insert :
    (k id : Text) (dev : EnrolledDevice) (m : Devices)
    → is_device_revoked k (insert id dev m)
      ≡ (if text_eq id k then dev.revoked else is_device_revoked k m)
unfolding is_device_revoked
is_device_revoked-insert k id dev m = ground (arith, lookup-insert id k dev m)

-- A write of a record that keeps the mark of the record before it, or sets it.
update_keeps :
    (k id : Text) (dev dev' : EnrolledDevice) (m : Devices)
    → lookup id m ≡ some dev
    → (dev.revoked ≡ true → dev'.revoked ≡ true)
    → is_device_revoked k m ≡ true
    → is_device_revoked k (insert id dev' m) ≡ true
update_keeps k id dev dev' m found keeps h =
    let own : is_device_revoked id m ≡ dev.revoked =
      unfold is_device_revoked in rw (is_device_revoked, found) in
    elim (Bool-cases (text_eq id k)) [
      | inl same ↦
          let before : is_device_revoked id m ≡ true = rw ((text_eq_iff id k).0 same) h in
          let after = keeps (rw (← own) before) in
          ground (arith, is_device_revoked-insert k id dev' m)
      | inr other ↦ ground (arith, is_device_revoked-insert k id dev' m)
    ]

enroll_keeps :
    (k id now : Text) (input : EnrollDeviceInput) (m : Devices)
    → text_eq id k ≡ false
    → is_device_revoked k m ≡ true
    → is_device_revoked k (enroll_device id now input m).1 ≡ true
unfolding enroll_device enroll_new
enroll_keeps k id now input m other h =
    ground (arith, is_device_revoked-insert k id (new_device id now input) m)

call_keeps :
    (k : Text) (c : TrustCall) (m : Devices)
    → enrolls_under k c ≡ false
    → is_device_revoked k m ≡ true
    → is_device_revoked k (apply_call c m) ≡ true
unfolding apply_call
call_keeps k (enrolls id now input) m other h = enroll_keeps k id now input m other h
call_keeps k (adds_pin id pin) m other h = elim (Option-cases (lookup id m)) [
  | inl missing ↦ rw (apply_call, add_pin_to_device, missing) h
  | inr (dev, found) ↦
      let kept =
        update_keeps k id dev (record dev { pins = dev.pins ++ pin ∷ [] }) m found (λ r. r) h in
      unfold add_pin_to_device add_pin_to in ground (arith, kept)
]
call_keeps k (removes_pin id pin) m other h = elim (Option-cases (lookup id m)) [
  | inl missing ↦ rw (apply_call, remove_pin_from_device, missing) h
  | inr (dev, found) ↦
      let left = keep (λ p. not (text_eq p pin)) dev.pins in
      let kept = update_keeps k id dev (record dev { pins = left }) m found (λ r. r) h in
      unfold remove_pin_from_device remove_pin_of in ground (arith, kept)
]
call_keeps k (renames id label) m other h = elim (Option-cases (lookup id m)) [
  | inl missing ↦ rw (apply_call, rename_device, missing) h
  | inr (dev, found) ↦
      let kept = update_keeps k id dev (record dev { display_label = label }) m found (λ r. r) h in
      unfold rename_device in ground (arith, kept)
]
call_keeps k (revokes id) m other h = elim (Option-cases (lookup id m)) [
  | inl missing ↦ rw (apply_call, revoke_device, missing) h
  | inr (dev, found) ↦
      let kept = update_keeps k id dev (record dev { revoked = true }) m found (λ _. refl) h in
      unfold revoke_device in ground (arith, kept)
]

-- A revoked device stays revoked, whatever calls follow, if no enrollment among them draws the
-- identifier of that device for a new one.
pub revoked_for_good :
    (k : Text) (cs : List TrustCall) (m : Devices)
    → all (λ c. not (enrolls_under k c)) cs ≡ true
    → is_device_revoked k m ≡ true
    → is_device_revoked k (apply_calls cs m) ≡ true
unfolding apply_calls
revoked_for_good k [] m fresh h = h
revoked_for_good k (c ∷ cs) m fresh h =
    let (first, later) = and→both (not (enrolls_under k c)) _ fresh in
    revoked_for_good k cs (apply_call c m) later (call_keeps k c m (ground arith) h)

find-insert :
    (pin id : Text) (dev : EnrolledDevice) (m : Devices)
    → find_device_by_pin pin m ≡ none
    → has pin dev.pins ≡ true
    → find_device_by_pin pin (insert id dev m) ≡ some dev
unfolding find_device_by_pin insert
find-insert pin id dev [] unknown own = rw own
find-insert pin id dev ((j, v) ∷ m) unknown own = ground (arith, find-insert pin id dev m)

module _ (id now : Text) (input : EnrollDeviceInput) (m : Devices) (d : EnrolledDevice)
    (before : Bool) where
  enroll_new-found :
      find_device_by_pin input.pin m ≡ none
      → (enroll_new id now input m).0 ≡ returned (d, before)
      → (find_device_by_pin input.pin (enroll_new id now input m).1 ≡ some d)
        × (d.client_id ≡ input.client_id)
  unfolding enroll_new
  enroll_new-found unknown h =
      let own : has input.pin (new_device id now input).pins ≡ true =
        unfold new_device has in ground (arith, text_eq_refl input.pin) in
      let hit = find-insert input.pin id (new_device id now input) m unknown own in
      let same : (new_device id now input).client_id ≡ input.client_id =
        unfold new_device in refl in
      ground (arith, hit, same)

  enroll-found :
      (enroll_device id now input m).0 ≡ returned (d, before)
      → (find_device_by_pin input.pin (enroll_device id now input m).1 ≡ some d)
        × (d.client_id ≡ input.client_id)
  unfolding enroll_device
  enroll-found h = elim (Option-cases (enrollment_error input)) [
    | inr (e, bad) ↦ absurd (ground arith)
    | inl fine ↦ elim (Option-cases (find_device_by_pin input.pin m)) [
      | inl unknown ↦
          rw (enroll_device, fine, unknown)
            (enroll_new-found unknown (rw (enroll_device, fine, unknown) at h))
      | inr (dev, hit) ↦ ground (arith, text_eq_iff dev.client_id input.client_id)
    ]
  ]

-- After an enrollment that returned a device, enrolling the same client with the same pin returns
-- that device, as a reconnection, and changes nothing, whatever its other valid inputs are.
pub enroll_device-enroll_device :
    (id now id' now' : Text) (input input' : EnrollDeviceInput) (m : Devices) (d : EnrolledDevice)
    (before : Bool)
    → (enroll_device id now input m).0 ≡ returned (d, before)
    → input'.client_id ≡ input.client_id
    → input'.pin ≡ input.pin
    → enrollment_error input' ≡ none
    → enroll_device id' now' input' (enroll_device id now input m).1
      ≡ (returned (d, true), (enroll_device id now input m).1)
enroll_device-enroll_device id now id' now' input input' m d before h client pin valid =
    let (hit, own) = enroll-found id now input m d before h in
    let hit' : find_device_by_pin input'.pin (enroll_device id now input m).1 ≡ some d =
      rw pin hit in
    let same : text_eq d.client_id input'.client_id ≡ true =
      (text_eq_iff d.client_id input'.client_id).1 (own ∙ sym client) in
    unfold enroll_device in rw (enroll_device, valid, hit', same)
