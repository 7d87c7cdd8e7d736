-- ===== src/Trust/Runs.antt =====
-- Runs of the operations of `DeviceTrustStore` (packages/auth/src/trust-store.ts).
use cesspace_arc.Base.{
  ◌≤◌, ◌≡◌, ◌↔◌, refl, sym, subst, ◌∙◌, true, some, List, [], ◌∷◌, Text, length, has, lookup,
  Bool-cases, Option-cases, inl, inr, arith,
}
use cesspace_arc.Trust.Devices.{EnrolledDevice, EnrollDeviceInput, has_nul, display_label_ok}
use cesspace_arc.Trust.Store.{
  Devices, find_device_by_pin, enroll_device, add_pin_to_device, remove_pin_from_device,
  rename_device, revoke_device, enrollment_error,
}
use cesspace_arc.Trust.Pins.{find-eq-some, find_iff}
use cesspace_arc.Trust.Invariant.{HasPins, IsTrusted, empty-IsTrusted}
use cesspace_arc.Trust.Operations.{
  enroll_new-IsTrusted, update-IsTrusted, add_pin-IsTrusted, remove_pin-IsTrusted,
}

pub data TrustCall : Type 0 where
  enrolls : (id now : Text) → EnrollDeviceInput → TrustCall
  adds_pin removes_pin renames : (id value : Text) → TrustCall
  revokes : Text → TrustCall

unfoldable pub apply_call : TrustCall → Devices → Devices
unfolding enroll_device add_pin_to_device remove_pin_from_device rename_device revoke_device
apply_call (enrolls id now input) m = (enroll_device id now input m).1
apply_call (adds_pin id pin) m = (add_pin_to_device id pin m).1
apply_call (removes_pin id pin) m = (remove_pin_from_device id pin m).1
apply_call (renames id label) m = (rename_device id label m).1
apply_call (revokes id) m = (revoke_device id m).1

unfoldable pub apply_calls : List TrustCall → Devices → Devices
unfolding apply_call
apply_calls [] m = m
apply_calls (c ∷ cs) m = apply_calls cs (apply_call c m)

enroll-IsTrusted :
    (id now : Text) (input : EnrollDeviceInput) (m : Devices)
    → IsTrusted m
    → IsTrusted (enroll_device id now input m).1
unfolding enroll_device
enroll-IsTrusted id now input m w = elim (Option-cases (enrollment_error input)) [
  | inr (e, bad) ↦ rw (enroll_device, bad) w
  | inl fine ↦ elim (Option-cases (find_device_by_pin input.pin m)) [
    | inl unknown ↦
        rw (enroll_device, fine, unknown) (enroll_new-IsTrusted id now input m unknown w)
    | inr (dev, hit) ↦ rw (enroll_device, fine, hit) (ground arith)
  ]
]

call-IsTrusted : (c : TrustCall) (m : Devices) → IsTrusted m → IsTrusted (apply_call c m)
unfolding apply_call add_pin_to_device remove_pin_from_device rename_device revoke_device
call-IsTrusted (enrolls id now input) m w = enroll-IsTrusted id now input m w
call-IsTrusted (adds_pin id pin) m w = elim (Option-cases (lookup id m)) [
  | inl missing ↦ rw (apply_call, add_pin_to_device, missing) w
  | inr (dev, found) ↦
      rw (apply_call, add_pin_to_device, found) (add_pin-IsTrusted id pin dev m found w)
]
call-IsTrusted (removes_pin id pin) m w = elim (Option-cases (lookup id m)) [
  | inl missing ↦ rw (apply_call, remove_pin_from_device, missing) w
  | inr (dev, found) ↦
      rw (apply_call, remove_pin_from_device, found) (remove_pin-IsTrusted id pin dev m found w)
]
call-IsTrusted (renames id label) m w = elim (Option-cases (lookup id m)) [
  | inl missing ↦ rw (apply_call, rename_device, missing) w
  | inr (dev, found) ↦
      let renamed =
        update-IsTrusted id dev (record dev { display_label = label }) m found refl
          (w.pinned id dev found) (λ p h. h) w in
      elim (Bool-cases (has_nul label)) [
        | inl nul ↦ rw (apply_call, rename_device, found, nul) w
        | inr clean ↦ elim (Bool-cases (display_label_ok label)) [
          | inl short ↦ rw (apply_call, rename_device, found, clean, short) renamed
          | inr long ↦ rw (apply_call, rename_device, found, clean, long) w
        ]
      ]
]
call-IsTrusted (revokes id) m w = elim (Option-cases (lookup id m)) [
  | inl missing ↦ rw (apply_call, revoke_device, missing) w
  | inr (dev, found) ↦
      rw (apply_call, revoke_device, found)
        (update-IsTrusted id dev (record dev { revoked = true }) m found refl
          (w.pinned id dev found) (λ p h. h) w)
]

pub calls-IsTrusted :
    (cs : List TrustCall) (m : Devices) → IsTrusted m → IsTrusted (apply_calls cs m)
unfolding apply_calls
calls-IsTrusted [] m w = w
calls-IsTrusted (c ∷ cs) m w = calls-IsTrusted cs (apply_call c m) (call-IsTrusted c m w)

pub found_iff :
    (p : Text) (m : Devices) (d : EnrolledDevice)
    → IsTrusted m
    → (find_device_by_pin p m ≡ some d) ↔ ((lookup d.device_id m ≡ some d) × (has p d.pins ≡ true))
found_iff p m d w = (
  λ hit.
      let (k, found, pinned) = find-eq-some p m d w.distinct hit in
      (subst (λ j. lookup j m ≡ some d) (sym (w.keyed k d found)) found, pinned),
  λ (found, pinned).
      let (e, hit) = find_iff p m d.device_id d found pinned in
      let (k, there, shared) = find-eq-some p m e w.distinct hit in
      let same = w.exclusive p d.device_id k d e found there pinned shared in
      let stored : some e ≡ some d = sym there ∙ subst (λ j. lookup j m ≡ some d) same found in
      hit ∙ stored,
)

-- In a store that any calls have made from the empty one there are at most 256 devices; each is
-- stored under its own identifier and has one or two pins, which differ; and a device is found by
-- a pin exactly when it is stored and the pin is one of its own, so that no pin has two devices.
pub trusted_devices :
    (cs : List TrustCall)
    → (length (apply_calls cs []) ≤ 256)
      × ((k : Text) (d : EnrolledDevice)
          → lookup k (apply_calls cs []) ≡ some d
          → (d.device_id ≡ k) × HasPins d.pins)
      × ((p : Text) (d : EnrolledDevice)
          → (find_device_by_pin p (apply_calls cs []) ≡ some d)
            ↔ ((lookup d.device_id (apply_calls cs []) ≡ some d) × (has p d.pins ≡ true)))
trusted_devices cs =
    let m = apply_calls cs [] in
    let w = calls-IsTrusted cs [] empty-IsTrusted in
    (w.size, λ k d found. (w.keyed k d found, w.pinned k d found), λ p d. found_iff p m d w)
