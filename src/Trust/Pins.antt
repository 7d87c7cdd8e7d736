-- ===== src/Trust/Pins.antt =====
-- What `findDeviceByPin` of packages/auth/src/trust-store.ts finds in a store.
use cesspace_arc.Base.{
  ◌≡◌, true, false, none, some, [], ◌∷◌, Text, text_eq_iff, text_eq_refl, has, lookup, IsDistinct,
  Bool-cases, inl, inr, arith,
}
use cesspace_arc.Trust.Devices.{EnrolledDevice}
use cesspace_arc.Trust.Store.{Devices, find_device_by_pin}

-- What is found under a later key is found in the whole store.
lookup_later :
    (id k : Text) (dev d : EnrolledDevice) (m : Devices)
    → lookup id m ≡ none
    → lookup k m ≡ some d
    → lookup k ((id, dev) ∷ m) ≡ some d
unfolding lookup
lookup_later id k dev d m absent found = ground (arith, text_eq_iff id k)

pub find-eq-some :
    (p : Text) (m : Devices) (d : EnrolledDevice)
    → IsDistinct m
    → find_device_by_pin p m ≡ some d
    → (k : Text) × (lookup k m ≡ some d) × (has p d.pins ≡ true)
unfolding find_device_by_pin lookup
find-eq-some p [] d distinct h = absurd (cc)
find-eq-some p ((id, dev) ∷ m) d (absent, distinct) h = elim (Bool-cases (has p dev.pins)) [
  | inl here ↦ let e : dev ≡ d = ground arith in (id, ground (arith, text_eq_refl id), ground arith)
  | inr later ↦
      let (k, found, pinned) = find-eq-some p m d distinct (rw later at h) in
      (k, lookup_later id k dev d m absent found, pinned)
]

pub find-eq-none :
    (p : Text) (m : Devices) (k : Text) (d : EnrolledDevice)
    → find_device_by_pin p m ≡ none
    → lookup k m ≡ some d
    → has p d.pins ≡ false
unfolding find_device_by_pin lookup
find-eq-none p [] k d h found = absurd (cc)
find-eq-none p ((id, dev) ∷ m) k d h found = ground (arith, find-eq-none p m k d)

pub find_iff :
    (p : Text) (m : Devices) (k : Text) (d : EnrolledDevice)
    → lookup k m ≡ some d
    → has p d.pins ≡ true
    → (e : EnrolledDevice) × (find_device_by_pin p m ≡ some e)
unfolding find_device_by_pin lookup
find_iff p [] k d found pinned = absurd (cc)
find_iff p ((id, dev) ∷ m) k d found pinned = elim (Bool-cases (has p dev.pins)) [
  | inl here ↦ (dev, rw here)
  | inr later ↦ rw later (find_iff p m k d (ground arith) pinned)
]
