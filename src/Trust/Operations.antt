-- ===== src/Trust/Operations.antt =====
-- The operations of `DeviceTrustStore` (packages/auth/src/trust-store.ts) keep its invariant, and
-- what a run of them is.
use cesspace_arc.Base.{
  ◌+◌, ◌≤◌, ◌≡◌, refl, sym, ◌∙◌, Bool, true, false, not, none, some, List, [], ◌∷◌, ◌++◌, Text,
  text_eq, text_eq_iff, length, length-append, keep, leb, has, has-append, lookup, insert,
  Bool-cases, inl, inr, arith,
}
use cesspace_arc.Trust.Devices.{EnrolledDevice, EnrollDeviceInput}
use cesspace_arc.Trust.Store.{
  Devices, find_device_by_pin, new_device, fits_in_file, enroll_new, pin_elsewhere, add_pin_to,
  remove_pin_of,
}
use cesspace_arc.Trust.Pins.{find-eq-some, find-eq-none, find_iff}
use cesspace_arc.Trust.Invariant.{
  AllDifferent, HasPins, IsTrusted, insert-IsTrusted, length-insert_present, length-insert_below,
}

added-IsTrusted :
    (id now : Text) (input : EnrollDeviceInput) (m : Devices)
    → find_device_by_pin input.pin m ≡ none
    → length m ≤ 255
    → IsTrusted m
    → IsTrusted (insert id (new_device id now input) m)
unfolding new_device has
added-IsTrusted id now input m unknown room w =
    insert-IsTrusted id (new_device id now input) m refl (omega arith, omega arith, (refl, tt))
      (λ p k e own found shared.
        let same : input.pin ≡ p = ground (arith, text_eq_iff input.pin p) in
        let missing = find-eq-none input.pin m k e unknown found in
        let there : has input.pin e.pins ≡ true = rw same shared in absurd (cc))
      (length-insert_below id (new_device id now input) m room) w

pub enroll_new-IsTrusted :
    (id now : Text) (input : EnrollDeviceInput) (m : Devices)
    → find_device_by_pin input.pin m ≡ none
    → IsTrusted m
    → IsTrusted (enroll_new id now input m).1
unfolding enroll_new
enroll_new-IsTrusted id now input m unknown w = elim (Bool-cases (leb 256 (length m))) [
  | inl full ↦ rw full w
  | inr room ↦ elim (Bool-cases (fits_in_file (new_device id now input) m)) [
    | inl fits ↦ rw (room, fits) (added-IsTrusted id now input m unknown (ground arith) w)
    | inr large ↦ rw (room, large) w
  ]
]

-- A record with the same identifier and no other pin than before.
module _ (id : Text) (dev dev' : EnrolledDevice) (m : Devices) where
  pub update-IsTrusted :
      lookup id m ≡ some dev
      → dev'.device_id ≡ dev.device_id
      → HasPins dev'.pins
      → ((p : Text) → has p dev'.pins ≡ true → has p dev.pins ≡ true)
      → IsTrusted m
      → IsTrusted (insert id dev' m)
  update-IsTrusted found same pins fewer w =
      insert-IsTrusted id dev' m (same ∙ w.keyed id dev found) pins
        (λ p k e own there shared. w.exclusive p k id e dev there found shared (fewer p own))
        (omega (arith, length-insert_present id dev' m dev found, w.size)) w

has-keep :
    (q : Text → Bool) (p : Text) (xs : List Text) → has p (keep q xs) ≡ true → has p xs ≡ true
unfolding has
has-keep q p [] h = h
has-keep q p (x ∷ xs) h = ground (arith, has-keep q p xs)

length-keep-le : (q : Text → Bool) (xs : List Text) → length (keep q xs) ≤ length xs
length-keep-le q [] = omega arith
length-keep-le q (x ∷ xs) = ground (arith, length-keep-le q xs)

-- A pin that no other device has is found at most at the device itself.
elsewhere_alone :
    (id pin k : Text) (e : EnrolledDevice) (m : Devices)
    → IsTrusted m
    → pin_elsewhere id pin m ≡ false
    → lookup k m ≡ some e
    → has pin e.pins ≡ true
    → k ≡ id
unfolding pin_elsewhere
elsewhere_alone id pin k e m w alone found pinned =
    let (d, hit) = find_iff pin m k e found pinned in
    let (j, there, shared) = find-eq-some pin m d w.distinct hit in
    let own : d.device_id ≡ id = ground (arith, text_eq_iff d.device_id id) in
    w.exclusive pin k j e d found there pinned shared ∙ sym (w.keyed j d there) ∙ own

append-AllDifferent :
    (pin : Text) (ps : List Text)
    → has pin ps ≡ false
    → AllDifferent ps
    → AllDifferent (ps ++ pin ∷ [])
unfolding has
append-AllDifferent pin [] new d = (refl, tt)
append-AllDifferent pin (p ∷ ps) new (first, d) = (
  ground (arith, has-append p ps (pin ∷ []), text_eq_iff pin p, text_eq_iff p pin),
  append-AllDifferent pin ps (ground arith) d,
)

with_pin-HasPins :
    (pin : Text) (ps : List Text)
    → has pin ps ≡ false
    → leb 2 (length ps) ≡ false
    → HasPins ps
    → HasPins (ps ++ pin ∷ [])
with_pin-HasPins pin ps new few (some_pin, _, d) = (
  omega (arith, length-append ps (pin ∷ [])),
  ground (arith, length-append ps (pin ∷ [])),
  append-AllDifferent pin ps new d,
)

with_pin : Text → EnrolledDevice → EnrolledDevice
with_pin pin dev = record dev { pins = dev.pins ++ pin ∷ [] }

with_pin-IsTrusted :
    (id pin : Text) (dev : EnrolledDevice) (m : Devices)
    → lookup id m ≡ some dev
    → pin_elsewhere id pin m ≡ false
    → has pin dev.pins ≡ false
    → leb 2 (length dev.pins) ≡ false
    → IsTrusted m
    → IsTrusted (insert id (with_pin pin dev) m)
unfolding with_pin
with_pin-IsTrusted id pin dev m found alone new few w =
    insert-IsTrusted id (with_pin pin dev) m (w.keyed id dev found)
      (with_pin-HasPins pin dev.pins new few (w.pinned id dev found))
      (λ p k e own there shared. elim (Bool-cases (has p dev.pins)) [
        | inl before ↦ w.exclusive p k id e dev there found shared before
        | inr later ↦
            let same : pin ≡ p =
              unfold has in ground (arith, has-append p dev.pins (pin ∷ []), text_eq_iff pin p) in
            elsewhere_alone id pin k e m w alone there (rw same shared)
      ])
      (omega (arith, length-insert_present id (with_pin pin dev) m dev found, w.size)) w

pub add_pin-IsTrusted :
    (id pin : Text) (dev : EnrolledDevice) (m : Devices)
    → lookup id m ≡ some dev
    → IsTrusted m
    → IsTrusted (add_pin_to id pin dev m).1
unfolding add_pin_to with_pin
add_pin-IsTrusted id pin dev m found w = ground (arith, with_pin-IsTrusted id pin dev m found)

-- The pins other than one.
keep-AllDifferent : (q : Text → Bool) (ps : List Text) → AllDifferent ps → AllDifferent (keep q ps)
keep-AllDifferent q [] d = tt
keep-AllDifferent q (p ∷ ps) (first, d) = elim (Bool-cases (q p)) [
  | inl kept ↦ rw kept (ground (arith, has-keep q p ps), keep-AllDifferent q ps d)
  | inr gone ↦ rw gone (keep-AllDifferent q ps d)
]

abbrev others : Text → List Text → List Text
others pin ps = keep (λ p. not (text_eq p pin)) ps

others_all : (pin : Text) (ps : List Text) → has pin ps ≡ false → length (others pin ps) ≡ length ps
unfolding has
others_all pin [] h = refl
others_all pin (p ∷ ps) h = ground (arith, others_all pin ps)

length-others :
    (pin : Text) (ps : List Text) → AllDifferent ps → length ps ≤ length (others pin ps) + 1
length-others pin [] d = omega arith
length-others pin (p ∷ ps) (first, d) =
    ground (arith, text_eq_iff p pin, length-others pin ps d, others_all pin ps)

others-HasPins :
    (pin : Text) (ps : List Text) → leb (length ps) 1 ≡ false → HasPins ps → HasPins (others pin ps)
others-HasPins pin ps more (_, few, d) = (
  ground (arith, length-others pin ps d),
  omega (arith, length-keep-le (λ p. not (text_eq p pin)) ps),
  keep-AllDifferent (λ p. not (text_eq p pin)) ps d,
)

pub remove_pin-IsTrusted :
    (id pin : Text) (dev : EnrolledDevice) (m : Devices)
    → lookup id m ≡ some dev
    → IsTrusted m
    → IsTrusted (remove_pin_of id pin dev m).1
unfolding remove_pin_of
remove_pin-IsTrusted id pin dev m found w = elim (Bool-cases (leb (length dev.pins) 1)) [
  | inl last ↦ ground (arith, last)
  | inr more ↦
      let removed =
        update-IsTrusted id dev (record dev { pins = others pin dev.pins }) m found refl
          (others-HasPins pin dev.pins more (w.pinned id dev found))
          (λ p h. has-keep (λ q. not (text_eq q pin)) p dev.pins h) w in
      ground (arith, removed)
]
