-- ===== src/Base/Results.antt =====
-- The outcome of code that returns or throws.
use mathlib.Core.Path.{◌≡◌, refl}
use mathlib.Core.Bool.{Bool, true, false}
use mathlib.Core.Option.{Option, none, some}

pub data Outcome {ℓ} (E A : Type ℓ) : Type ℓ where
  returned : A → Outcome E A
  thrown : E → Outcome E A

abbrev pub has_returned {ℓ} : {E A : Type ℓ} → Outcome E A → Bool
has_returned (returned _) = true
has_returned (thrown _) = false

-- A check that throws, as the error that it throws, before the code that follows it.
abbrev pub first_error {ℓ} : {E : Type ℓ} → Option E → Option E → Option E
first_error (some e) _ = some e
first_error none next = next

abbrev pub unless {ℓ} : {E : Type ℓ} → Bool → E → Option E
unless true e = none
unless false e = some e

-- What follows code that returned.
abbrev pub and_then {ℓ} : {E A B : Type ℓ} → Outcome E A → (A → Outcome E B) → Outcome E B
and_then (returned a) f = f a
and_then (thrown e) f = thrown e

pub and_then-eq-returned {ℓ} :
    {E A B : Type ℓ} (m : Outcome E A) (f : A → Outcome E B) {b : B}
    → and_then m f ≡ returned b
    → (a : A) × (m ≡ returned a) × (f a ≡ returned b)
and_then-eq-returned (returned a) f h = (a, refl, h)
and_then-eq-returned (thrown e) f h = absurd (cc)

pub returned_eq {ℓ} :
    {E A : Type ℓ} {a b : A} → ◌≡◌ {A = Outcome E A} (returned a) (returned b) → a ≡ b
returned_eq h = cc
