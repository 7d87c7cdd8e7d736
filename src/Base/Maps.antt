-- ===== src/Base/Maps.antt =====
-- A `Map` with string keys as the list of its entries in insertion order: `set` on a present key
-- keeps the entry's place, and a new key goes to the end.
use Prim.Native.Nat.{ℕ, ◌+◌}
use mathlib.Core.Path.{◌≡◌, refl, ◌∙◌}
use mathlib.Core.Logic.{inl, inr}
use mathlib.Core.Bool.{false}
use mathlib.Core.Option.{Option, none, some}
use mathlib.Core.List.{List, [], ◌∷◌}
use native.Mathlib.Omega.{arith}
use cesspace_arc.Base.Tests.{if◌then◌else◌, Bool-cases}
use cesspace_arc.Base.Strings.{Text, text_eq, text_eq_iff, text_eq_refl}

abbrev pub Dict {ℓ} : Type ℓ → Type ℓ
Dict V = List (Text × V)

module _ {ℓ} {V : Type ℓ} where
  unfoldable pub lookup : Text → Dict V → Option V
  lookup k [] = none
  lookup k ((j, v) ∷ m) = if text_eq j k then some v else lookup k m

  unfoldable pub insert : Text → V → Dict V → Dict V
  insert k v [] = (k, v) ∷ []
  insert k v ((j, w) ∷ m) = if text_eq j k then (j, v) ∷ m else (j, w) ∷ insert k v m

  unfoldable pub delete : Text → Dict V → Dict V
  delete k [] = []
  delete k ((j, w) ∷ m) = if text_eq j k then delete k m else (j, w) ∷ delete k m

  pub lookup-insert :
      (k j : Text) (v : V) (m : Dict V)
      → lookup j (insert k v m) ≡ (if text_eq k j then some v else lookup j m)
  unfolding lookup insert
  lookup-insert k j v [] = refl
  lookup-insert k j v ((i, w) ∷ m) =
      ground (arith, text_eq_iff k j, text_eq_iff i k, text_eq_iff i j, lookup-insert k j v m)

  pub lookup-delete :
      (k j : Text) (m : Dict V) → lookup j (delete k m) ≡ (if text_eq k j then none else lookup j m)
  unfolding lookup delete
  lookup-delete k j [] = ground arith
  lookup-delete k j ((i, w) ∷ m) =
      ground (arith, text_eq_iff k j, text_eq_iff i k, text_eq_iff i j, lookup-delete k j m)

-- The sum of a measure over the entries.
module _ {ℓ} {V : Type ℓ} (f : V → ℕ) where
  unfoldable pub total : Dict V → ℕ
  total [] = 0
  total ((j, v) ∷ m) = f v + total m

  abbrev pub measure_of : Option V → ℕ
  measure_of none = 0
  measure_of (some v) = f v

  pub total-insert :
      (k : Text) (v : V) (m : Dict V)
      → total (insert k v m) + measure_of (lookup k m) ≡ total m + f v
  unfolding total insert lookup
  total-insert k v [] = omega arith
  total-insert k v ((j, w) ∷ m) = ground (arith, total-insert k v m)

-- No key has two entries. `insert` keeps this, and then an entry is what `lookup` finds.
module _ {ℓ} {V : Type ℓ} where
  abbrev pub IsDistinct : Dict V → Type ℓ
  IsDistinct [] = Unit
  IsDistinct ((k, v) ∷ m) = (lookup k m ≡ none) × IsDistinct m

  pub insert-IsDistinct : (k : Text) (v : V) (m : Dict V) → IsDistinct m → IsDistinct (insert k v m)
  unfolding insert lookup
  insert-IsDistinct k v [] d = (refl, tt)
  insert-IsDistinct k v ((j, w) ∷ m) (absent, d) = elim (Bool-cases (text_eq j k)) [
    | inl same ↦ rw same (absent, d)
    | inr other ↦ rw other (
      ground (arith, lookup-insert k j v m, text_eq_iff j k, text_eq_iff k j),
      insert-IsDistinct k v m d,
    )
  ]

  -- Every entry of the list is what the map holds under its key.
  abbrev pub Holds : Dict V → Dict V → Type ℓ
  Holds [] m = Unit
  Holds ((k, v) ∷ l) m = (lookup k m ≡ some v) × Holds l m

  -- A change under a key that the list does not have is not seen.
  pub Holds-unchanged :
      (k : Text) (l m m' : Dict V)
      → lookup k l ≡ none
      → ((j : Text) → text_eq k j ≡ false → lookup j m' ≡ lookup j m)
      → Holds l m
      → Holds l m'
  unfolding lookup
  Holds-unchanged k [] m m' absent same h = tt
  Holds-unchanged k ((j, v) ∷ l) m m' absent same (here, later) = elim (Bool-cases (text_eq j k)) [
    | inl eq ↦ absurd (ground arith)
    | inr ne ↦ (
      same j (ground (arith, text_eq_iff j k, text_eq_iff k j)) ∙ here,
      Holds-unchanged k l m m' (ground arith) same later,
    )
  ]

  pub Holds-self : (m : Dict V) → IsDistinct m → Holds m m
  unfolding lookup
  Holds-self [] d = tt
  Holds-self ((k, v) ∷ m) (absent, d) = (
    rw (text_eq_refl k),
    Holds-unchanged k m m ((k, v) ∷ m) absent (λ j ne. rw ne) (Holds-self m d),
  )
