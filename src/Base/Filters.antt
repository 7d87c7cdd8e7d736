-- ===== src/Base/Filters.antt =====
-- Loops over a `Map` that delete the entries whose value fails a test, the deletion of one key,
-- and what both leave of the other entries.
use Prim.Native.Nat.{ℕ, suc, ◌≤◌}
use mathlib.Core.Path.{◌≡◌, refl}
use mathlib.Core.Logic.{inl, inr}
use mathlib.Core.Bool.{Bool, true}
use mathlib.Core.Option.{Option, none, some}
use mathlib.Core.List.{[], ◌∷◌}
use native.Mathlib.Omega.{arith}
use cesspace_arc.Base.Tests.{if◌then◌else◌, Bool-cases, is_some, ◌>>=◌}
use cesspace_arc.Base.Lists.{length}
use cesspace_arc.Base.Strings.{Text, text_eq, text_eq_iff}
use cesspace_arc.Base.Maps.{Dict, lookup, insert, delete, total, lookup-delete, IsDistinct}

-- `value` if it passes the test.
abbrev pub passing {ℓ} : {V : Type ℓ} → (V → Bool) → V → Option V
passing p v = if p v then some v else none

module _ {ℓ} {V : Type ℓ} where
  unfoldable pub retain : (V → Bool) → Dict V → Dict V
  retain p [] = []
  retain p ((k, v) ∷ m) = if p v then (k, v) ∷ retain p m else retain p m

  pub lookup-retain-none :
      (p : V → Bool) (k : Text) (m : Dict V) → lookup k m ≡ none → lookup k (retain p m) ≡ none
  unfolding lookup retain
  lookup-retain-none p k [] absent = refl
  lookup-retain-none p k ((j, v) ∷ m) absent = ground (arith, lookup-retain-none p k m)

  pub lookup-retain :
      (p : V → Bool) (k : Text) (m : Dict V)
      → IsDistinct m
      → lookup k (retain p m) ≡ (lookup k m >>= passing p)
  unfolding lookup retain
  lookup-retain p k [] d = refl
  lookup-retain p k ((j, v) ∷ m) (absent, d) =
      ground (arith, text_eq_iff j k, lookup-retain p k m d, lookup-retain-none p j m absent)

  pub retain-IsDistinct : (p : V → Bool) (m : Dict V) → IsDistinct m → IsDistinct (retain p m)
  unfolding retain
  retain-IsDistinct p [] d = tt
  retain-IsDistinct p ((j, v) ∷ m) (absent, d) = elim (Bool-cases (p v)) [
    | inl kept ↦ rw kept (lookup-retain-none p j m absent, retain-IsDistinct p m d)
    | inr gone ↦ rw gone (retain-IsDistinct p m d)
  ]

  pub total-retain-le : (f : V → ℕ) (p : V → Bool) (m : Dict V) → total f (retain p m) ≤ total f m
  unfolding total retain
  total-retain-le f p [] = omega arith
  total-retain-le f p ((j, v) ∷ m) = ground (arith, total-retain-le f p m)

  pub length-retain-le : (p : V → Bool) (m : Dict V) → length (retain p m) ≤ length m
  unfolding retain
  length-retain-le p [] = omega arith
  length-retain-le p ((j, v) ∷ m) = ground (arith, length-retain-le p m)

  pub lookup-delete-none :
      (k j : Text) (m : Dict V) → lookup j m ≡ none → lookup j (delete k m) ≡ none
  lookup-delete-none k j m absent = ground (arith, lookup-delete k j m)

  pub delete-IsDistinct : (k : Text) (m : Dict V) → IsDistinct m → IsDistinct (delete k m)
  unfolding delete
  delete-IsDistinct k [] d = tt
  delete-IsDistinct k ((j, v) ∷ m) (absent, d) = elim (Bool-cases (text_eq j k)) [
    | inl same ↦ rw same (delete-IsDistinct k m d)
    | inr other ↦ rw other (lookup-delete-none k j m absent, delete-IsDistinct k m d)
  ]

  pub total-delete-le : (f : V → ℕ) (k : Text) (m : Dict V) → total f (delete k m) ≤ total f m
  unfolding total delete
  total-delete-le f k [] = omega arith
  total-delete-le f k ((j, v) ∷ m) = ground (arith, total-delete-le f k m)

  pub length-delete-le : (k : Text) (m : Dict V) → length (delete k m) ≤ length m
  unfolding delete
  length-delete-le k [] = omega arith
  length-delete-le k ((j, v) ∷ m) = ground (arith, length-delete-le k m)

  -- A key that is there leaves at least one entry less.
  pub length-delete :
      (k : Text) (m : Dict V) → is_some (lookup k m) ≡ true → suc (length (delete k m)) ≤ length m
  unfolding lookup delete
  length-delete k [] there = absurd (cc)
  length-delete k ((j, v) ∷ m) there = ground (arith, length-delete k m, length-delete-le k m)

  pub length-insert :
      (k : Text) (v : V) (m : Dict V)
      → length (insert k v m) ≡ (if is_some (lookup k m) then length m else suc (length m))
  unfolding lookup insert
  length-insert k v [] = refl
  length-insert k v ((j, w) ∷ m) = ground (arith, length-insert k v m)

-- `m'` has some of the entries of `m`.
pub record Within {ℓ} {V : Type ℓ} (m' m : Dict V) : Type ℓ where
  pub distinct : IsDistinct m → IsDistinct m'
  pub found : (k : Text) (v : V) → IsDistinct m → lookup k m' ≡ some v → lookup k m ≡ some v
  pub absent : (k : Text) → lookup k m ≡ none → lookup k m' ≡ none
  pub size : length m' ≤ length m
  pub totals : (f : V → ℕ) → total f m' ≤ total f m

module _ {ℓ} {V : Type ℓ} where
  passed : (p : V → Bool) (o : Option V) (v : V) → (o >>= passing p) ≡ some v → o ≡ some v
  passed p none v h = absurd (cc)
  passed p (some w) v h = ground arith

  pub retain-Within : (p : V → Bool) (m : Dict V) → Within (retain p m) m
  retain-Within p m = record {
    distinct = retain-IsDistinct p m;
    found = λ k v d h. passed p (lookup k m) v (rw (← lookup-retain p k m d) h);
    absent = λ k h. lookup-retain-none p k m h;
    size = length-retain-le p m;
    totals = λ f. total-retain-le f p m;
  }

  pub delete-Within : (k : Text) (m : Dict V) → Within (delete k m) m
  delete-Within k m = record {
    distinct = delete-IsDistinct k m;
    found = λ j v d h. ground (arith, lookup-delete k j m);
    absent = λ j h. lookup-delete-none k j m h;
    size = length-delete-le k m;
    totals = λ f. total-delete-le f k m;
  }

  pub self-Within : (m : Dict V) → Within m m
  self-Within m = record {
    distinct = λ d. d;
    found = λ k v d h. h;
    absent = λ k h. h;
    size = omega arith;
    totals = λ f. omega arith;
  }
