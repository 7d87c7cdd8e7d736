-- ===== src/Policy/Order.antt =====
-- The order of JavaScript on strings, by code unit, which `compareStrings` of
-- packages/policy/src/declarative-policy.ts stands on.
use cesspace_arc.Base.{
  ◌≡◌, refl, inl, inr, Bool, true, false, ◌&&◌, ◌||◌, [], ◌∷◌, Text, ltb, ◌==◌, Bool-cases, arith,
}

pub data Comparison : Type 0 where
  before same after : Comparison

-- `a < b` on strings.
unfoldable pub text_less : Text → Text → Bool
text_less [] [] = false
text_less [] (y ∷ ys) = true
text_less (x ∷ xs) [] = false
text_less (x ∷ xs) (y ∷ ys) = ltb x y || (x == y && text_less xs ys)

-- -1, 0 and 1 are `before`, `same` and `after`.
unfoldable pub compare_strings : Text → Text → Comparison
compare_strings a b = elim (text_less a b) [
  | true ↦ before
  | false ↦ (elim (text_less b a) [ true ↦ after | false ↦ same ])
]

abbrev pub is_before : Comparison → Bool
is_before before = true
is_before _ = false

pub text_less_irrefl : (a : Text) → text_less a a ≡ false
unfolding text_less
text_less_irrefl [] = refl
text_less_irrefl (x ∷ xs) = ground (arith, text_less_irrefl xs)

pub text_less_trans :
    (a b c : Text) → text_less a b ≡ true → text_less b c ≡ true → text_less a c ≡ true
unfolding text_less
text_less_trans [] [] c h k = absurd (cc)
text_less_trans [] (y ∷ ys) [] h k = absurd (cc)
text_less_trans [] (y ∷ ys) (z ∷ zs) h k = refl
text_less_trans (x ∷ xs) [] c h k = absurd (cc)
text_less_trans (x ∷ xs) (y ∷ ys) [] h k = absurd (cc)
text_less_trans (x ∷ xs) (y ∷ ys) (z ∷ zs) h k = ground (arith, text_less_trans xs ys zs)

pub text_less_total : (a b : Text) → text_less a b ≡ false → text_less b a ≡ false → a ≡ b
unfolding text_less
text_less_total [] [] h k = refl
text_less_total [] (y ∷ ys) h k = absurd (cc)
text_less_total (x ∷ xs) [] h k = absurd (cc)
text_less_total (x ∷ xs) (y ∷ ys) h k = ground (arith, text_less_total xs ys)

pub compare_strings_before : (a b : Text) → is_before (compare_strings a b) ≡ text_less a b
unfolding compare_strings
compare_strings_before a b = ground arith

pub text_less_negtrans :
    (a b c : Text) → text_less b a ≡ false → text_less c b ≡ false → text_less c a ≡ false
text_less_negtrans a b c h k = elim (Bool-cases (text_less c a)) [
  | inr done ↦ done
  | inl less ↦ elim (Bool-cases (text_less a b)) [
    | inl up ↦ absurd (cc (text_less_trans c a b less up, k))
    | inr level ↦ absurd (cc (text_less_total a b level h, less, k))
  ]
]
