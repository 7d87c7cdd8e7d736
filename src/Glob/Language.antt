-- ===== src/Glob/Language.antt =====
-- What a pattern means, apart from how packages/policy/src/restricted-glob.ts computes it: a
-- pattern is a list of tokens, each of which stands for any run of elements or for one element.
-- The elements are the characters of a segment or the segments of a path.
use cesspace_arc.Base.{
  ℕ, ◌≡◌, refl, Bool, true, false, ◌&&◌, ◌||◌, List, [], ◌∷◌, ◌++◌, Text, text_eq, ◌==◌,
  if◌then◌else◌, Bool-cases, and→both, inl, inr, arith, ap,
}
use cesspace_arc.Glob.Matcher.{asterisk, question_mark, double_star, match_segment}

pub data Token (A : Type 0) : Type 0 where
  any_run : Token A
  one : (A → Bool) → Token A

-- A list is cut along the tokens.
unfoldable pub Fits : {A : Type 0} → List (Token A) → List A → Type 0
Fits [] l = l ≡ []
Fits {A} (any_run ∷ ts) l = (u : List A) × (v : List A) × (l ≡ u ++ v) × Fits ts v
Fits {A} (one ok ∷ ts) l = (x : A) × (v : List A) × (l ≡ x ∷ v) × (ok x ≡ true) × Fits ts v

-- A character of a pattern segment.
unfoldable pub char_token : ℕ → Token ℕ
char_token c =
    if c == asterisk
    then any_run
    else if c == question_mark
    then one (λ x. true)
    else one (λ x. x == c)

-- A segment of a pattern.
unfoldable pub segment_token : Text → Token Text
segment_token p = if text_eq p double_star then any_run else one (match_segment p)

module _ {A : Type 0} where
  -- Whether a suffix passes a test.
  abbrev pub some_suffix : (List A → Bool) → List A → Bool
  some_suffix f [] = f []
  some_suffix f (x ∷ l) = f (x ∷ l) || some_suffix f l

  abbrev pub is_nil : List A → Bool
  is_nil [] = true
  is_nil (_ ∷ _) = false

  abbrev pub takes_one : (A → Bool) → (List A → Bool) → List A → Bool
  takes_one ok f [] = false
  takes_one ok f (x ∷ l) = ok x && f l

  -- The same as a test.
  unfoldable pub accepts : List (Token A) → List A → Bool
  accepts [] l = is_nil l
  accepts (any_run ∷ ts) l = some_suffix (accepts ts) l
  accepts (one ok ∷ ts) l = takes_one ok (accepts ts) l

  suffix_found :
      (f : List A → Bool) (l : List A)
      → some_suffix f l ≡ true
      → (u : List A) × (v : List A) × (l ≡ u ++ v) × (f v ≡ true)
  suffix_found f [] h = ([], [], refl, h)
  suffix_found f (x ∷ l) h = elim (Bool-cases (f (x ∷ l))) [
    | inl here ↦ ([], x ∷ l, refl, here)
    | inr later ↦
        let (u, v, e, g) = suffix_found f l (ground arith) in (x ∷ u, v, ap (λ m. x ∷ m) e, g)
  ]

  suffix_of : (f : List A → Bool) (u v : List A) → f v ≡ true → some_suffix f (u ++ v) ≡ true
  suffix_of f [] [] h = h
  suffix_of f [] (x ∷ v) h = ground arith
  suffix_of f (x ∷ u) v h = ground (arith, suffix_of f u v h)

  pub accepts→Fits : (ts : List (Token A)) (l : List A) → accepts ts l ≡ true → Fits ts l
  unfolding accepts Fits
  accepts→Fits [] [] h = refl
  accepts→Fits [] (x ∷ l) h = absurd (cc)
  accepts→Fits (any_run ∷ ts) l h =
      let (u, v, e, g) = suffix_found (accepts ts) l h in (u, v, e, accepts→Fits ts v g)
  accepts→Fits (one ok ∷ ts) [] h = absurd (cc)
  accepts→Fits (one ok ∷ ts) (x ∷ l) h =
      let (p, q) = and→both (ok x) (accepts ts l) h in (x, l, refl, p, accepts→Fits ts l q)

  pub Fits→accepts : (ts : List (Token A)) (l : List A) → Fits ts l → accepts ts l ≡ true
  unfolding accepts Fits
  Fits→accepts [] l h = rw h
  Fits→accepts (any_run ∷ ts) l (u, v, e, g) =
      rw e (suffix_of (accepts ts) u v (Fits→accepts ts v g))
  Fits→accepts (one ok ∷ ts) l (x, v, e, p, g) = rw (e, p, Fits→accepts ts v g)
