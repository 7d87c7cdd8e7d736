-- ===== src/Glob/Rows.antt =====
-- The rolling rows of `matchSegment` (packages/policy/src/restricted-glob.ts) against the language
-- of a pattern. A row marks the suffixes of the text that are left after a part of the pattern.
use cesspace_arc.Base.{
  ℕ, zero, suc, ◌≡◌, refl, sym, ◌∙◌, Bool, true, false, ◌&&◌, ◌||◌, List, [], ◌∷◌, Text, length,
  map, replicate, ◌==◌, Bool-cases, inl, inr, arith,
}
use cesspace_arc.Glob.Matcher.{
  asterisk, question_mark, star_row, shifted_row, next_row, rows_from, last_of, match_segment,
}
use cesspace_arc.Glob.Language.{Token, any_run, one, char_token, some_suffix, accepts}

-- Whether the tokens accept one of the marked suffixes.
unfoldable pub reaches : List Bool → List (Token ℕ) → Text → Bool
reaches [] ts t = false
reaches (b ∷ bs) ts [] = b && accepts ts []
reaches (b ∷ bs) ts (c ∷ t) = (b && accepts ts (c ∷ t)) || reaches bs ts t

reaches-star :
    (carried : Bool) (row : List Bool) (ts : List (Token ℕ)) (t : Text)
    → length row ≡ suc (length t)
    → ((carried && some_suffix (accepts ts) t) || reaches row (any_run ∷ ts) t)
      ≡ reaches (star_row carried row) ts t
unfolding star_row reaches accepts
reaches-star k [] ts t h = absurd (omega arith)
reaches-star k (b ∷ bs) ts [] h = ground arith
reaches-star k (b ∷ bs) ts (c ∷ t) h = ground (arith, reaches-star (b || k) bs ts t (omega arith))

reaches_head :
    (b : Bool) (row : List Bool) (ts : List (Token ℕ)) (t : Text)
    → reaches (b ∷ row) ts t ≡ ((b && accepts ts t) || reaches (false ∷ row) ts t)
unfolding reaches
reaches_head b row ts [] = ground arith
reaches_head b row ts (c ∷ t) = ground arith

reaches-shifted :
    (ok : ℕ → Bool) (row : List Bool) (ts : List (Token ℕ)) (t : Text)
    → length row ≡ suc (length t)
    → reaches row (one ok ∷ ts) t ≡ reaches (false ∷ shifted_row ok t row) ts t
unfolding shifted_row reaches accepts
reaches-shifted ok [] ts t h = absurd (omega arith)
reaches-shifted ok (b ∷ bs) ts [] h = ground arith
reaches-shifted ok (b ∷ bs) ts (c ∷ t) h = ground (
  arith,
  reaches-shifted ok bs ts t (omega arith),
  reaches_head (b && ok c) (shifted_row ok t bs) ts t,
)

length-star_row : (carried : Bool) (row : List Bool) → length (star_row carried row) ≡ length row
unfolding star_row
length-star_row k [] = refl
length-star_row k (b ∷ bs) = ground (arith, length-star_row (b || k) bs)

length-shifted_row :
    (ok : ℕ → Bool) (t : Text) (row : List Bool)
    → length row ≡ suc (length t)
    → length (shifted_row ok t row) ≡ length t
unfolding shifted_row
length-shifted_row ok [] row h = ground arith
length-shifted_row ok (c ∷ t) [] h = absurd (omega arith)
length-shifted_row ok (c ∷ t) (b ∷ bs) h = ground (arith, length-shifted_row ok t bs (omega arith))

length-next_row :
    (c : ℕ) (t : Text) (row : List Bool)
    → length row ≡ suc (length t)
    → length (next_row c t row) ≡ suc (length t)
unfolding next_row
length-next_row c t row h = ground (
  arith,
  length-star_row false row,
  length-shifted_row (λ x. true) t row h,
  length-shifted_row (λ x. x == c) t row h,
)

-- A row step takes one token off the pattern.
reaches-next_row :
    (c : ℕ) (row : List Bool) (ts : List (Token ℕ)) (t : Text)
    → length row ≡ suc (length t)
    → reaches row (char_token c ∷ ts) t ≡ reaches (next_row c t row) ts t
unfolding char_token next_row
reaches-next_row c row ts t h = elim (Bool-cases (c == asterisk)) [
  | inl star ↦ rw star (reaches-star false row ts t h)
  | inr other ↦ elim (Bool-cases (c == question_mark)) [
    | inl any ↦ rw (other, any) (reaches-shifted (λ x. true) row ts t h)
    | inr literal ↦ rw (other, literal) (reaches-shifted (λ x. x == c) row ts t h)
  ]
]

reaches_end :
    (row : List Bool) (t : Text) → length row ≡ suc (length t) → reaches row [] t ≡ last_of row
unfolding reaches accepts
reaches_end [] t h = absurd (omega arith)
reaches_end (b ∷ []) [] h = ground arith
reaches_end (b ∷ c ∷ bs) [] h = absurd (omega arith)
reaches_end (b ∷ []) (x ∷ t) h = absurd (omega arith)
reaches_end (b ∷ c ∷ bs) (x ∷ t) h = ground (arith, reaches_end (c ∷ bs) t (omega arith))

reaches_none : (n : ℕ) (ts : List (Token ℕ)) (t : Text) → reaches (replicate n false) ts t ≡ false
unfolding reaches
reaches_none zero ts t = refl
reaches_none (suc n) ts [] = ground arith
reaches_none (suc n) ts (c ∷ t) = ground (arith, reaches_none n ts t)

reaches_start :
    (ts : List (Token ℕ)) (t : Text)
    → reaches (true ∷ replicate (length t) false) ts t ≡ accepts ts t
unfolding reaches
reaches_start ts [] = ground arith
reaches_start ts (c ∷ t) = ground (arith, reaches_none (suc (length t)) ts t)

rows_from-eq-reaches :
    (p : Text) (t : Text) (row : List Bool)
    → length row ≡ suc (length t)
    → last_of (rows_from p t row) ≡ reaches row (map char_token p) t
unfolding rows_from
rows_from-eq-reaches [] t row h = sym (reaches_end row t h)
rows_from-eq-reaches (c ∷ p) t row h =
    rows_from-eq-reaches p t (next_row c t row) (length-next_row c t row h)
    ∙ sym (reaches-next_row c row (map char_token p) t h)

length-replicate : (n : ℕ) → length (replicate n false) ≡ n
length-replicate zero = refl
length-replicate (suc n) = omega (arith, length-replicate n)

-- The rows compute the language of the pattern.
pub match_segment-eq-accepts : (p t : Text) → match_segment p t ≡ accepts (map char_token p) t
unfolding match_segment
match_segment-eq-accepts p t =
    rows_from-eq-reaches p t (true ∷ replicate (length t) false)
      (omega (arith, length-replicate (length t)))
    ∙ reaches_start (map char_token p) t
