-- ===== src/Glob/Patterns.antt =====
-- `matchCompiledPattern` and `matchPathGlob` (packages/policy/src/restricted-glob.ts) against the
-- language of a pattern: the loop over rolling rows from the right, and the path without `**`.
use cesspace_arc.Base.{
  ◌≡◌, refl, sym, ap, ◌∙◌, ◌↔◌, Bool, true, false, List, [], ◌∷◌, Text, text_eq, any, map,
  Bool-cases, inl, inr, arith,
}
use cesspace_arc.Glob.Matcher.{
  double_star, split, match_segment, match_each, last_row, first_of, double_star_row, segment_row,
  rows_back, match_compiled_pattern,
}
use cesspace_arc.Glob.Language.{
  Token, any_run, one, Fits, char_token, segment_token, accepts, accepts→Fits, Fits→accepts,
}
use cesspace_arc.Glob.Rows.{match_segment-eq-accepts}

-- A segment pattern matches exactly the texts that are cut along its characters: an asterisk takes
-- any run of characters, a question mark takes one, and any other character takes itself.
pub match_segment_iff : (p t : Text) → (match_segment p t ≡ true) ↔ Fits (map char_token p) t
match_segment_iff p t = (
  λ h. accepts→Fits (map char_token p) t (sym (match_segment-eq-accepts p t) ∙ h),
  λ f. match_segment-eq-accepts p t ∙ Fits→accepts (map char_token p) t f,
)

-- The row that marks the suffixes that the tokens accept.
unfoldable marks : List (Token Text) → List Text → List Bool
marks ts [] = accepts ts [] ∷ []
marks ts (t ∷ l) = accepts ts (t ∷ l) ∷ marks ts l

first_of-marks : (ts : List (Token Text)) (l : List Text) → first_of (marks ts l) ≡ accepts ts l
unfolding marks
first_of-marks ts [] = refl
first_of-marks ts (t ∷ l) = refl

last_row-eq-marks : (l : List Text) → last_row l ≡ marks [] l
unfolding last_row marks accepts
last_row-eq-marks [] = refl
last_row-eq-marks (t ∷ l) = ap (λ r. false ∷ r) (last_row-eq-marks l)

double_star_row-marks :
    (ts : List (Token Text)) (l : List Text) → double_star_row (marks ts l) ≡ marks (any_run ∷ ts) l
unfolding double_star_row marks accepts
double_star_row-marks ts [] = refl
double_star_row-marks ts (t ∷ []) = refl
double_star_row-marks ts (t ∷ u ∷ l) = rw (double_star_row-marks ts (u ∷ l))

segment_row-marks :
    (p : Text) (ts : List (Token Text)) (l : List Text)
    → segment_row p l (marks ts l) ≡ marks (one (match_segment p) ∷ ts) l
unfolding segment_row marks accepts
segment_row-marks p ts [] = refl
segment_row-marks p ts (t ∷ l) = rw (first_of-marks ts l, segment_row-marks p ts l)

rows_back-eq-marks : (ps l : List Text) → rows_back ps l ≡ marks (map segment_token ps) l
unfolding rows_back segment_token
rows_back-eq-marks [] l = last_row-eq-marks l
rows_back-eq-marks (p ∷ ps) l = elim (Bool-cases (text_eq p double_star)) [
  | inl star ↦ rw (star, rows_back-eq-marks ps l) (double_star_row-marks (map segment_token ps) l)
  | inr plain ↦ rw (plain, rows_back-eq-marks ps l) (segment_row-marks p (map segment_token ps) l)
]

-- With no `**` the one-to-one comparison computes the same language.
match_each-eq-accepts :
    (ps l : List Text)
    → any (λ p. text_eq p double_star) ps ≡ false
    → match_each ps l ≡ accepts (map segment_token ps) l
unfolding match_each segment_token accepts
match_each-eq-accepts [] [] h = refl
match_each-eq-accepts [] (t ∷ l) h = refl
match_each-eq-accepts (p ∷ ps) [] h = ground arith
match_each-eq-accepts (p ∷ ps) (t ∷ l) h = ground (arith, match_each-eq-accepts ps l (ground arith))

compiled-eq-accepts :
    (ps : List Text) (target : Text)
    → match_compiled_pattern ps target ≡ accepts (map segment_token ps) (split target)
unfolding match_compiled_pattern
compiled-eq-accepts ps target = elim (Bool-cases (any (λ p. text_eq p double_star) ps)) [
  | inl deep ↦
      rw (deep, rows_back-eq-marks ps (split target))
        (first_of-marks (map segment_token ps) (split target))
  | inr flat ↦ rw flat (match_each-eq-accepts ps (split target) flat)
]

-- A compiled pattern matches exactly the targets whose segments are cut along its segments: a `**`
-- takes any run of whole segments, and any other segment takes one that it matches. Both ways of
-- matching, with `**` in the pattern and without, give this.
pub match_compiled_iff :
    (ps : List Text) (target : Text)
    → (match_compiled_pattern ps target ≡ true) ↔ Fits (map segment_token ps) (split target)
match_compiled_iff ps target = (
  λ h. accepts→Fits (map segment_token ps) (split target) (sym (compiled-eq-accepts ps target) ∙ h),
  λ f. compiled-eq-accepts ps target ∙ Fits→accepts (map segment_token ps) (split target) f,
)
