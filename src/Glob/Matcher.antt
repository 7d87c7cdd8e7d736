-- ===== src/Glob/Matcher.antt =====
-- The functions of packages/policy/src/restricted-glob.ts. A row of booleans is a list, which a
-- loop over an array writes from one end to the other.
use cesspace_arc.Base.{
  ℕ, Bool, true, false, not, ◌&&◌, ◌||◌, Option, none, some, List, [], ◌∷◌, Text, text, text_eq,
  length, any, replicate, ltb, ◌==◌, if◌then◌else◌,
}

abbrev pub max_pattern_length : ℕ
max_pattern_length = 1024

abbrev pub max_target_path_length : ℕ
max_target_path_length = 4096

pub data InvalidReason : Type 0 where
  empty_pattern pattern_too_long nul_byte backslash_forbidden leading_slash : InvalidReason
  empty_segment traversal_segment dot_segment embedded_double_star unsupported_syntax :
      InvalidReason

abbrev pub slash : ℕ
slash = 47

abbrev pub backslash : ℕ
backslash = 92

abbrev pub asterisk : ℕ
asterisk = 42

abbrev pub question_mark : ℕ
question_mark = 63

abbrev pub dot_text : Text
dot_text = 46 ∷ []

abbrev pub dot_dot : Text
dot_dot = 46 ∷ 46 ∷ []

abbrev pub double_star : Text
double_star = 42 ∷ 42 ∷ []

-- The character is in `UNSUPPORTED_SYNTAX_CHARS`, which are [ ] { } ( ).
unfoldable pub is_unsupported : ℕ → Bool
is_unsupported c = c == 91 || c == 93 || c == 123 || c == 125 || c == 40 || c == 41

-- `text.includes(c)` for one character.
unfoldable pub contains : ℕ → Text → Bool
contains c t = any (λ x. x == c) t

unfoldable pub starts_with : ℕ → Text → Bool
starts_with c [] = false
starts_with c (x ∷ t) = x == c

-- `segment.includes('**')`
unfoldable pub contains_double_star : Text → Bool
contains_double_star [] = false
contains_double_star (x ∷ []) = false
contains_double_star (x ∷ y ∷ t) = (x == asterisk && y == asterisk) || contains_double_star (y ∷ t)

-- A character put in front of the first piece.
abbrev pub push_front : ℕ → List Text → List Text
push_front c [] = (c ∷ []) ∷ []
push_front c (s ∷ ss) = (c ∷ s) ∷ ss

-- `t.split('/')`, never empty.
unfoldable pub split : Text → List Text
split [] = [] ∷ []
split (c ∷ t) = if c == slash then [] ∷ split t else push_front c (split t)

-- The first reason of the loop over the segments.
unfoldable pub segment_reason : Text → Option InvalidReason
segment_reason s =
    if length s == 0
    then some empty_segment
    else if text_eq s dot_dot
    then some traversal_segment
    else if text_eq s dot_text
    then some dot_segment
    else if not (text_eq s double_star) && contains_double_star s
    then some embedded_double_star
    else if any is_unsupported s
    then some unsupported_syntax
    else none

unfoldable pub segments_reason : List Text → Option InvalidReason
segments_reason [] = none
segments_reason (s ∷ ss) = elim (segment_reason s) [
  | none ↦ segments_reason ss
  | some reason ↦ some reason
]

-- `none` is the code's null: the pattern is valid.
unfoldable pub validate_path_pattern : Text → Option InvalidReason
validate_path_pattern pattern =
    if length pattern == 0
    then some empty_pattern
    else if ltb max_pattern_length (length pattern)
    then some pattern_too_long
    else if contains 0 pattern
    then some nul_byte
    else if contains backslash pattern
    then some backslash_forbidden
    else if starts_with slash pattern
    then some leading_slash
    else segments_reason (split pattern)

-- The test of the loop over the segments of a target.
unfoldable pub unsafe_segment : Text → Bool
unsafe_segment s = length s == 0 || text_eq s dot_text || text_eq s dot_dot

unfoldable pub normalize_target_path : Text → Option Text
normalize_target_path target =
    if length target == 0 || ltb max_target_path_length (length target)
    then none
    else if contains 0 target
    then none
    else if contains backslash target
    then none
    else if starts_with slash target
    then none
    else if any unsafe_segment (split target)
    then none
    else some target

-- `none` is the thrown error.
unfoldable pub compile_path_pattern : Text → Option (List Text)
compile_path_pattern pattern = elim (validate_path_pattern pattern) [
  | none ↦ some (split pattern)
  | some reason ↦ none
]

-- `current[0] = previous[0]`, `current[j] = previous[j] || current[j - 1]`.
unfoldable pub star_row : Bool → List Bool → List Bool
star_row carried [] = []
star_row carried (p ∷ previous) = let here = p || carried in here ∷ star_row here previous

-- `current[j] = previous[j - 1] && ok(text[j - 1])` from `j = 1` on.
unfoldable pub shifted_row : (ℕ → Bool) → Text → List Bool → List Bool
shifted_row ok (c ∷ text) (p ∷ previous) = (p && ok c) ∷ shifted_row ok text previous
shifted_row ok _ _ = []

-- The row of one more pattern character.
unfoldable pub next_row : ℕ → Text → List Bool → List Bool
next_row c text previous =
    if c == asterisk
    then star_row false previous
    else if c == question_mark
    then false ∷ shifted_row (λ x. true) text previous
    else false ∷ shifted_row (λ x. x == c) text previous

unfoldable pub rows_from : Text → Text → List Bool → List Bool
rows_from [] text previous = previous
rows_from (c ∷ pattern) text previous = rows_from pattern text (next_row c text previous)

-- `previous[textLength]`
abbrev pub last_of : List Bool → Bool
last_of [] = false
last_of (b ∷ []) = b
last_of (b ∷ c ∷ bs) = last_of (c ∷ bs)

unfoldable pub match_segment : Text → Text → Bool
match_segment pattern text = last_of (rows_from pattern text (true ∷ replicate (length text) false))

-- The loop of the path without `**`, and its test of the counts.
unfoldable pub match_each : List Text → List Text → Bool
match_each [] [] = true
match_each (p ∷ ps) (t ∷ ts) = match_segment p t && match_each ps ts
match_each _ _ = false

-- `next[targetCount] = true` in a row of false.
unfoldable pub last_row : List Text → List Bool
last_row [] = true ∷ []
last_row (t ∷ ts) = false ∷ last_row ts

abbrev pub first_of : List Bool → Bool
first_of [] = false
first_of (b ∷ bs) = b

-- `current[targetCount] = next[targetCount]`, `current[j] = next[j] || current[j + 1]`.
unfoldable pub double_star_row : List Bool → List Bool
double_star_row [] = []
double_star_row (b ∷ []) = b ∷ []
double_star_row (b ∷ c ∷ next) =
    let rest = double_star_row (c ∷ next) in (b || first_of rest) ∷ rest

-- `current[targetCount] = false`, `current[j] = matchSegment(…) && next[j + 1]`.
unfoldable pub segment_row : Text → List Text → List Bool → List Bool
segment_row p [] next = false ∷ []
segment_row p (t ∷ ts) [] = []
segment_row p (t ∷ ts) (b ∷ next) = (match_segment p t && first_of next) ∷ segment_row p ts next

-- The rows from the last pattern segment to the first.
unfoldable pub rows_back : List Text → List Text → List Bool
rows_back [] targets = last_row targets
rows_back (p ∷ ps) targets =
    let next = rows_back ps targets in
    if text_eq p double_star then double_star_row next else segment_row p targets next

unfoldable pub match_compiled_pattern : List Text → Text → Bool
match_compiled_pattern patterns target =
    let targets = split target in
    if any (λ p. text_eq p double_star) patterns
    then first_of (rows_back patterns targets)
    else match_each patterns targets

unfoldable pub match_path_glob : Text → Text → Bool
match_path_glob pattern target = elim (compile_path_pattern pattern) [
  | none ↦ false
  | some segments ↦ (elim (normalize_target_path target) [
    | none ↦ false
    | some normalized ↦ match_compiled_pattern segments normalized
  ])
]
