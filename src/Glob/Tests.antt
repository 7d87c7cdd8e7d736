-- ===== src/Glob/Tests.antt =====
-- Runs of the path matcher (packages/policy/src/restricted-glob.ts) and its theorems at concrete
-- patterns and paths.
use cesspace_arc.Base.{
  ◌≡◌, ◌↔◌, refl, true, false, none, some, List, [], ◌∷◌, Text, text, text_eq, any, map,
}
use cesspace_arc.Glob.Matcher.{
  double_star, is_unsupported, contains, starts_with, contains_double_star, split, segment_reason,
  segments_reason, validate_path_pattern, embedded_double_star, unsafe_segment,
  normalize_target_path, compile_path_pattern, star_row, shifted_row, next_row, rows_from,
  match_segment, match_each, last_row, double_star_row, segment_row, rows_back,
  match_compiled_pattern, match_path_glob,
}
use cesspace_arc.Glob.Language.{Fits, char_token, segment_token}
use cesspace_arc.Glob.Patterns.{match_segment_iff, match_compiled_iff}
use cesspace_arc.Glob.Paths.{IsSafePath, match_path_glob_iff}

unfoldable pub matcher : Unit {0}
unfolding text_eq is_unsupported contains starts_with contains_double_star split segment_reason
    segments_reason validate_path_pattern unsafe_segment normalize_target_path compile_path_pattern
    star_row shifted_row next_row rows_from match_segment match_each last_row double_star_row
    segment_row rows_back match_compiled_pattern match_path_glob
matcher = tt

abbrev sources : List Text
sources = text "src" ∷ text "*.ts" ∷ []

abbrev file : Text
file = text "src/a.ts"

deep_match : match_path_glob (text "src/**/*.ts") (text "src/a/b/c.ts") ≡ true
unfolding matcher
deep_match = refl

shallow_no_match : match_path_glob (text "src/*.ts") (text "src/a/c.ts") ≡ false
unfolding matcher
shallow_no_match = refl

climbing_refused : match_path_glob (text "**") (text "src/../c.ts") ≡ false
unfolding matcher
climbing_refused = refl

embedded_refused : validate_path_pattern (text "src/a**b") ≡ some embedded_double_star
unfolding matcher
embedded_refused = refl

no_double_star : any (λ p. text_eq p double_star) sources ≡ false
unfolding matcher
no_double_star = refl

file_matches : match_compiled_pattern sources file ≡ true
unfolding matcher
file_matches = refl

match_segment_iff_example :
    (match_segment (text "*.t?") (text "a.ts") ≡ true)
    ↔ Fits (map char_token (text "*.t?")) (text "a.ts")
match_segment_iff_example = match_segment_iff (text "*.t?") (text "a.ts")

match_compiled_iff_example :
    (match_compiled_pattern sources file ≡ true) ↔ Fits (map segment_token sources) (split file)
match_compiled_iff_example = match_compiled_iff sources file

match_path_glob_iff_example : (match_path_glob (text "src/*.ts") file ≡ true) ↔ (
    (validate_path_pattern (text "src/*.ts") ≡ none)
    × IsSafePath file
    × Fits (map segment_token (split (text "src/*.ts"))) (split file))
match_path_glob_iff_example = match_path_glob_iff (text "src/*.ts") file
