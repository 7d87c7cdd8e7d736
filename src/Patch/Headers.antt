-- ===== src/Patch/Headers.antt =====
-- The lines of a patch as `parseUnifiedPatch` reads them (packages/filesystem/src/patch-engine.ts):
-- the split into lines, the directives that are refused, paths and hunk headers. `normalize` is that
-- of node:path.
use cesspace_arc.Base.{
  ℕ, ◌+◌, ◌-◌, ◌*◌, Bool, not, ◌&&◌, ◌||◌, Option, none, some, List, [], ◌∷◌, map, reverse, Text,
  text, length, take, drop, any, leb, ◌==◌, if◌then◌else◌, ◌>>=◌, starts_with, lower_ascii, trim,
}

-- A line that a line feed ends, without a carriage return before that.
strip_cr : Text → Text
strip_cr [] = []
strip_cr (c ∷ []) = if c == 13 then [] else c ∷ []
strip_cr (c ∷ d ∷ s) = c ∷ strip_cr (d ∷ s)

-- `split(/\r?\n/)`; the accumulated line is in reverse.
split_from : (line : Text) → Text → List Text
unfolding strip_cr
split_from line [] = reverse line ∷ []
split_from line (c ∷ s) =
    let next = split_from [] s in
    let longer = split_from (c ∷ line) s in
    if c == 10 then strip_cr (reverse line) ∷ next else longer

unfoldable pub split_lines : Text → List Text
unfolding split_from
split_lines s = split_from [] s

-- `s.replace(/\\/g, '/')`
unfoldable pub forward_slashes : Text → Text
forward_slashes s = map (λ c. if c == 92 then 47 else c) s

before_tab : Text → Text
before_tab [] = []
before_tab (c ∷ s) = if c == 9 then [] else c ∷ before_tab s

-- Quotes round the whole; a single quote sign is cut to nothing.
unquote : Text → Text
unfolding starts_with
unquote s =
    if starts_with (34 ∷ []) s && starts_with (34 ∷ []) (reverse s)
    then take (length s - 2) (drop 1 s)
    else s

strip_side : Text → Text
unfolding starts_with
strip_side s =
    if starts_with (text "a/") s
      || starts_with (text "b/") s
      || starts_with (text "a\\") s
      || starts_with (text "b\\") s
    then drop 2 s
    else s

unfoldable pub extract_logical_path : (normalize : Text → Text) → Text → Text
unfolding before_tab unquote strip_side forward_slashes trim
extract_logical_path normalize header =
    forward_slashes (normalize (strip_side (unquote (trim (before_tab header)))))

is_line_terminator : ℕ → Bool
is_line_terminator c = c == 10 || c == 13 || c == 8232 || c == 8233

-- `.* differ`: at some place before which there is no line terminator.
contains : (part s : Text) → Bool
unfolding starts_with is_line_terminator
contains part [] = starts_with part []
contains part (c ∷ s) = starts_with part (c ∷ s) || not (is_line_terminator c) && contains part s

-- `/^Binary files? .* differ/` of a line in lower case.
is_binary_notice : Text → Bool
unfolding starts_with contains
is_binary_notice s =
    starts_with (text "binary file ") s && contains (text " differ") (drop 12 s)
    || starts_with (text "binary files ") s && contains (text " differ") (drop 13 s)

abbrev forbidden_prefixes : List Text
forbidden_prefixes =
    text "old mode "
    ∷ text "new mode "
    ∷ text "new file mode "
    ∷ text "deleted file mode "
    ∷ text "rename from "
    ∷ text "rename to "
    ∷ text "copy from "
    ∷ text "copy to "
    ∷ text "similarity index "
    ∷ text "git binary patch"
    ∷ []

unfoldable pub is_forbidden : Text → Bool
unfolding starts_with is_binary_notice lower_ascii
is_forbidden line =
    let s = map lower_ascii line in
    any (λ p. starts_with p s) forbidden_prefixes || is_binary_notice s

is_digit : ℕ → Bool
is_digit c = leb 48 c && leb c 57

-- The digits at the front, as a number, and what follows; none if there is no digit.
read_digits : (value : ℕ) → Text → ℕ × Text
unfolding is_digit
read_digits value [] = (value, [])
read_digits value (c ∷ s) =
    let more = read_digits (value * 10 + (c - 48)) s in if is_digit c then more else (value, c ∷ s)

read_number : Text → Option (ℕ × Text)
unfolding is_digit read_digits
read_number [] = none
read_number (c ∷ s) = if is_digit c then some (read_digits 0 (c ∷ s)) else none

-- `(?:,(\d+))?`, with 1 for an absent count.
read_count : Text → Option (ℕ × Text)
unfolding read_number
read_count [] = some (1, [])
read_count (c ∷ s) = if c == 44 then read_number s else some (1, c ∷ s)

expect : (prefix s : Text) → Option Text
unfolding starts_with
expect prefix s = if starts_with prefix s then some (drop (length prefix) s) else none

pub record HunkHeader : Type 0 where
  pub old_start : ℕ
  pub old_count : ℕ
  pub new_start : ℕ
  pub new_count : ℕ

-- `/^@@ -(\d+)(?:,(\d+))? \+(\d+)(?:,(\d+))? @@/`
unfoldable pub read_hunk_header : Text → Option HunkHeader
unfolding expect read_number read_count
read_hunk_header line = do
  a ← expect (text "@@ -") line
  b ← read_number a
  c ← read_count b.1
  d ← expect (text " +") c.1
  e ← read_number d
  f ← read_count e.1
  _ ← expect (text " @@") f.1
  some (record { old_start = b.0; old_count = c.0; new_start = e.0; new_count = f.0 })
