-- ===== src/Patch/Parser.antt =====
-- `parseUnifiedPatch` (packages/filesystem/src/patch-engine.ts): its variables as a state, one step
-- for a line, and the end. `cumulativeDelta` is the difference of `added` and `removed`.
use cesspace_arc.Base.{
  ℕ, ◌+◌, ◌-◌, Bool, true, false, not, ◌&&◌, Option, none, some, List, [], ◌∷◌, ◌++◌, Text, text,
  text_eq, any, leb, ltb, ◌==◌, if◌then◌else◌, or_else, starts_with, Outcome, returned, thrown,
  first_error, unless,
}
use cesspace_arc.Patch.Data.{
  context, insert, delete, HunkLine, ParsedHunk, ParsedFilePatch, PatchError, is_old, is_new,
  rename_unsupported, duplicate_file, no_hunks, hunks_overlap, line_counts_mismatch,
  hunk_without_headers, bad_coordinates, inconsistent_coordinates,
}
use cesspace_arc.Patch.Headers.{HunkHeader}

pub record ParseState : Type 0 where
  pub files : List ParsedFilePatch
  pub old_path : Option Text
  pub new_path : Option Text
  pub hunks : List ParsedHunk
  pub current : Option ParsedHunk
  pub seen_old : ℕ
  pub seen_new : ℕ
  pub added : ℕ
  pub removed : ℕ

abbrev pub initial_state : ParseState
initial_state = record {
  files = [];
  old_path = none;
  new_path = none;
  hunks = [];
  current = none;
  seen_old = 0;
  seen_new = 0;
  added = 0;
  removed = 0;
}

abbrev pub Parse : Type 0
Parse = Outcome PatchError ParseState

-- A path is used as a condition, so the empty one counts as absent.
abbrev pub truthy : Option Text → Bool
truthy none = false
truthy (some []) = false
truthy (some (_ ∷ _)) = true

abbrev pub mark_last : List HunkLine → List HunkLine
mark_last [] = []
mark_last (l ∷ []) = record l { no_newline = true } ∷ []
mark_last (l ∷ m ∷ ls) = l ∷ mark_last (m ∷ ls)

abbrev pub mark_hunk : ParsedHunk → ParsedHunk
mark_hunk h = record h { lines = mark_last h.lines }

abbrev pub mark_last_hunk : List ParsedHunk → List ParsedHunk
mark_last_hunk [] = []
mark_last_hunk (h ∷ []) = mark_hunk h ∷ []
mark_last_hunk (h ∷ i ∷ hs) = h ∷ mark_last_hunk (i ∷ hs)

abbrev pub is_no_newline_marker : Text → Bool
is_no_newline_marker line = starts_with (text "\\ No newline at end of file") line

unfoldable pub read_hunk_line : Text → Option HunkLine
read_hunk_line [] = none
read_hunk_line (c ∷ content) =
    if c == 32
    then some (record { type = context; content = content; no_newline = false })
    else if c == 43
    then some (record { type = insert; content = content; no_newline = false })
    else if c == 45
    then some (record { type = delete; content = content; no_newline = false })
    else none

-- A hunk whose lines are complete.
unfoldable pub close_hunk : ParsedHunk → ParseState → ParseState
close_hunk h s = record s {
  hunks = s.hunks ++ h ∷ [];
  current = none;
  added = s.added + h.new_count;
  removed = s.removed + h.old_count;
}

unfoldable pub push_line : HunkLine → ParsedHunk → ParseState → ParseState
unfolding close_hunk
push_line l h s =
    let h' = record h { lines = h.lines ++ l ∷ [] } in
    let seen_old = s.seen_old + (if is_old l.type then 1 else 0) in
    let seen_new = s.seen_new + (if is_new l.type then 1 else 0) in
    let s' = record s { current = some h'; seen_old = seen_old; seen_new = seen_new } in
    if seen_old == h.old_count && seen_new == h.new_count then close_hunk h' s' else s'

unfoldable pub hunk_step : Text → ParsedHunk → ParseState → Parse
unfolding starts_with read_hunk_line push_line
hunk_step line h s =
    if is_no_newline_marker line
    then returned (record s { current = some (mark_hunk h) })
    else elim (read_hunk_line line) [
      | none ↦ thrown line_counts_mismatch
      | some l ↦ returned (push_line l h s)
    ]

unfoldable pub hunk_end : ParsedHunk → ℕ
hunk_end h = if h.old_count == 0 then h.old_start else h.old_start + h.old_count - 1

unfoldable pub in_order : List ParsedHunk → Bool
unfolding hunk_end
in_order [] = true
in_order (h ∷ []) = true
in_order (h ∷ i ∷ hs) = ltb (hunk_end h) i.old_start && in_order (i ∷ hs)

abbrev pub is_empty {ℓ} : {A : Type ℓ} → List A → Bool
is_empty [] = true
is_empty (_ ∷ _) = false

-- The checks of a complete file section.
unfoldable pub file_error : (old_target new_target : Text) → ParseState → Option PatchError
unfolding text_eq in_order
file_error old_target new_target s =
    first_error (unless (text_eq old_target new_target) rename_unsupported) (
      first_error
        (unless (not (any (λ f. text_eq f.target_path old_target) s.files)) duplicate_file)
        (first_error (unless (not (is_empty s.hunks)) no_hunks)
          (unless (in_order s.hunks) hunks_overlap)))

-- The state with the file section added to the files.
unfoldable pub add_file : (target : Text) → ParseState → ParseState
add_file target s = record s {
  files =
      s.files
      ++ record {
        old_header_path = or_else s.old_path [];
        new_header_path = or_else s.new_path [];
        target_path = target;
        hunks = s.hunks;
      }
        ∷ [];
  old_path = none;
  new_path = none;
  hunks = [];
  added = 0;
  removed = 0;
}

-- `newStart !== expectedNewStart`, with the differences written as sums.
unfoldable pub is_consistent : HunkHeader → (added removed : ℕ) → Bool
is_consistent h added removed =
    if ltb 0 h.old_count && ltb 0 h.new_count
    then h.new_start + removed == h.old_start + added
    else if h.old_count == 0
    then if h.old_start == 0
      then if h.new_count == 0 then h.new_start == 0 else h.new_start + removed == 1 + added
      else h.new_start + removed == h.old_start + added + 1
    else if ltb removed (h.old_start + added)
    then h.new_start + 1 + removed == h.old_start + added
    else h.new_start == 0

abbrev is_safe : ℕ → Bool
is_safe n = leb n 9007199254740991

unfoldable pub header_error : HunkHeader → ParseState → Option PatchError
unfolding is_consistent
header_error h s =
    first_error (unless (truthy s.old_path && truthy s.new_path) hunk_without_headers) (
      first_error
        (unless
          (is_safe h.old_start && is_safe h.old_count && is_safe h.new_start && is_safe h.new_count)
          bad_coordinates)
        (unless (is_consistent h s.added s.removed) inconsistent_coordinates))

unfoldable pub open_hunk : HunkHeader → ParseState → ParseState
unfolding close_hunk
open_hunk h s =
    let hunk : ParsedHunk = record {
      old_start = h.old_start;
      old_count = h.old_count;
      new_start = h.new_start;
      new_count = h.new_count;
      lines = [];
    } in
    let s' = record s { current = some hunk; seen_old = 0; seen_new = 0 } in
    if h.old_count == 0 && h.new_count == 0 then close_hunk hunk s' else s'

unfoldable pub hunk_header_step : HunkHeader → ParseState → Parse
unfolding header_error open_hunk
hunk_header_step h s = elim (header_error h s) [
  | some e ↦ thrown e
  | none ↦ returned (open_hunk h s)
]
