-- ===== src/Patch/Apply.antt =====
-- `applyHunksExact` (packages/filesystem/src/patch-engine.ts), on the lines of a file and on its
-- text. The patched bytes are the UTF-8 encoding of the text that is returned here.
use cesspace_arc.Base.{
  ℕ, ◌+◌, ◌-◌, Bool, true, false, not, ◌&&◌, ◌||◌, Option, none, some, List, [], ◌∷◌, ◌++◌, Text,
  text_eq, length, get_elem?, take, drop, any, reverse, ltb, ◌==◌, if◌then◌else◌, starts_with,
  Outcome, returned, thrown,
}
use cesspace_arc.Patch.Data.{
  LineType, context, insert, delete, HunkLine, ParsedHunk, PatchError, is_old, is_new, LineEnding,
  crlf, lf, eol_text, out_of_bounds, context_mismatch, deletion_mismatch,
}

-- The index in the old file before which the hunk stands.
unfoldable pub hunk_start : ParsedHunk → ℕ
hunk_start h = if h.old_count == 0 then h.old_start else h.old_start - 1

-- `lineIdx >= lines.length || lines[lineIdx] !== content`
unfoldable pub line_differs : List Text → ℕ → Text → Bool
unfolding text_eq
line_differs lines i content = elim (get_elem? lines i) [
  | none ↦ true
  | some l ↦ not (text_eq l content)
]

unfoldable pub check_lines : List Text → ℕ → List HunkLine → Option PatchError
unfolding line_differs
check_lines lines i [] = none
check_lines lines i (l ∷ ls) =
    let rest = check_lines lines (i + (if is_old l.type then 1 else 0)) ls in
    elim l.type [
      | context ↦ if line_differs lines i l.content then some context_mismatch else rest
      | delete ↦ if line_differs lines i l.content then some deletion_mismatch else rest
      | insert ↦ rest
    ]

unfoldable pub is_out_of_bounds : List Text → ParsedHunk → Bool
unfolding hunk_start
is_out_of_bounds lines h =
    if ltb 0 h.old_count
    then ltb h.old_start 1 || ltb (length lines) (hunk_start h + h.old_count)
    else ltb (length lines) h.old_start

unfoldable pub check_hunks : List Text → List ParsedHunk → Option PatchError
unfolding is_out_of_bounds check_lines hunk_start
check_hunks lines [] = none
check_hunks lines (h ∷ hs) =
    let rest = check_hunks lines hs in
    if is_out_of_bounds lines h
    then some out_of_bounds
    else elim (check_lines lines (hunk_start h) h.lines) [ some e ↦ some e | none ↦ rest ]

-- The lines of a hunk that stand in the old file, and in the new one.
unfoldable pub old_lines : List HunkLine → List Text
old_lines [] = []
old_lines (l ∷ ls) = if is_old l.type then l.content ∷ old_lines ls else old_lines ls

unfoldable pub new_lines : List HunkLine → List Text
new_lines [] = []
new_lines (l ∷ ls) = if is_new l.type then l.content ∷ new_lines ls else new_lines ls

-- `lastLineNoNewline` after the lines of a hunk.
unfoldable pub no_newline_after : Bool → List HunkLine → Bool
no_newline_after flag [] = flag
no_newline_after flag (l ∷ ls) = no_newline_after (if is_new l.type then l.no_newline else flag) ls

-- The new lines, and where the old file is left and the flag for the last line.
pub record Patched : Type 0 where
  pub lines : List Text
  pub cursor : ℕ
  pub no_newline : Bool

-- The lines of the old file from one index to before another.
unfoldable pub between : List Text → (from to : ℕ) → List Text
between lines from to = take (to - from) (drop from lines)

unfoldable pub patch_hunk : List Text → ParsedHunk → Patched → Patched
unfolding between hunk_start new_lines no_newline_after
patch_hunk lines h p = record {
  lines = p.lines ++ (between lines p.cursor (hunk_start h) ++ new_lines h.lines);
  cursor = hunk_start h + h.old_count;
  no_newline = no_newline_after p.no_newline h.lines;
}

unfoldable pub patch_hunks : List Text → List ParsedHunk → Patched → Patched
unfolding patch_hunk
patch_hunks lines [] p = p
patch_hunks lines (h ∷ hs) p = patch_hunks lines hs (patch_hunk lines h p)

abbrev pub unpatched : Patched
unpatched = record { lines = []; cursor = 0; no_newline = false }

-- All new lines, and whether the file ends with a line ending.
unfoldable pub patched_lines :
    List Text → List ParsedHunk → (has_final_newline : Bool) → List Text × Bool
unfolding patch_hunks
patched_lines lines hunks has_final_newline =
    let p = patch_hunks lines hunks unpatched in
    let untouched = ltb p.cursor (length lines) in
    let result = p.lines ++ drop p.cursor lines in
    (
      result,
      if length result == 0
          then false
          else if untouched
          then has_final_newline
          else not p.no_newline,
    )

-- The lines of one type, in a hunk and in all hunks.
unfoldable pub count_lines : (LineType → Bool) → List HunkLine → ℕ
count_lines p [] = 0
count_lines p (l ∷ ls) = (if p l.type then 1 else 0) + count_lines p ls

unfoldable pub count_all : (LineType → Bool) → List ParsedHunk → ℕ
unfolding count_lines
count_all p [] = 0
count_all p (h ∷ hs) = count_lines p h.lines + count_all p hs

abbrev pub is_insertion : LineType → Bool
is_insertion insert = true
is_insertion _ = false

abbrev pub is_deletion : LineType → Bool
is_deletion delete = true
is_deletion _ = false

-- `text.split(eol)`; the accumulated line is in reverse.
split_from : LineEnding → (line : Text) → Text → List Text
split_from e line [] = reverse line ∷ []
split_from lf line (c ∷ s) =
    let next = split_from lf [] s in
    let longer = split_from lf (c ∷ line) s in if c == 10 then reverse line ∷ next else longer
split_from crlf line (c ∷ []) = reverse (c ∷ line) ∷ []
split_from crlf line (c ∷ d ∷ s) =
    let next = split_from crlf [] s in
    let longer = split_from crlf (c ∷ line) (d ∷ s) in
    if c == 13 && d == 10 then reverse line ∷ next else longer

unfoldable pub file_lines : Text → LineEnding → (has_final_newline : Bool) → List Text
unfolding split_from
file_lines [] e has_final_newline = []
file_lines (c ∷ s) e has_final_newline =
    if has_final_newline
    then split_from e [] (take (length (c ∷ s) - length (eol_text e)) (c ∷ s))
    else split_from e [] (c ∷ s)

unfoldable pub join_lines : LineEnding → List Text → Text
join_lines e [] = []
join_lines e (l ∷ []) = l
join_lines e (l ∷ m ∷ ls) = l ++ (eol_text e ++ join_lines e (m ∷ ls))

-- The patched text, and the numbers of inserted and deleted lines.
unfoldable pub apply_hunks_exact :
    Text
    → List ParsedHunk
    → LineEnding
    → (has_final_newline : Bool) → Outcome PatchError (Text × ℕ × ℕ)
unfolding file_lines check_hunks patched_lines join_lines count_all
apply_hunks_exact original hunks e has_final_newline =
    let lines = file_lines original e has_final_newline in
    elim (check_hunks lines hunks) [
      | some error ↦ thrown error
      | none ↦
          let (result, final_newline) = patched_lines lines hunks has_final_newline in
          returned (
            join_lines e result ++ (if final_newline then eol_text e else []),
            count_all is_insertion hunks,
            count_all is_deletion hunks,
          )
    ]

-- `detectTextFileAndNewlines`, of the text that the bytes decode to; none is the refusal of binary
-- content and of mixed line endings.
has_crlf : Text → Bool
has_crlf [] = false
has_crlf (c ∷ []) = false
has_crlf (c ∷ d ∷ s) = c == 13 && d == 10 || has_crlf (d ∷ s)

has_lone_lf : (after_cr : Bool) → Text → Bool
has_lone_lf after_cr [] = false
has_lone_lf after_cr (c ∷ s) = c == 10 && not after_cr || has_lone_lf (c == 13) s

has_lone_cr : Text → Bool
has_lone_cr [] = false
has_lone_cr (c ∷ []) = c == 13
has_lone_cr (c ∷ d ∷ s) = c == 13 && not (d == 10) || has_lone_cr (d ∷ s)

unfoldable pub detect_newlines : Text → Option (LineEnding × Bool)
unfolding has_crlf has_lone_lf has_lone_cr starts_with
detect_newlines s =
    let eol = if has_crlf s then crlf else lf in
    if any (λ c. c == 0) s
    then none
    else if has_crlf s && has_lone_lf false s || has_lone_cr s
    then none
    else some (eol, starts_with (reverse (eol_text eol)) (reverse s))
