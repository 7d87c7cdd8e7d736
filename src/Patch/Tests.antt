-- ===== src/Patch/Tests.antt =====
-- A patch that is parsed and applied (packages/filesystem/src/patch-engine.ts), and the theorems at it.
use cesspace_arc.Base.{
  ◌+◌, ◌≤◌, ◌≡◌, ◌↔◌, refl, Bool, true, false, none, List, [], ◌∷◌, ◌++◌, map, Text, text, text_eq,
  length, All, if◌then◌else◌, is_space, starts_with, lower_ascii, trim, is_blank, byte_length,
  returned, thrown, arith,
}
use cesspace_arc.Patch.Data.{
  context, insert, delete, HunkLine, ParsedFilePatch, lf, eol_text, line_counts_mismatch,
  creation_unsupported, inconsistent_coordinates, directive_unsupported,
}
use cesspace_arc.Patch.Headers.{
  split_lines, forward_slashes, extract_logical_path, is_forbidden, read_hunk_header,
}
use cesspace_arc.Patch.Parser.{
  read_hunk_line, close_hunk, push_line, hunk_step, hunk_end, in_order, file_error, add_file,
  is_consistent, header_error, open_hunk, hunk_header_step,
}
use cesspace_arc.Patch.Parsing.{
  finalize_current_file, finish_section, set_old_path, set_new_path, other_line, section_step,
  line_step, parse_lines, check_files, end_of_patch, parse_unified_patch,
}
use cesspace_arc.Patch.Apply.{
  hunk_start, line_differs, check_lines, is_out_of_bounds, check_hunks, old_lines, new_lines,
  no_newline_after, between, patch_hunk, patch_hunks, patched_lines, count_lines, count_all,
  is_insertion, is_deletion, file_lines, join_lines, apply_hunks_exact, detect_newlines,
}
use cesspace_arc.Patch.Invariant.{IsFile, TargetsDiffer}
use cesspace_arc.Patch.Parsed.{parsed_patch_IsSound}
use cesspace_arc.Patch.Meaning.{Patches}
use cesspace_arc.Patch.Reversal.{apply_hunks_exact_iff, reverse_hunk}
use cesspace_arc.Patch.Undo.{reversed_patch_undoes}

patching : Unit {0}
unfolding text_eq is_space starts_with lower_ascii trim is_blank byte_length split_lines
    forward_slashes extract_logical_path is_forbidden read_hunk_header read_hunk_line close_hunk
    push_line hunk_step hunk_end in_order file_error add_file is_consistent header_error open_hunk
    hunk_header_step finalize_current_file finish_section set_old_path set_new_path other_line
    section_step line_step parse_lines check_files end_of_patch parse_unified_patch hunk_start
    line_differs check_lines is_out_of_bounds check_hunks old_lines new_lines no_newline_after
    between patch_hunk patch_hunks patched_lines count_lines count_all file_lines join_lines
    apply_hunks_exact detect_newlines
patching = tt

-- Paths that are in normal form already.
abbrev plain : Text → Text
plain path = path

abbrev patch : Text
patch =
    text
      "diff --git a/x b/x\n--- a/x\n+++ b/x\n@@ -1,3 +1,2 @@\n one\n-two\n-three\n+2\n@@ -5 +4,2 @@\n five\n+six\n"

abbrev line_of : Text → HunkLine
line_of s = record { type = context; content = s; no_newline = false }

abbrev added_line : Text → HunkLine
added_line s = record { type = insert; content = s; no_newline = false }

abbrev removed_line : Text → HunkLine
removed_line s = record { type = delete; content = s; no_newline = false }

abbrev parsed_file : ParsedFilePatch
parsed_file = record {
  old_header_path = text "a/x";
  new_header_path = text "b/x";
  target_path = text "x";
  hunks =
      record {
        old_start = 1;
        old_count = 3;
        new_start = 1;
        new_count = 2;
        lines =
            line_of (text "one")
            ∷ removed_line (text "two")
            ∷ removed_line (text "three")
            ∷ added_line (text "2")
            ∷ [];
      }
      ∷ record {
        old_start = 5;
        old_count = 1;
        new_start = 4;
        new_count = 2;
        lines = line_of (text "five") ∷ added_line (text "six") ∷ [];
      }
      ∷ [];
}

parsed : parse_unified_patch plain patch ≡ returned (parsed_file ∷ [])
unfolding patching
parsed = refl

applied :
    apply_hunks_exact (text "one\ntwo\nthree\nfour\nfive\n") parsed_file.hunks lf true
    ≡ returned (text "one\n2\nfour\nfive\nsix\n", 2, 2)
unfolding patching
applied = refl

creation_refused :
    parse_unified_patch plain (text "--- /dev/null\n+++ b/x\n@@ -0,0 +1 @@\n+a\n")
    ≡ thrown creation_unsupported
unfolding patching
creation_refused = refl

mode_refused : parse_unified_patch plain (text "OLD mode 100644\n") ≡ thrown directive_unsupported
unfolding patching
mode_refused = refl

short_hunk_refused :
    parse_unified_patch plain (text "--- a/x\n+++ b/x\n@@ -1,2 +1 @@\n one\n@@ -4 +3 @@\n")
    ≡ thrown line_counts_mismatch
unfolding patching
short_hunk_refused = refl

shifted_hunk_refused :
    parse_unified_patch plain (text "--- a/x\n+++ b/x\n@@ -1 +2 @@\n one\n")
    ≡ thrown inconsistent_coordinates
unfolding patching
shifted_hunk_refused = refl

mixed_endings : detect_newlines (text "a\r\nb\n") ≡ none
unfolding patching
mixed_endings = refl

parsed_patch_IsSound_example :
    (byte_length patch ≤ 524288)
    × (1 ≤ length (parsed_file ∷ []))
    × (length (parsed_file ∷ []) ≤ 10)
    × TargetsDiffer (parsed_file ∷ [])
    × All IsFile (parsed_file ∷ [])
unfolding patching
parsed_patch_IsSound_example = parsed_patch_IsSound plain patch (parsed_file ∷ []) refl

parsed_file-IsFile : IsFile parsed_file
parsed_file-IsFile = (parsed_patch_IsSound plain patch (parsed_file ∷ []) parsed).4.0

abbrev original : Text
original = text "one\ntwo\nthree\nfour\nfive\n"

abbrev before : List Text
before = text "one" ∷ text "two" ∷ text "three" ∷ text "four" ∷ text "five" ∷ []

abbrev after : List Text
after = text "one" ∷ text "2" ∷ text "four" ∷ text "five" ∷ text "six" ∷ []

original_lines : file_lines original lf true ≡ before
unfolding patching
original_lines = refl

apply_hunks_exact_iff_example :
    (Patches 0 parsed_file.hunks (file_lines original lf true) after ↔ (
      (check_hunks (file_lines original lf true) parsed_file.hunks ≡ none)
      × ((patched_lines (file_lines original lf true) parsed_file.hunks true).0 ≡ after)))
    × (Patches 0 parsed_file.hunks (file_lines original lf true) after
        → (final : Bool) × (apply_hunks_exact original parsed_file.hunks lf true
            ≡ returned (
              join_lines lf after ++ (if final then eol_text lf else []),
              count_all is_insertion parsed_file.hunks,
              count_all is_deletion parsed_file.hunks,
            ))
          × (length after + count_all is_deletion parsed_file.hunks
              ≡ length (file_lines original lf true) + count_all is_insertion parsed_file.hunks))
apply_hunks_exact_iff_example =
    apply_hunks_exact_iff original lf true parsed_file after parsed_file-IsFile

means : Patches 0 parsed_file.hunks before after
unfolding patching
means = (
  [],
  text "four" ∷ text "five" ∷ [],
  text "four" ∷ text "five" ∷ text "six" ∷ [],
  refl,
  refl,
  refl,
  (text "four" ∷ [], [], [], refl, refl, refl, refl),
)

reversed_patch_undoes_example :
    (check_hunks
        (patched_lines before parsed_file.hunks true).0
        (map reverse_hunk parsed_file.hunks)
      ≡ none)
    × ((patched_lines
          (patched_lines before parsed_file.hunks true).0
          (map reverse_hunk parsed_file.hunks)
          true).0
        ≡ before)
unfolding patching
reversed_patch_undoes_example =
    reversed_patch_undoes parsed_file before true true parsed_file-IsFile (omega arith) refl
