-- ===== src/Patch/Parsing.antt =====
-- The loop of `parseUnifiedPatch` (packages/filesystem/src/patch-engine.ts) over the lines, and its
-- checks before and after. `normalize` is that of node:path.
use cesspace_arc.Base.{
  not, ◌&&◌, none, some, List, [], ◌∷◌, Text, text, length, drop, ltb, if◌then◌else◌, or_else,
  starts_with, is_blank, trim, byte_length, Outcome, returned, thrown, and_then,
}
use cesspace_arc.Patch.Data.{
  ParsedFilePatch, PatchError, max_patch_bytes, max_patch_files, payload_too_large, empty_patch,
  directive_unsupported, creation_unsupported, deletion_unsupported, missing_new_header,
  missing_old_header, malformed_line, unexpected_end, no_files, too_many_files,
}
use cesspace_arc.Patch.Headers.{split_lines, extract_logical_path, is_forbidden, read_hunk_header}
use cesspace_arc.Patch.Parser.{
  ParseState, initial_state, Parse, truthy, mark_last_hunk, is_no_newline_marker, hunk_step,
  file_error, add_file, hunk_header_step,
}

module _ (normalize : Text → Text) where
  unfoldable pub finalize_current_file : ParseState → Parse
  unfolding extract_logical_path file_error add_file
  finalize_current_file s =
      let old_target = extract_logical_path normalize (or_else s.old_path []) in
      let new_target = extract_logical_path normalize (or_else s.new_path []) in
      elim (file_error old_target new_target s) [
        | some e ↦ thrown e
        | none ↦ returned (add_file old_target s)
      ]

  -- A file section that is complete is added, one that lacks its second header is an error.
  unfoldable pub finish_section : ParseState → Parse
  unfolding finalize_current_file
  finish_section s =
      if truthy s.old_path && truthy s.new_path
      then finalize_current_file s
      else if truthy s.old_path && not (truthy s.new_path)
      then thrown missing_new_header
      else returned s

  unfoldable pub set_old_path : (path : Text) → ParseState → Parse
  unfolding starts_with
  set_old_path path s =
      if starts_with (text "/dev/null") path
      then thrown creation_unsupported
      else returned (record s { old_path = some path })

  unfoldable pub set_new_path : (path : Text) → ParseState → Parse
  unfolding starts_with
  set_new_path path s =
      if not (truthy s.old_path)
      then thrown missing_old_header
      else if starts_with (text "/dev/null") path
      then thrown deletion_unsupported
      else returned (record s { new_path = some path })

  -- A line that is no header of a file or a hunk.
  unfoldable pub other_line : Text → ParseState → Parse
  unfolding finalize_current_file starts_with is_blank
  other_line line s =
      if starts_with (text "diff --git ") line
      then if truthy s.old_path && truthy s.new_path then finalize_current_file s else returned s
      else if starts_with (text "index ") line
      then returned s
      else if is_blank line
      then returned s
      else thrown malformed_line

  -- A line outside of a hunk.
  unfoldable pub section_step : Text → ParseState → Parse
  unfolding finish_section set_old_path set_new_path hunk_header_step other_line is_forbidden
      read_hunk_header starts_with trim
  section_step line s =
      if is_no_newline_marker line
      then returned (record s { hunks = mark_last_hunk s.hunks })
      else if is_forbidden line
      then thrown directive_unsupported
      else if starts_with (text "--- ") line
      then and_then (finish_section s) (set_old_path (trim (drop 4 line)))
      else if starts_with (text "+++ ") line
      then set_new_path (trim (drop 4 line)) s
      else elim (read_hunk_header line) [ some h ↦ hunk_header_step h s | none ↦ other_line line s ]

  unfoldable pub line_step : Text → ParseState → Parse
  unfolding hunk_step section_step
  line_step line s = elim s.current [ some h ↦ hunk_step line h s | none ↦ section_step line s ]

  unfoldable pub parse_lines : List Text → ParseState → Parse
  unfolding line_step
  parse_lines [] s = returned s
  parse_lines (line ∷ lines) s = and_then (line_step line s) (parse_lines lines)

  unfoldable pub check_files : List ParsedFilePatch → Outcome PatchError (List ParsedFilePatch)
  check_files [] = thrown no_files
  check_files (f ∷ fs) =
      if ltb max_patch_files (length (f ∷ fs)) then thrown too_many_files else returned (f ∷ fs)

  -- After the last line.
  unfoldable pub end_of_patch : ParseState → Outcome PatchError (List ParsedFilePatch)
  unfolding finish_section check_files
  end_of_patch s = elim s.current [
    | some h ↦ thrown unexpected_end
    | none ↦ and_then (finish_section s) (λ s'. check_files s'.files)
  ]

  unfoldable pub parse_unified_patch : Text → Outcome PatchError (List ParsedFilePatch)
  unfolding parse_lines end_of_patch split_lines byte_length is_blank
  parse_unified_patch patch =
      if ltb max_patch_bytes (byte_length patch)
      then thrown payload_too_large
      else if is_blank patch
      then thrown empty_patch
      else and_then (parse_lines (split_lines patch) initial_state) end_of_patch
