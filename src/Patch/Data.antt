-- ===== src/Patch/Data.antt =====
-- Parsed patches and their errors (packages/filesystem/src/patch-engine.ts). A line is its text
-- without the line ending.
use cesspace_arc.Base.{ℕ, ◌*◌, Bool, true, false, List, [], ◌∷◌, Text}

abbrev pub max_patch_bytes : ℕ
max_patch_bytes = 512 * 1024

abbrev pub max_patch_files : ℕ
max_patch_files = 10

pub data LineType : Type 0 where
  context insert delete : LineType

pub record HunkLine : Type 0 where
  pub type : LineType
  pub content : Text
  pub no_newline : Bool

pub record ParsedHunk : Type 0 where
  pub old_start : ℕ
  pub old_count : ℕ
  pub new_start : ℕ
  pub new_count : ℕ
  pub lines : List HunkLine

pub record ParsedFilePatch : Type 0 where
  pub old_header_path : Text
  pub new_header_path : Text
  pub target_path : Text
  pub hunks : List ParsedHunk

pub data PatchError : Type 0 where
  payload_too_large empty_patch : PatchError
  rename_unsupported duplicate_file no_hunks hunks_overlap : PatchError
  line_counts_mismatch directive_unsupported creation_unsupported deletion_unsupported : PatchError
  missing_new_header missing_old_header hunk_without_headers bad_coordinates : PatchError
  inconsistent_coordinates malformed_line unexpected_end no_files too_many_files : PatchError
  out_of_bounds context_mismatch deletion_mismatch : PatchError

-- Whether a line stands in the file before the patch, and after it.
abbrev pub is_old : LineType → Bool
is_old context = true
is_old insert = false
is_old delete = true

abbrev pub is_new : LineType → Bool
is_new context = true
is_new insert = true
is_new delete = false

pub data LineEnding : Type 0 where
  crlf lf : LineEnding

abbrev pub eol_text : LineEnding → Text
eol_text crlf = 13 ∷ 10 ∷ []
eol_text lf = 10 ∷ []
