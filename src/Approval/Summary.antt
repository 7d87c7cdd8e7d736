-- ===== src/Approval/Summary.antt =====
-- `sanitizeReviewSummary` of packages/policy/src/approval-state.ts: a caller's value of unknown
-- shape is reduced to the known fields of `ApprovalReviewSummary`.
use cesspace_arc.Base.{
  ℕ, suc, Bool, ◌&&◌, Option, none, some, List, [], ◌∷◌, ◌++◌, Text, length, ltb, leb, is_hex,
  if◌then◌else◌,
}

-- What the code tells apart in an `unknown` value. `number` has the integers from 0 on;
-- `other_number` stands for every other number.
mutual
  pub data JsValue : Type 0 where
    undefined null other_number object : JsValue
    boolean : Bool → JsValue
    number : ℕ → JsValue
    string : Text → JsValue
    array : JsValues → JsValue

  pub data JsValues : Type 0 where
    nil : JsValues
    cons : JsValue → JsValues → JsValues

-- The properties that the code reads of the object that it is given.
pub record RawSummary : Type 0 where
  pub target_paths : JsValue
  pub content_bytes : JsValue
  pub patch_bytes : JsValue
  pub fuzz : JsValue
  pub argument_count : JsValue
  pub insertions : JsValue
  pub deletions : JsValue
  pub step_count : JsValue
  pub content_hash : JsValue
  pub patch_hash : JsValue
  pub expected_hash : JsValue
  pub expected_source_hash : JsValue
  pub plan_hash : JsValue
  pub overwrite : JsValue
  pub dry_run : JsValue
  pub executable : JsValue
  pub plan_id : JsValue

-- An object with those properties, or any value that the first test turns away.
pub data RawInput : Type 0 where
  not_an_object : RawInput
  fields : RawSummary → RawInput

pub record ReviewSummary : Type 0 where
  pub target_paths : Option (List Text)
  pub content_bytes : Option ℕ
  pub patch_bytes : Option ℕ
  pub fuzz : Option ℕ
  pub argument_count : Option ℕ
  pub insertions : Option ℕ
  pub deletions : Option ℕ
  pub step_count : Option ℕ
  pub content_hash : Option Text
  pub patch_hash : Option Text
  pub expected_hash : Option Text
  pub expected_source_hash : Option Text
  pub plan_hash : Option Text
  pub overwrite : Option Bool
  pub dry_run : Option Bool
  pub executable : Option Text
  pub plan_id : Option Text

abbrev pub max_review_summary_paths : ℕ
max_review_summary_paths = 10

abbrev pub max_review_summary_string_length : ℕ
max_review_summary_string_length = 512

abbrev pub max_review_summary_path_length : ℕ
max_review_summary_path_length = 1024

-- The test that the loop makes of one entry, once there is room.
path_entry : JsValue → List Text
path_entry (string []) = []
path_entry (string (c ∷ s)) =
    if ltb max_review_summary_path_length (length (c ∷ s)) then [] else (c ∷ s) ∷ []
path_entry _ = []

-- The loop over `source.targetPaths`; `paths` is what it has pushed.
collect_paths : List Text → JsValues → List Text
collect_paths paths nil = paths
collect_paths paths (cons entry rest) =
    let more = collect_paths (paths ++ path_entry entry) rest in
    if leb max_review_summary_paths (length paths) then paths else more

abbrev non_empty_paths : List Text → Option (List Text)
non_empty_paths [] = none
non_empty_paths (p ∷ ps) = some (p ∷ ps)

sanitize_paths : JsValue → Option (List Text)
unfolding collect_paths path_entry
sanitize_paths (array entries) = non_empty_paths (collect_paths [] entries)
sanitize_paths _ = none

sanitize_number : JsValue → Option ℕ
sanitize_number (number n) = some n
sanitize_number _ = none

sanitize_hash : JsValue → Option Text
sanitize_hash (string s) = if is_hex 64 s then some s else none
sanitize_hash _ = none

sanitize_boolean : JsValue → Option Bool
sanitize_boolean (boolean b) = some b
sanitize_boolean _ = none

sanitize_string : JsValue → Option Text
sanitize_string (string s) =
    if ltb 0 (length s) && leb (length s) max_review_summary_string_length then some s else none
sanitize_string _ = none

sanitize_fields : RawSummary → ReviewSummary
unfolding sanitize_paths sanitize_number sanitize_hash sanitize_boolean sanitize_string
sanitize_fields source = record {
  target_paths = sanitize_paths source.target_paths;
  content_bytes = sanitize_number source.content_bytes;
  patch_bytes = sanitize_number source.patch_bytes;
  fuzz = sanitize_number source.fuzz;
  argument_count = sanitize_number source.argument_count;
  insertions = sanitize_number source.insertions;
  deletions = sanitize_number source.deletions;
  step_count = sanitize_number source.step_count;
  content_hash = sanitize_hash source.content_hash;
  patch_hash = sanitize_hash source.patch_hash;
  expected_hash = sanitize_hash source.expected_hash;
  expected_source_hash = sanitize_hash source.expected_source_hash;
  plan_hash = sanitize_hash source.plan_hash;
  overwrite = sanitize_boolean source.overwrite;
  dry_run = sanitize_boolean source.dry_run;
  executable = sanitize_string source.executable;
  plan_id = sanitize_string source.plan_id;
}

-- `Object.keys(out).length`
abbrev present {ℓ} : {A : Type ℓ} → Option A → ℕ → ℕ
present none n = n
present (some _) n = suc n

unfoldable pub key_count : ReviewSummary → ℕ
key_count s = present s.target_paths (
    present s.content_bytes (
      present s.patch_bytes (
        present s.fuzz (
          present s.argument_count (
            present s.insertions (
              present s.deletions (
                present s.step_count (
                  present s.content_hash (
                    present s.patch_hash (
                      present s.expected_hash (
                        present s.expected_source_hash (
                          present s.plan_hash (
                            present s.overwrite (
                              present s.dry_run
                                (present s.executable (present s.plan_id 0))))))))))))))))

unfoldable pub sanitize_review_summary : RawInput → Option ReviewSummary
unfolding sanitize_fields key_count
sanitize_review_summary not_an_object = none
sanitize_review_summary (fields source) =
    if ltb 0 (key_count (sanitize_fields source)) then some (sanitize_fields source) else none
