-- ===== src/Patch/Parsed.antt =====
-- What a patch that `parseUnifiedPatch` (packages/filesystem/src/patch-engine.ts) returns satisfies.
use cesspace_arc.Base.{
  ◌≤◌, ◌≡◌, subst, List, [], ◌∷◌, Text, length, All, ltb, ltb-false→le, is_blank, byte_length,
  returned, returned_eq, and_then-eq-returned, Bool-cases, Option-cases, inl, inr, arith,
}
use cesspace_arc.Patch.Data.{ParsedFilePatch}
use cesspace_arc.Patch.Headers.{split_lines}
use cesspace_arc.Patch.Parser.{ParseState, initial_state}
use cesspace_arc.Patch.Parsing.{
  line_step, parse_lines, finish_section, check_files, end_of_patch, parse_unified_patch,
}
use cesspace_arc.Patch.Invariant.{
  IsFile, TargetsDiffer, IsParsing, initial-IsParsing, hunk_step-IsParsing,
}
use cesspace_arc.Patch.Sections.{finish-Keeps, section_step-IsParsing}

module _ (normalize : Text → Text) where
  line_step-IsParsing :
      (line : Text) (s s' : ParseState)
      → IsParsing s
      → line_step normalize line s ≡ returned s'
      → IsParsing s'
  unfolding line_step
  line_step-IsParsing line s s' w e = elim (Option-cases s.current) [
    | inl idle ↦ section_step-IsParsing normalize line s s' idle w (rw (line_step, idle) at e)
    | inr (h, reading) ↦
        hunk_step-IsParsing s h w (w.reading h reading) line s' (rw (line_step, reading) at e)
  ]

  parse_lines-IsParsing :
      (lines : List Text) (s s' : ParseState)
      → IsParsing s
      → parse_lines normalize lines s ≡ returned s'
      → IsParsing s'
  unfolding parse_lines
  parse_lines-IsParsing [] s s' w e = subst IsParsing (returned_eq e) w
  parse_lines-IsParsing (line ∷ lines) s s' w e =
      let (m, first, rest) =
        and_then-eq-returned (line_step normalize line s) (parse_lines normalize lines) e in
      parse_lines-IsParsing lines m s' (line_step-IsParsing line s m w first) rest

  -- The files of the last state, if there are not too many.
  checked :
      (fs files : List ParsedFilePatch)
      → check_files normalize fs ≡ returned files
      → (fs ≡ files) × (1 ≤ length fs) × (length fs ≤ 10)
  unfolding check_files
  checked [] files e = absurd (cc)
  checked (f ∷ fs) files e = elim (Bool-cases (ltb 10 (length (f ∷ fs)))) [
    | inl many ↦ absurd (cc (rw many at e))
    | inr few ↦ (returned_eq (rw few at e), omega arith, ltb-false→le 10 _ few)
  ]

  ended :
      (s : ParseState) (files : List ParsedFilePatch)
      → IsParsing s
      → end_of_patch normalize s ≡ returned files
      → (1 ≤ length files) × (length files ≤ 10) × TargetsDiffer files × All IsFile files
  unfolding end_of_patch
  ended s files w e = elim (Option-cases s.current) [
    | inr (h, reading) ↦ absurd (cc (rw (end_of_patch, reading) at e))
    | inl idle ↦
        let (m, done, found) =
          and_then-eq-returned (finish_section normalize s) (λ t. check_files normalize t.files)
            (rw (end_of_patch, idle) at e) in
        let v = finish-Keeps normalize s idle w m done in
        let (same, more, few) = checked m.files files found in
        subst (λ fs. (1 ≤ length fs) × (length fs ≤ 10) × TargetsDiffer fs × All IsFile fs) same
          (more, few, v.targets, v.files)
  ]

  -- A patch that is accepted has at most 512 KiB and one to ten files, with different targets. Each
  -- file has at least one hunk; its hunks are in order and do not overlap; each hunk has as many old
  -- and as many new lines as its header says, and the start of its new lines is the one that follows
  -- from the start of its old lines and from the lines that the hunks before it add and remove.
  pub parsed_patch_IsSound :
      (patch : Text) (files : List ParsedFilePatch)
      → parse_unified_patch normalize patch ≡ returned files
      → (byte_length patch ≤ 524288)
        × (1 ≤ length files)
        × (length files ≤ 10)
        × TargetsDiffer files
        × All IsFile files
  unfolding parse_unified_patch
  parsed_patch_IsSound patch files e = elim (Bool-cases (ltb 524288 (byte_length patch))) [
    | inl large ↦ absurd (cc (rw large at e))
    | inr small ↦ elim (Bool-cases (is_blank patch)) [
      | inl blank ↦ absurd (cc (rw (small, blank) at e))
      | inr filled ↦
          let (s, lines, end) =
            and_then-eq-returned (parse_lines normalize (split_lines patch) initial_state)
              (end_of_patch normalize) (rw (small, filled) at e) in
          let w =
            parse_lines-IsParsing (split_lines patch) initial_state s initial-IsParsing lines in
          let (more, few, targets, sound) = ended s files w end in
          (ltb-false→le 524288 _ small, more, few, targets, sound)
    ]
  ]
