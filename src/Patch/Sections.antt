-- ===== src/Patch/Sections.antt =====
-- The lines outside of hunks keep the invariant of `parseUnifiedPatch`
-- (packages/filesystem/src/patch-engine.ts).
use cesspace_arc.Base.{
  ◌≡◌, sym, ◌∙◌, ◌&&◌, Option, none, some, [], Text, text, drop, or_else, starts_with, is_blank,
  trim, returned, and_then-eq-returned, Bool-cases, Option-cases, inl, inr,
}
use cesspace_arc.Patch.Data.{
  missing_new_header, missing_old_header, malformed_line, creation_unsupported,
  deletion_unsupported, directive_unsupported,
}
use cesspace_arc.Patch.Headers.{extract_logical_path, is_forbidden, read_hunk_header}
use cesspace_arc.Patch.Parser.{
  ParseState, truthy, mark_last_hunk, is_no_newline_marker, file_error, add_file,
}
use cesspace_arc.Patch.Parsing.{
  finalize_current_file, finish_section, set_old_path, set_new_path, other_line, section_step,
}
use cesspace_arc.Patch.Hunks.{mark-AreHunks, sums-mark}
use cesspace_arc.Patch.Invariant.{IsParsing}
use cesspace_arc.Patch.Keeping.{
  Keeps, returns-Keeps, throws-Keeps, header_step-Keeps, add-IsParsing,
}

module _ (normalize : Text → Text) (s : ParseState) (idle : s.current ≡ none)
    (w : IsParsing s) where
  finalize-Keeps : Keeps (finalize_current_file normalize s)
  unfolding finalize_current_file
  finalize-Keeps =
      let old_target = extract_logical_path normalize (or_else s.old_path []) in
      let new_target = extract_logical_path normalize (or_else s.new_path []) in
      elim (Option-cases (file_error old_target new_target s)) [
        | inr (x, bad) ↦ rw (finalize_current_file, bad) (throws-Keeps x)
        | inl fine ↦
            rw (finalize_current_file, fine)
              (returns-Keeps (add_file old_target s)
                (add-IsParsing old_target new_target s fine idle w))
      ]

  pub finish-Keeps : Keeps (finish_section normalize s)
  unfolding finish_section
  finish-Keeps = elim (Bool-cases (truthy s.old_path)) [
    | inr absent ↦ rw absent (returns-Keeps s w)
    | inl old ↦ elim (Bool-cases (truthy s.new_path)) [
      | inl new ↦ rw (old, new) finalize-Keeps
      | inr lacking ↦ rw (old, lacking) (throws-Keeps missing_new_header)
    ]
  ]

  other-Keeps : (line : Text) → Keeps (other_line normalize line s)
  unfolding other_line
  other-Keeps line = elim (Bool-cases (starts_with (text "diff --git ") line)) [
    | inl git ↦ elim (Bool-cases (truthy s.old_path && truthy s.new_path)) [
      | inl both ↦ rw (git, both) finalize-Keeps
      | inr lacking ↦ rw (git, lacking) (returns-Keeps s w)
    ]
    | inr plain ↦ elim (Bool-cases (starts_with (text "index ") line)) [
      | inl index ↦ rw (plain, index) (returns-Keeps s w)
      | inr no_index ↦ elim (Bool-cases (is_blank line)) [
        | inl blank ↦ rw (plain, no_index, blank) (returns-Keeps s w)
        | inr bad ↦ rw (plain, no_index, bad) (throws-Keeps malformed_line)
      ]
    ]
  ]

-- The paths play no part in the invariant.
with_paths-IsParsing :
    (o n : Option Text) (s : ParseState)
    → IsParsing s
    → IsParsing (record s { old_path = o; new_path = n })
with_paths-IsParsing o n s w = record {
  files = w.files;
  targets = w.targets;
  hunks = w.hunks;
  added = w.added;
  removed = w.removed;
  reading = λ h e.
      let r = w.reading h e in
      record { old_so_far = r.old_so_far; new_so_far = r.new_so_far; fits = r.fits };
}

set_old-Keeps :
    (normalize : Text → Text) (path : Text) (s : ParseState)
    → IsParsing s
    → Keeps (set_old_path normalize path s)
unfolding set_old_path
set_old-Keeps normalize path s w = elim (Bool-cases (starts_with (text "/dev/null") path)) [
  | inl null ↦ rw null (throws-Keeps creation_unsupported)
  | inr file ↦ rw file (
      returns-Keeps (record s { old_path = some path })
        (with_paths-IsParsing (some path) s.new_path s w))
]

set_new-Keeps :
    (normalize : Text → Text) (path : Text) (s : ParseState)
    → IsParsing s
    → Keeps (set_new_path normalize path s)
unfolding set_new_path
set_new-Keeps normalize path s w = elim (Bool-cases (truthy s.old_path)) [
  | inr lacking ↦ rw lacking (throws-Keeps missing_old_header)
  | inl old ↦ elim (Bool-cases (starts_with (text "/dev/null") path)) [
    | inl null ↦ rw (old, null) (throws-Keeps deletion_unsupported)
    | inr file ↦
        rw (old, file)
          (returns-Keeps (record s { new_path = some path })
            (with_paths-IsParsing s.old_path (some path) s w))
  ]
]

marked-IsParsing :
    (s : ParseState)
    → s.current ≡ none
    → IsParsing s
    → IsParsing (record s { hunks = mark_last_hunk s.hunks })
marked-IsParsing s idle w =
    let (n, o) = sums-mark s.hunks in
    record {
      files = w.files;
      targets = w.targets;
      hunks = mark-AreHunks 0 0 s.hunks w.hunks;
      added = w.added ∙ sym n;
      removed = w.removed ∙ sym o;
      reading = λ h e. absurd (cc);
    }

pub section_step-IsParsing :
    (normalize : Text → Text) (line : Text) (s s' : ParseState)
    → s.current ≡ none
    → IsParsing s
    → section_step normalize line s ≡ returned s'
    → IsParsing s'
unfolding section_step
section_step-IsParsing normalize line s s' idle w = elim (Bool-cases (is_no_newline_marker line)) [
  | inl marker ↦
      rw marker
        (returns-Keeps (record s { hunks = mark_last_hunk s.hunks }) (marked-IsParsing s idle w) s')
  | inr plain ↦ elim (Bool-cases (is_forbidden line)) [
    | inl bad ↦ rw (plain, bad) (throws-Keeps directive_unsupported s')
    | inr fine ↦ elim (Bool-cases (starts_with (text "--- ") line)) [
      | inl old ↦
          rw (plain, fine, old)
            (λ e.
              let (m, done, set) =
                and_then-eq-returned (finish_section normalize s)
                  (set_old_path normalize (trim (drop 4 line))) e in
              set_old-Keeps normalize (trim (drop 4 line)) m
                (finish-Keeps normalize s idle w m done) s' set)
      | inr no_old ↦ elim (Bool-cases (starts_with (text "+++ ") line)) [
        | inl new ↦
            rw (plain, fine, no_old, new) (set_new-Keeps normalize (trim (drop 4 line)) s w s')
        | inr no_new ↦ elim (Option-cases (read_hunk_header line)) [
          | inr (h, header) ↦
              rw (section_step, plain, fine, no_old, no_new, header) (header_step-Keeps h s w s')
          | inl no_hunk ↦
              rw (section_step, plain, fine, no_old, no_new, no_hunk)
                (other-Keeps normalize s idle w line s')
        ]
      ]
    ]
  ]
]
