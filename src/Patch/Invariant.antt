-- ===== src/Patch/Invariant.antt =====
-- The invariant of the loop of `parseUnifiedPatch` (packages/filesystem/src/patch-engine.ts), and
-- that a line of a hunk, a hunk header and the end of a file section keep it.
use cesspace_arc.Base.{
  ℕ, ◌+◌, ◌≡◌, ◌≢◌, refl, sym, subst, ◌∙◌, true, ◌&&◌, some, List, [], ◌∷◌, ◌++◌, Text, length, All,
  ◌==◌, ==_iff, if◌then◌else◌, returned, returned_eq, and→both, Bool-cases, Option-cases,
  eq_of_some, inl, inr, arith,
}
use cesspace_arc.Patch.Data.{HunkLine, ParsedHunk, ParsedFilePatch, is_old, is_new}
use cesspace_arc.Patch.Parser.{
  ParseState, initial_state, mark_hunk, close_hunk, push_line, read_hunk_line, is_no_newline_marker,
  hunk_step, in_order, is_consistent,
}
use cesspace_arc.Patch.Apply.{old_lines, new_lines}
use cesspace_arc.Patch.Hunks.{
  header_of, HasCounts, AreHunks, sum_new, sum_old, sum_new-append, sum_old-append, append-AreHunks,
  length-mark_last_old, length-mark_last_new, length-old_push, length-new_push,
}

-- A file section: some hunks, in order, that fit.
pub record IsFile (f : ParsedFilePatch) : Type 0 where
  pub some_hunk : f.hunks ≢ []
  pub hunks : AreHunks 0 0 f.hunks
  pub ordered : in_order f.hunks ≡ true

-- No two files have one target.
abbrev pub TargetsDiffer : List ParsedFilePatch → Type 0
TargetsDiffer [] = Unit
TargetsDiffer (f ∷ fs) =
    All (λ (g : ParsedFilePatch). g.target_path ≢ f.target_path) fs × TargetsDiffer fs

-- The hunk that is being read.
pub record IsOpen (s : ParseState) (h : ParsedHunk) : Type 0 where
  pub old_so_far : s.seen_old ≡ length (old_lines h.lines)
  pub new_so_far : s.seen_new ≡ length (new_lines h.lines)
  pub fits : is_consistent (header_of h) s.added s.removed ≡ true

pub record IsParsing (s : ParseState) : Type 0 where
  pub files : All IsFile s.files
  pub targets : TargetsDiffer s.files
  pub hunks : AreHunks 0 0 s.hunks
  pub added : s.added ≡ sum_new s.hunks
  pub removed : s.removed ≡ sum_old s.hunks
  pub reading : (h : ParsedHunk) → s.current ≡ some h → IsOpen s h

pub initial-IsParsing : IsParsing initial_state
initial-IsParsing = record {
  files = tt;
  targets = tt;
  hunks = tt;
  added = refl;
  removed = refl;
  reading = λ h e. absurd (cc);
}

module _ (h : ParsedHunk) (s : ParseState) (w : IsParsing s) where
  pub close-IsParsing :
      HasCounts h
      → is_consistent (header_of h) s.added s.removed ≡ true
      → IsParsing (close_hunk h s)
  unfolding close_hunk
  close-IsParsing counts fits =
      let fits' : is_consistent (header_of h) (0 + sum_new s.hunks) (0 + sum_old s.hunks) ≡ true =
        let a : 0 + sum_new s.hunks ≡ s.added = omega (arith, w.added) in
        let r : 0 + sum_old s.hunks ≡ s.removed = omega (arith, w.removed) in rw (a, r) fits in
      record {
        files = w.files;
        targets = w.targets;
        hunks = append-AreHunks 0 0 s.hunks h w.hunks counts fits';
        added = omega (arith, w.added, sum_new-append s.hunks (h ∷ []));
        removed = omega (arith, w.removed, sum_old-append s.hunks (h ∷ []));
        reading = λ g e. absurd (cc);
      }

  -- The state with another hunk that is being read.
  pub reading-IsParsing :
      (o n : ℕ)
      → o ≡ length (old_lines h.lines)
      → n ≡ length (new_lines h.lines)
      → is_consistent (header_of h) s.added s.removed ≡ true
      → IsParsing (record s { current = some h; seen_old = o; seen_new = n })
  reading-IsParsing o n old new fits = record {
    files = w.files;
    targets = w.targets;
    hunks = w.hunks;
    added = w.added;
    removed = w.removed;
    reading = λ g e.
        subst (IsOpen (record s { current = some h; seen_old = o; seen_new = n })) (eq_of_some e)
          (record { old_so_far = old; new_so_far = new; fits = fits });
  }

module _ (s : ParseState) (h : ParsedHunk) (w : IsParsing s) (reading : IsOpen s h) where
  push-IsParsing : (l : HunkLine) → IsParsing (push_line l h s)
  unfolding push_line
  push-IsParsing l =
      let h' : ParsedHunk = record h { lines = h.lines ++ l ∷ [] } in
      let o = s.seen_old + (if is_old l.type then 1 else 0) in
      let n = s.seen_new + (if is_new l.type then 1 else 0) in
      let old : o ≡ length (old_lines h'.lines) =
        omega (arith, reading.old_so_far, length-old_push h.lines l) in
      let new : n ≡ length (new_lines h'.lines) =
        omega (arith, reading.new_so_far, length-new_push h.lines l) in
      let open_still = reading-IsParsing h' s w o n old new reading.fits in
      elim (Bool-cases (o == h.old_count && n == h.new_count)) [
        | inr more ↦ rw more open_still
        | inl complete ↦
            let (eo, en) = and→both (o == h.old_count) _ complete in
            rw complete (
              close-IsParsing h' (record s { current = some h'; seen_old = o; seen_new = n })
                open_still
                (sym old ∙ (==_iff o h.old_count).0 eo, sym new ∙ (==_iff n h.new_count).0 en)
                reading.fits)
      ]

  pub hunk_step-IsParsing :
      (line : Text) (s' : ParseState) → hunk_step line h s ≡ returned s' → IsParsing s'
  unfolding hunk_step
  hunk_step-IsParsing line s' e = elim (Bool-cases (is_no_newline_marker line)) [
    | inl marker ↦
        let marked =
          reading-IsParsing (mark_hunk h) s w s.seen_old s.seen_new
            (reading.old_so_far ∙ sym (length-mark_last_old h.lines))
            (reading.new_so_far ∙ sym (length-mark_last_new h.lines)) reading.fits in
        subst IsParsing (returned_eq (rw (hunk_step, marker) at e)) marked
    | inr other ↦ elim (Option-cases (read_hunk_line line)) [
      | inl bad ↦ absurd (cc (rw (hunk_step, other, bad) at e))
      | inr (l, good) ↦
          subst IsParsing (returned_eq (rw (hunk_step, other, good) at e)) (push-IsParsing l)
    ]
  ]
