-- ===== src/Patch/Keeping.antt =====
-- Hunk headers and complete sections keep the invariant of `parseUnifiedPatch`
-- (packages/filesystem/src/patch-engine.ts).
use cesspace_arc.Base.{
  ◌≡◌, ◌≢◌, refl, sym, subst, true, false, ◌&&◌, none, some, List, [], ◌∷◌, ◌++◌, Text, text_eq,
  text_eq_iff, All-append, any, ◌==◌, ==_iff, or_else, returned, thrown, returned_eq, and→both,
  Bool-cases, Option-cases, inl, inr, arith,
}
use cesspace_arc.Patch.Data.{ParsedHunk, ParsedFilePatch, PatchError}
use cesspace_arc.Patch.Headers.{HunkHeader}
use cesspace_arc.Patch.Parser.{
  ParseState, Parse, is_empty, in_order, file_error, add_file, is_consistent, header_error,
  open_hunk, hunk_header_step,
}
use cesspace_arc.Patch.Apply.{old_lines, new_lines}
use cesspace_arc.Patch.Invariant.{
  IsFile, TargetsDiffer, IsParsing, close-IsParsing, reading-IsParsing,
}

-- Every step keeps the invariant.
abbrev pub Keeps : Parse → Type 0
Keeps m = (s' : ParseState) → m ≡ returned s' → IsParsing s'

pub returns-Keeps : (s : ParseState) → IsParsing s → Keeps (returned s)
returns-Keeps s w s' e = subst IsParsing (returned_eq e) w

pub throws-Keeps : (x : PatchError) → Keeps (thrown x)
throws-Keeps x s' e = absurd (cc)

header_fits :
    (h : HunkHeader) (s : ParseState)
    → header_error h s ≡ none
    → is_consistent h s.added s.removed ≡ true
unfolding header_error
header_fits h s e = ground arith

open-IsParsing :
    (h : HunkHeader) (s : ParseState)
    → is_consistent h s.added s.removed ≡ true
    → IsParsing s
    → IsParsing (open_hunk h s)
unfolding open_hunk old_lines new_lines
open-IsParsing h s fits w =
    let hunk : ParsedHunk = record {
      old_start = h.old_start;
      old_count = h.old_count;
      new_start = h.new_start;
      new_count = h.new_count;
      lines = [];
    } in
    let opened = reading-IsParsing hunk s w 0 0 refl refl fits in
    elim (Bool-cases (h.old_count == 0 && h.new_count == 0)) [
      | inr more ↦ rw more opened
      | inl empty ↦
          let (eo, en) = and→both (h.old_count == 0) _ empty in
          rw empty (
            close-IsParsing hunk (record s { current = some hunk; seen_old = 0; seen_new = 0 })
              opened (sym ((==_iff h.old_count 0).0 eo), sym ((==_iff h.new_count 0).0 en)) fits)
    ]

pub header_step-Keeps :
    (h : HunkHeader) (s : ParseState) → IsParsing s → Keeps (hunk_header_step h s)
unfolding hunk_header_step
header_step-Keeps h s w = elim (Option-cases (header_error h s)) [
  | inr (x, bad) ↦ rw (hunk_header_step, bad) (throws-Keeps x)
  | inl fine ↦
      rw (hunk_header_step, fine)
        (returns-Keeps (open_hunk h s) (open-IsParsing h s (header_fits h s fine) w))
]

append-TargetsDiffer :
    (fs : List ParsedFilePatch) (f : ParsedFilePatch)
    → any (λ (g : ParsedFilePatch). text_eq g.target_path f.target_path) fs ≡ false
    → TargetsDiffer fs
    → TargetsDiffer (fs ++ f ∷ [])
append-TargetsDiffer [] f new d = (tt, tt)
append-TargetsDiffer (g ∷ fs) f new (first, d) =
    let other : f.target_path ≢ g.target_path =
      λ e. absurd (ground (arith, text_eq_iff g.target_path f.target_path)) in
    (
      All-append (λ (k : ParsedFilePatch). k.target_path ≢ g.target_path) fs (f ∷ []) first
          (other, tt),
      append-TargetsDiffer fs f (ground arith) d,
    )

some_hunk : (hs : List ParsedHunk) → is_empty hs ≡ false → hs ≢ []
some_hunk [] h = absurd (cc)
some_hunk (x ∷ hs) h = λ e. absurd (cc)

-- What the checks of a complete section say.
file_fine :
    (old_target new_target : Text) (s : ParseState)
    → file_error old_target new_target s ≡ none
    → (any (λ (f : ParsedFilePatch). text_eq f.target_path old_target) s.files ≡ false)
      × (is_empty s.hunks ≡ false)
      × (in_order s.hunks ≡ true)
unfolding file_error
file_fine old_target new_target s e = (ground arith, ground arith, ground arith)

pub add-IsParsing :
    (target new_target : Text) (s : ParseState)
    → file_error target new_target s ≡ none
    → s.current ≡ none
    → IsParsing s
    → IsParsing (add_file target s)
unfolding add_file
add-IsParsing target new_target s fine idle w =
    let (new, full, ordered) = file_fine target new_target s fine in
    let f : ParsedFilePatch = record {
      old_header_path = or_else s.old_path [];
      new_header_path = or_else s.new_path [];
      target_path = target;
      hunks = s.hunks;
    } in
    record {
      files =
          All-append IsFile s.files (f ∷ []) w.files
            (record { some_hunk = some_hunk s.hunks full; hunks = w.hunks; ordered = ordered }, tt);
      targets = append-TargetsDiffer s.files f new w.targets;
      hunks = tt;
      added = refl;
      removed = refl;
      reading = λ h e. absurd (cc);
    }
