-- ===== src/Patch/Undo.antt =====
-- The reverse of an accepted patch (packages/filesystem/src/patch-engine.ts) undoes it.
use cesspace_arc.Base.{
  ℕ, ◌+◌, ◌≡◌, refl, sym, subst, ap, ◌∙◌, Bool, none, List, [], ◌∷◌, ◌++◌, map, Text, length, arith,
}
use cesspace_arc.Patch.Data.{ParsedHunk, ParsedFilePatch}
use cesspace_arc.Patch.Apply.{check_hunks, old_lines, patched_lines}
use cesspace_arc.Patch.Hunks.{AreHunks}
use cesspace_arc.Patch.Invariant.{IsFile}
use cesspace_arc.Patch.Meaning.{Patches, patched_lines-eq-patched_from}
use cesspace_arc.Patch.Application.{HaveCounts, checked-Patches, Patches-checked}
use cesspace_arc.Patch.Reversal.{
  AreHunks-counts, StartsAfter-zero, reverse_line, reverse_hunk, old_lines-reverse,
  new_lines-reverse, NoneEmpty, reversed_start,
}

reverse-HaveCounts : (hs : List ParsedHunk) → HaveCounts hs → HaveCounts (map reverse_hunk hs)
reverse-HaveCounts [] w = tt
reverse-HaveCounts (h ∷ hs) ((o, n), w) = (
  (
    ap (λ (t : List Text). length t) (old_lines-reverse h.lines) ∙ n,
    ap (λ (t : List Text). length t) (new_lines-reverse h.lines) ∙ o,
  ),
  reverse-HaveCounts hs w,
)

reverse-Patches :
    (a r at at' : ℕ) (hs : List ParsedHunk) (old new : List Text)
    → AreHunks a r hs
    → NoneEmpty hs
    → at' + r ≡ at + a
    → Patches at hs old new
    → Patches at' (map reverse_hunk hs) new old
reverse-Patches a r at at' [] old new w full shift p = sym p
reverse-Patches a r at at' (h ∷ hs) old new ((old_size, new_size), fits, w) (some_line, full) shift
      (gap, rest, rest', starts, eo, en, later) =
    let n' = at' + length gap in
    let reversed_old = old_lines-reverse h.lines in
    let reversed_new = new_lines-reverse h.lines in
    let size = ap (λ (t : List Text). length t) reversed_old in
    (
      gap,
      rest',
      rest,
      reversed_start h a r (at + length gap) n' some_line fits starts (omega arith),
      en ∙ ap (λ t. gap ++ (t ++ rest')) (sym reversed_old),
      eo ∙ ap (λ t. gap ++ (t ++ rest)) (sym reversed_new),
      reverse-Patches (a + h.new_count) (r + h.old_count)
          (at + length gap + length (old_lines h.lines))
          (n' + length (old_lines (map reverse_line h.lines))) hs rest rest' w full
          (omega (arith, shift, old_size, new_size, size)) later,
    )

-- If a file of an accepted patch, none of whose hunks is without lines, is applied to some lines, then
-- the reversed hunks pass the checks on the result and give back the lines.
pub reversed_patch_undoes :
    (f : ParsedFilePatch) (lines : List Text) (b b' : Bool)
    → IsFile f
    → NoneEmpty f.hunks
    → check_hunks lines f.hunks ≡ none
    → (check_hunks (patched_lines lines f.hunks b).0 (map reverse_hunk f.hunks) ≡ none)
      × ((patched_lines (patched_lines lines f.hunks b).0 (map reverse_hunk f.hunks) b').0 ≡ lines)
reversed_patch_undoes f lines b b' w full good =
    let new = (patched_lines lines f.hunks b).0 in
    let made = patched_lines-eq-patched_from lines f.hunks b in
    let forth : Patches 0 f.hunks lines new = subst (Patches 0 f.hunks lines) (sym made) (
      checked-Patches lines 0 0 0 f.hunks (omega arith) (StartsAfter-zero f.hunks) w.ordered w.hunks
        good) in
    let back = reverse-Patches 0 0 0 0 f.hunks lines new w.hunks full refl forth in
    let counts = reverse-HaveCounts f.hunks (AreHunks-counts 0 0 f.hunks w.hunks) in
    let (passes, old) =
      Patches-checked new 0 (map reverse_hunk f.hunks) lines (omega arith) counts back in
    (passes, patched_lines-eq-patched_from new (map reverse_hunk f.hunks) b' ∙ sym old)
