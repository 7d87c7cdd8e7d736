-- ===== src/Patch/Reversal.antt =====
-- The application of parsed patches (packages/filesystem/src/patch-engine.ts): exactly what it makes,
-- the number of lines, and that the reversed patch undoes it.
use cesspace_arc.Base.{
  ℕ, ◌+◌, ◌≤◌, ◌≡◌, ◌↔◌, refl, sym, subst, ap, ◌∙◌, Bool, true, none, List, [], ◌∷◌, ◌++◌, map,
  Text, length, length-append, All, if◌then◌else◌, returned, arith,
}
use cesspace_arc.Patch.Data.{
  LineType, context, insert, delete, HunkLine, ParsedHunk, ParsedFilePatch, LineEnding, eol_text,
}
use cesspace_arc.Patch.Parser.{is_consistent}
use cesspace_arc.Patch.Apply.{
  check_hunks, old_lines, new_lines, patched_lines, count_lines, count_all, is_insertion,
  is_deletion, file_lines, join_lines, apply_hunks_exact,
}
use cesspace_arc.Patch.Hunks.{header_of, AreHunks}
use cesspace_arc.Patch.Invariant.{IsFile}
use cesspace_arc.Patch.Meaning.{StartsAt, Patches, patched_lines-eq-patched_from}
use cesspace_arc.Patch.Application.{HaveCounts, StartsAfter, checked-Patches, Patches-checked}

pub AreHunks-counts : (a r : ℕ) (hs : List ParsedHunk) → AreHunks a r hs → HaveCounts hs
AreHunks-counts a r [] w = tt
AreHunks-counts a r (h ∷ hs) (c, _, w) =
    (c, AreHunks-counts (a + h.new_count) (r + h.old_count) hs w)

pub StartsAfter-zero : (hs : List ParsedHunk) → StartsAfter 0 hs
StartsAfter-zero [] = tt
StartsAfter-zero (h ∷ hs) = omega arith

count-lines :
    (ls : List HunkLine)
    → length (new_lines ls) + count_lines is_deletion ls
      ≡ length (old_lines ls) + count_lines is_insertion ls
unfolding new_lines old_lines count_lines
count-lines [] = refl
count-lines (l ∷ ls) = ground (arith, count-lines ls)

-- Where a patch takes one list of lines to another, the reported numbers of insertions and deletions
-- are the difference of their lengths.
pub patched_length :
    (at : ℕ) (hs : List ParsedHunk) (old new : List Text)
    → Patches at hs old new
    → length new + count_all is_deletion hs ≡ length old + count_all is_insertion hs
unfolding count_all
patched_length at [] old new p = rw p
patched_length at (h ∷ hs) old new (gap, rest, rest', _, eo, en, later) = omega (
  arith,
  ap (λ (t : List Text). length t) eo,
  ap (λ (t : List Text). length t) en,
  length-append gap (old_lines h.lines ++ rest),
  length-append gap (new_lines h.lines ++ rest'),
  length-append (old_lines h.lines) rest,
  length-append (new_lines h.lines) rest',
  count-lines h.lines,
  patched_length (at + length gap + length (old_lines h.lines)) hs rest rest' later,
)

-- Take a file of an accepted patch. The checks of its hunks pass on some lines and the patched lines
-- are `new` exactly when the patch means that these lines become `new`: outside of the hunks the lines
-- are kept, and in the place of the old lines of each hunk, which stand where its header says, are its
-- new lines. Then the patched text is that of `new`, with or without a last line
-- ending, and the reported numbers of insertions and deletions are the difference in length.
pub apply_hunks_exact_iff :
    (original : Text) (e : LineEnding) (b : Bool) (f : ParsedFilePatch) (new : List Text)
    → IsFile f
    → (Patches 0 f.hunks (file_lines original e b) new ↔ (
        (check_hunks (file_lines original e b) f.hunks ≡ none)
        × ((patched_lines (file_lines original e b) f.hunks b).0 ≡ new)))
      × (Patches 0 f.hunks (file_lines original e b) new
          → (final : Bool) × (apply_hunks_exact original f.hunks e b
              ≡ returned (
                join_lines e new ++ (if final then eol_text e else []),
                count_all is_insertion f.hunks,
                count_all is_deletion f.hunks,
              ))
            × (length new + count_all is_deletion f.hunks
                ≡ length (file_lines original e b) + count_all is_insertion f.hunks))
unfolding apply_hunks_exact
apply_hunks_exact_iff original e b f new w =
    let lines = file_lines original e b in
    let same = patched_lines-eq-patched_from lines f.hunks b in
    let counts = AreHunks-counts 0 0 f.hunks w.hunks in
    let fits : Patches 0 f.hunks lines new
        → (check_hunks lines f.hunks ≡ none) × ((patched_lines lines f.hunks b).0 ≡ new) =
      λ p.
        let (good, made) = Patches-checked lines 0 f.hunks new (omega arith) counts p in
        (good, same ∙ sym made) in
    (
      (
        fits,
        λ (good, made). subst (Patches 0 f.hunks lines) (sym same ∙ made) (
            checked-Patches lines 0 0 0 f.hunks (omega arith) (StartsAfter-zero f.hunks) w.ordered
              w.hunks good),
      ),
      λ p.
          let (good, made) = fits p in
          (
            (patched_lines lines f.hunks b).1,
            rw (apply_hunks_exact, good, made),
            patched_length 0 f.hunks lines new p,
          ),
    )

-- The reverse of a patch.
abbrev pub reverse_type : LineType → LineType
reverse_type context = context
reverse_type insert = delete
reverse_type delete = insert

abbrev pub reverse_line : HunkLine → HunkLine
reverse_line l = record l { type = reverse_type l.type }

abbrev pub reverse_hunk : ParsedHunk → ParsedHunk
reverse_hunk h = record {
  old_start = h.new_start;
  old_count = h.new_count;
  new_start = h.old_start;
  new_count = h.old_count;
  lines = map reverse_line h.lines;
}

pub old_lines-reverse : (ls : List HunkLine) → old_lines (map reverse_line ls) ≡ new_lines ls
unfolding old_lines new_lines
old_lines-reverse [] = refl
old_lines-reverse (l ∷ ls) = ground (arith, old_lines-reverse ls)

pub new_lines-reverse : (ls : List HunkLine) → new_lines (map reverse_line ls) ≡ old_lines ls
unfolding old_lines new_lines
new_lines-reverse [] = refl
new_lines-reverse (l ∷ ls) = ground (arith, new_lines-reverse ls)

-- Every hunk has a line.
abbrev pub NoneEmpty : List ParsedHunk → Type 0
NoneEmpty hs = All (λ (h : ParsedHunk). 1 ≤ h.old_count + h.new_count) hs

pub reversed_start :
    (h : ParsedHunk) (a r n n' : ℕ)
    → 1 ≤ h.old_count + h.new_count
    → is_consistent (header_of h) a r ≡ true
    → StartsAt h n
    → n' + r ≡ n + a
    → StartsAt (reverse_hunk h) n'
unfolding is_consistent
reversed_start h a r n n' some_line fits starts shift = ground arith
