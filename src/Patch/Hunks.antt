-- ===== src/Patch/Hunks.antt =====
-- What the hunks of a parsed patch satisfy (packages/filesystem/src/patch-engine.ts): their lines are
-- as many as their headers say, and their new coordinates fit the old ones.
use cesspace_arc.Base.{
  ℕ, ◌+◌, ◌≡◌, refl, ap, true, List, [], ◌∷◌, ◌++◌, Text, length, if◌then◌else◌, arith,
}
use cesspace_arc.Patch.Data.{HunkLine, ParsedHunk, is_old, is_new}
use cesspace_arc.Patch.Headers.{HunkHeader}
use cesspace_arc.Patch.Parser.{is_consistent, mark_last, mark_hunk, mark_last_hunk}
use cesspace_arc.Patch.Apply.{old_lines, new_lines}

abbrev pub header_of : ParsedHunk → HunkHeader
header_of h = record {
  old_start = h.old_start;
  old_count = h.old_count;
  new_start = h.new_start;
  new_count = h.new_count;
}

abbrev pub HasCounts : ParsedHunk → Type 0
HasCounts h =
    (length (old_lines h.lines) ≡ h.old_count) × (length (new_lines h.lines) ≡ h.new_count)

-- Hunks after others with `added` new and `removed` old lines.
abbrev pub AreHunks : (added removed : ℕ) → List ParsedHunk → Type 0
AreHunks added removed [] = Unit
AreHunks added removed (h ∷ hs) =
    HasCounts h
    × (is_consistent (header_of h) added removed ≡ true)
    × AreHunks (added + h.new_count) (removed + h.old_count) hs

abbrev pub sum_new : List ParsedHunk → ℕ
sum_new [] = 0
sum_new (h ∷ hs) = h.new_count + sum_new hs

abbrev pub sum_old : List ParsedHunk → ℕ
sum_old [] = 0
sum_old (h ∷ hs) = h.old_count + sum_old hs

pub sum_new-append : (hs is : List ParsedHunk) → sum_new (hs ++ is) ≡ sum_new hs + sum_new is
sum_new-append [] is = omega arith
sum_new-append (h ∷ hs) is = omega (arith, sum_new-append hs is)

pub sum_old-append : (hs is : List ParsedHunk) → sum_old (hs ++ is) ≡ sum_old hs + sum_old is
sum_old-append [] is = omega arith
sum_old-append (h ∷ hs) is = omega (arith, sum_old-append hs is)

pub append-AreHunks :
    (a r : ℕ) (hs : List ParsedHunk) (h : ParsedHunk)
    → AreHunks a r hs
    → HasCounts h
    → is_consistent (header_of h) (a + sum_new hs) (r + sum_old hs) ≡ true
    → AreHunks a r (hs ++ h ∷ [])
append-AreHunks a r [] h w counts fits =
    let ea : a + 0 ≡ a = omega arith in
    let er : r + 0 ≡ r = omega arith in (counts, rw (ea, er) at fits, tt)
append-AreHunks a r (g ∷ hs) h (c, f, w) counts fits =
    let ea : a + (g.new_count + sum_new hs) ≡ a + g.new_count + sum_new hs = omega arith in
    let er : r + (g.old_count + sum_old hs) ≡ r + g.old_count + sum_old hs = omega arith in
    (c, f, append-AreHunks (a + g.new_count) (r + g.old_count) hs h w counts (rw (ea, er) at fits))

-- The marker for a missing line ending changes neither texts nor types.
old_lines-mark_last : (ls : List HunkLine) → old_lines (mark_last ls) ≡ old_lines ls
unfolding old_lines
old_lines-mark_last [] = refl
old_lines-mark_last (l ∷ []) = refl
old_lines-mark_last (l ∷ m ∷ ls) = rw (old_lines-mark_last (m ∷ ls))

new_lines-mark_last : (ls : List HunkLine) → new_lines (mark_last ls) ≡ new_lines ls
unfolding new_lines
new_lines-mark_last [] = refl
new_lines-mark_last (l ∷ []) = refl
new_lines-mark_last (l ∷ m ∷ ls) = rw (new_lines-mark_last (m ∷ ls))

pub mark_hunk-HasCounts : (h : ParsedHunk) → HasCounts h → HasCounts (mark_hunk h)
mark_hunk-HasCounts h (o, n) =
    (rw (old_lines-mark_last h.lines) o, rw (new_lines-mark_last h.lines) n)

pub mark-AreHunks :
    (a r : ℕ) (hs : List ParsedHunk) → AreHunks a r hs → AreHunks a r (mark_last_hunk hs)
mark-AreHunks a r [] w = w
mark-AreHunks a r (h ∷ []) (c, f, _) = (mark_hunk-HasCounts h c, f, tt)
mark-AreHunks a r (h ∷ i ∷ hs) (c, f, w) =
    (c, f, mark-AreHunks (a + h.new_count) (r + h.old_count) (i ∷ hs) w)

pub sums-mark :
    (hs : List ParsedHunk)
    → (sum_new (mark_last_hunk hs) ≡ sum_new hs) × (sum_old (mark_last_hunk hs) ≡ sum_old hs)
sums-mark [] = (refl, refl)
sums-mark (h ∷ []) = (refl, refl)
sums-mark (h ∷ i ∷ hs) =
    let (n, o) = sums-mark (i ∷ hs) in (ap (λ t. h.new_count + t) n, ap (λ t. h.old_count + t) o)

pub length-mark_last_old :
    (ls : List HunkLine) → length (old_lines (mark_last ls)) ≡ length (old_lines ls)
length-mark_last_old ls = ap (λ (t : List Text). length t) (old_lines-mark_last ls)

pub length-mark_last_new :
    (ls : List HunkLine) → length (new_lines (mark_last ls)) ≡ length (new_lines ls)
length-mark_last_new ls = ap (λ (t : List Text). length t) (new_lines-mark_last ls)

pub length-old_push :
    (ls : List HunkLine) (l : HunkLine)
    → length (old_lines (ls ++ l ∷ [])) ≡ length (old_lines ls) + (if is_old l.type then 1 else 0)
unfolding old_lines
length-old_push [] l = ground arith
length-old_push (m ∷ ls) l = ground (arith, length-old_push ls l)

pub length-new_push :
    (ls : List HunkLine) (l : HunkLine)
    → length (new_lines (ls ++ l ∷ [])) ≡ length (new_lines ls) + (if is_new l.type then 1 else 0)
unfolding new_lines
length-new_push [] l = ground arith
length-new_push (m ∷ ls) l = ground (arith, length-new_push ls l)
