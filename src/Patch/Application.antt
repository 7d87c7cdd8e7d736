-- ===== src/Patch/Application.antt =====
-- `applyHunksExact` (packages/filesystem/src/patch-engine.ts) makes what the patch means, exactly when
-- the patch fits the file.
use cesspace_arc.Base.{
  ℕ, ◌+◌, ◌-◌, ◌≤◌, ◌≡◌, refl, sym, subst, ap, ◌∙◌, true, false, none, List, [], ◌∷◌, ◌++◌, Text,
  length, length-append, take, drop, Bool-cases, Option-cases, inl, inr, arith,
}
use cesspace_arc.Patch.Data.{ParsedHunk}
use cesspace_arc.Patch.Parser.{hunk_end, in_order}
use cesspace_arc.Patch.Apply.{
  hunk_start, check_lines, is_out_of_bounds, check_hunks, old_lines, new_lines, between,
}
use cesspace_arc.Patch.Hunks.{HasCounts, AreHunks}
use cesspace_arc.Patch.Meaning.{
  StartsAt, Patches, drop-drop, take-drop, length-take, length-drop, drop-append, take-append,
  patched_from,
}
use cesspace_arc.Patch.Checks.{checked-old_lines, old_lines-checked}

-- The first hunk is not before the cursor.
abbrev pub StartsAfter : ℕ → List ParsedHunk → Type 0
StartsAfter c [] = Unit
StartsAfter c (h ∷ hs) = c ≤ hunk_start h

room :
    (lines : List Text) (h : ParsedHunk)
    → is_out_of_bounds lines h ≡ false
    → StartsAt h (hunk_start h) × (hunk_start h + h.old_count ≤ length lines)
unfolding is_out_of_bounds hunk_start
room lines h e = (ground arith, ground arith)

next_after :
    (h : ParsedHunk) (hs : List ParsedHunk)
    → StartsAt h (hunk_start h)
    → in_order (h ∷ hs) ≡ true
    → StartsAfter (hunk_start h + h.old_count) hs × (in_order hs ≡ true)
unfolding in_order hunk_end hunk_start
next_after h [] starts o = (tt, refl)
next_after h (i ∷ hs) starts o = (ground arith, ground arith)

-- Every hunk has the lines of its header.
abbrev pub HaveCounts : List ParsedHunk → Type 0
HaveCounts [] = Unit
HaveCounts (h ∷ hs) = HasCounts h × HaveCounts hs

module _ (lines : List Text) where
  checks :
      (h : ParsedHunk) (hs : List ParsedHunk)
      → check_hunks lines (h ∷ hs) ≡ none
      → (is_out_of_bounds lines h ≡ false)
        × (check_lines lines (hunk_start h) h.lines ≡ none)
        × (check_hunks lines hs ≡ none)
  unfolding check_hunks
  checks h hs e = elim (Bool-cases (is_out_of_bounds lines h)) [
    | inl out ↦ absurd (cc (rw out at e))
    | inr inside ↦ elim (Option-cases (check_lines lines (hunk_start h) h.lines)) [
      | inr (x, bad) ↦ absurd (cc (rw (check_hunks, inside, bad) at e))
      | inl good ↦ (inside, good, (rw (check_hunks, inside, good) at e))
    ]
  ]

  pub checked-Patches :
      (a r c : ℕ) (hs : List ParsedHunk)
      → c ≤ length lines
      → StartsAfter c hs
      → in_order hs ≡ true
      → AreHunks a r hs
      → check_hunks lines hs ≡ none
      → Patches c hs (drop c lines) (patched_from lines c hs)
  unfolding patched_from between
  checked-Patches a r c [] within after ordered w e = refl
  checked-Patches a r c (h ∷ hs) within after ordered ((counts, _), _, w) e =
      let (inside, good, rest_good) = checks h hs e in
      let (starts, fits) = room lines h inside in
      let st = hunk_start h in
      let (after', ordered') = next_after h hs starts ordered in
      let gap = take (st - c) (drop c lines) in
      let size : length gap ≡ st - c =
        length-take (st - c) (drop c lines) (omega (arith, length-drop c lines, fits)) in
      let here : c + length gap ≡ st = omega (arith, size, after) in
      let old : drop (st - c) (drop c lines) ≡ old_lines h.lines ++ drop (st + h.old_count) lines =
        let sum : c + (st - c) ≡ st = omega (arith, after) in
        drop-drop c (st - c) lines
        ∙ ap (λ k. drop k lines) sum
        ∙ subst (λ k. drop st lines ≡ old_lines h.lines ++ drop (st + k) lines) counts
            (checked-old_lines lines st h.lines good) in
      let next : c + length gap + length (old_lines h.lines) ≡ st + h.old_count =
        omega (arith, here, counts) in
      (
        gap,
        drop (st + h.old_count) lines,
        patched_from lines (st + h.old_count) hs,
        subst (StartsAt h) (sym here) starts,
        sym (take-drop (st - c) (drop c lines)) ∙ ap (λ t. gap ++ t) old,
        refl,
        subst
            (λ (k : ℕ).
              Patches k hs (drop (st + h.old_count) lines)
                (patched_from lines (st + h.old_count) hs))
            (sym next)
            (checked-Patches (a + h.new_count) (r + h.old_count) (st + h.old_count) hs fits after'
              ordered' w rest_good),
      )

  start_of : (h : ParsedHunk) (n : ℕ) → StartsAt h n → hunk_start h ≡ n
  unfolding hunk_start
  start_of h n e = ground arith

  inside_bounds :
      (h : ParsedHunk) (n : ℕ)
      → StartsAt h n
      → n + h.old_count ≤ length lines
      → is_out_of_bounds lines h ≡ false
  unfolding is_out_of_bounds hunk_start
  inside_bounds h n e fits = ground arith

  passes :
      (h : ParsedHunk) (hs : List ParsedHunk)
      → is_out_of_bounds lines h ≡ false
      → check_lines lines (hunk_start h) h.lines ≡ none
      → check_hunks lines hs ≡ none
      → check_hunks lines (h ∷ hs) ≡ none
  unfolding check_hunks
  passes h hs inside good rest = rw (check_hunks, inside, good, rest)

  pub Patches-checked :
      (c : ℕ) (hs : List ParsedHunk) (new : List Text)
      → c ≤ length lines
      → HaveCounts hs
      → Patches c hs (drop c lines) new
      → (check_hunks lines hs ≡ none) × (new ≡ patched_from lines c hs)
  unfolding patched_from
  Patches-checked c [] new within counts e = ((unfold check_hunks in refl), e)
  Patches-checked c (h ∷ hs) new within ((old_size, _), counts)
        (gap, rest, rest', starts, eo, en, later) =
      let n = c + length gap in
      let at : hunk_start h ≡ n = start_of h n starts in
      let from_n : drop n lines ≡ old_lines h.lines ++ rest =
        sym (drop-drop c (length gap) lines)
        ∙ ap (λ t. drop (length gap) t) eo
        ∙ drop-append gap (old_lines h.lines ++ rest) in
      let total : length lines - c ≡ length gap + (length (old_lines h.lines) + length rest) =
        omega (
          arith,
          length-drop c lines,
          ap (λ (t : List Text). length t) eo,
          length-append gap (old_lines h.lines ++ rest),
          length-append (old_lines h.lines) rest,
        ) in
      let fits : n + length (old_lines h.lines) ≤ length lines = omega (arith, total, within) in
      let tail : rest ≡ drop (n + length (old_lines h.lines)) lines = sym (
        sym (drop-drop n (length (old_lines h.lines)) lines)
        ∙ ap (λ t. drop (length (old_lines h.lines)) t) from_n
        ∙ drop-append (old_lines h.lines) rest) in
      let (rest_good, rest_new) =
        Patches-checked (n + length (old_lines h.lines)) hs rest' fits counts
          (subst (λ t. Patches (n + length (old_lines h.lines)) hs t rest') tail later) in
      let cut : between lines c n ≡ gap =
        let d : n - c ≡ length gap = omega arith in
        unfold between in
        ap (λ k. take k (drop c lines)) d
        ∙ ap (λ t. take (length gap) t) eo
        ∙ take-append gap (old_lines h.lines ++ rest) in
      let next : n + length (old_lines h.lines) ≡ n + h.old_count = ap (λ k. n + k) old_size in
      let result : new
          ≡ between lines c n ++ (new_lines h.lines ++ patched_from lines (n + h.old_count) hs) =
        en
        ∙ ap (λ t. t ++ (new_lines h.lines ++ rest')) (sym cut)
        ∙ ap (λ t. between lines c n ++ (new_lines h.lines ++ t))
            (rest_new ∙ ap (λ k. patched_from lines k hs) next) in
      (
        passes h hs (inside_bounds h n starts (omega (arith, fits, old_size)))
            (subst (λ k. check_lines lines k h.lines ≡ none) (sym at)
              (old_lines-checked lines n h.lines rest from_n))
            rest_good,
        subst
            (λ k.
              new
              ≡ between lines c k ++ (new_lines h.lines ++ patched_from lines (k + h.old_count) hs))
            (sym at) result,
      )
