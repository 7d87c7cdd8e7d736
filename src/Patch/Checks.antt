-- ===== src/Patch/Checks.antt =====
-- The checks of `applyHunksExact` (packages/filesystem/src/patch-engine.ts) pass exactly when the
-- patch fits the file, and then what it makes is what the patch means.
use cesspace_arc.Base.{
  ℕ, suc, ◌+◌, ◌≡◌, ◌↔◌, ◌⊎◌, refl, ap, ◌∙◌, true, false, none, some, List, [], ◌∷◌, ◌++◌, Text,
  text_eq_iff, length, get_elem?, drop, Option-cases, inl, inr, arith,
}
use cesspace_arc.Patch.Data.{LineType, context, insert, delete, HunkLine, is_old}
use cesspace_arc.Patch.Apply.{line_differs, check_lines, old_lines}
use cesspace_arc.Patch.Meaning.{drop-cons, get-drop}

Type-cases : (t : LineType) → (t ≡ insert) ⊎ (is_old t ≡ true)
Type-cases context = inr refl
Type-cases insert = inl refl
Type-cases delete = inr refl

line_same_iff :
    (lines : List Text) (i : ℕ) (c : Text)
    → (line_differs lines i c ≡ false) ↔ (get_elem? lines i ≡ some c)
unfolding line_differs
line_same_iff lines i c = elim (Option-cases (get_elem? lines i)) [
  | inl past ↦ (λ h. absurd (ground (arith, past)), λ h. absurd (cc))
  | inr (l, here) ↦
      (λ h. ground (arith, here, text_eq_iff l c), λ h. ground (arith, here, text_eq_iff l c))
]

module _ (lines : List Text) where
  -- A line that is checked and one that is not.
  check_old :
      (i : ℕ) (l : HunkLine) (ls : List HunkLine)
      → is_old l.type ≡ true
      → (check_lines lines i (l ∷ ls) ≡ none)
        ↔ ((get_elem? lines i ≡ some l.content) × (check_lines lines (i + 1) ls ≡ none))
  unfolding check_lines
  check_old i l ls old =
      let same = line_same_iff lines i l.content in
      (
        λ h. (same.0 (ground arith), ground arith),
        λ (here, rest).
            let equal : line_differs lines i l.content ≡ false = same.1 here in
            ground (arith, equal, rest),
      )

  check_new :
      (i : ℕ) (l : HunkLine) (ls : List HunkLine)
      → l.type ≡ insert
      → check_lines lines i (l ∷ ls) ≡ check_lines lines i ls
  unfolding check_lines
  check_new i l ls new = let e : i + 0 ≡ i = omega arith in ground (arith, new, e)

  pub checked-old_lines :
      (i : ℕ) (ls : List HunkLine)
      → check_lines lines i ls ≡ none
      → drop i lines ≡ old_lines ls ++ drop (i + length (old_lines ls)) lines
  unfolding old_lines
  checked-old_lines i [] h = let e : i + 0 ≡ i = omega arith in rw e
  checked-old_lines i (l ∷ ls) h = elim (Type-cases l.type) [
    | inl new ↦ rw new (checked-old_lines i ls (rw (← check_new i l ls new) h))
    | inr old ↦
        let (here, rest) = (check_old i l ls old).0 h in
        let e : i + suc (length (old_lines ls)) ≡ i + 1 + length (old_lines ls) = omega arith in
        rw (old, e)
          (drop-cons i lines l.content here
            ∙ ap (λ t. l.content ∷ t) (checked-old_lines (i + 1) ls rest))
  ]

  pub old_lines-checked :
      (i : ℕ) (ls : List HunkLine) (rest : List Text)
      → drop i lines ≡ old_lines ls ++ rest
      → check_lines lines i ls ≡ none
  unfolding old_lines
  old_lines-checked i [] rest h = unfold check_lines in refl
  old_lines-checked i (l ∷ ls) rest h = elim (Type-cases l.type) [
    | inl new ↦ check_new i l ls new ∙ old_lines-checked i ls rest (rw new at h)
    | inr old ↦
        let h' : drop i lines ≡ l.content ∷ (old_lines ls ++ rest) = rw old at h in
        let (here, tail) = get-drop i lines (old_lines ls ++ rest) l.content h' in
        (check_old i l ls old).1 (here, old_lines-checked (i + 1) ls rest tail)
  ]
