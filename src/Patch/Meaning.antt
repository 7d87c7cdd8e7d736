-- ===== src/Patch/Meaning.antt =====
-- What a patch means: a relation of the old lines to the new ones that does not speak of cursors, and
-- that what `applyHunksExact` (packages/filesystem/src/patch-engine.ts) makes stands in it.
use cesspace_arc.Base.{
  ℕ, zero, suc, ◌+◌, ◌-◌, ◌≤◌, ◌≡◌, refl, ap, ◌∙◌, Bool, some, List, [], ◌∷◌, ◌++◌, Text, length,
  get_elem?, take, drop, ◌==◌, if◌then◌else◌, arith,
}
use cesspace_arc.Patch.Data.{ParsedHunk}
use cesspace_arc.Patch.Apply.{
  hunk_start, old_lines, new_lines, between, Patched, patch_hunk, patch_hunks, unpatched,
  patched_lines,
}

-- The hunk stands before the line with index `n`; lines count from 1, and a hunk without old lines
-- names the line before it.
abbrev pub StartsAt : ParsedHunk → ℕ → Type 0
StartsAt h n = (if h.old_count == 0 then n else suc n) ≡ h.old_start

-- From the line with index `at` on, `old` becomes `new`: lines between the hunks are kept, and in the
-- place of the old lines of a hunk are its new ones.
abbrev pub Patches : (at : ℕ) → List ParsedHunk → (old new : List Text) → Type 0
Patches at [] old new = new ≡ old
Patches at (h ∷ hs) old new =
    (gap : List Text) × (rest : List Text) × (rest' : List Text) × StartsAt h (at + length gap)
    × (old ≡ gap ++ (old_lines h.lines ++ rest))
    × (new ≡ gap ++ (new_lines h.lines ++ rest'))
    × Patches (at + length gap + length (old_lines h.lines)) hs rest rest'

pub append_assoc {ℓ} : {A : Type ℓ} (xs ys zs : List A) → (xs ++ ys) ++ zs ≡ xs ++ (ys ++ zs)
append_assoc [] ys zs = refl
append_assoc (x ∷ xs) ys zs = ap (λ l. x ∷ l) (append_assoc xs ys zs)

module _ {ℓ} {A : Type ℓ} where
  pub drop-drop : (n m : ℕ) (xs : List A) → drop m (drop n xs) ≡ drop (n + m) xs
  drop-drop zero m xs = let e : 0 + m ≡ m = omega arith in rw e
  drop-drop (suc n) zero [] = let e : suc n + 0 ≡ suc n = omega arith in rw e
  drop-drop (suc n) (suc m) [] = let e : suc n + suc m ≡ suc (n + suc m) = omega arith in rw e
  drop-drop (suc n) m (x ∷ xs) =
      let e : suc n + m ≡ suc (n + m) = omega arith in rw e (drop-drop n m xs)

  pub take-drop : (n : ℕ) (xs : List A) → take n xs ++ drop n xs ≡ xs
  take-drop zero xs = refl
  take-drop (suc n) [] = refl
  take-drop (suc n) (x ∷ xs) = ap (λ l. x ∷ l) (take-drop n xs)

  pub length-take : (n : ℕ) (xs : List A) → n ≤ length xs → length (take n xs) ≡ n
  length-take zero xs h = refl
  length-take (suc n) [] h = absurd (omega arith)
  length-take (suc n) (x ∷ xs) h = ap suc (length-take n xs (omega arith))

  pub length-drop : (n : ℕ) (xs : List A) → length (drop n xs) ≡ length xs - n
  length-drop zero xs = omega arith
  length-drop (suc n) [] = omega arith
  length-drop (suc n) (x ∷ xs) = omega (arith, length-drop n xs)

  pub drop-append : (xs ys : List A) → drop (length xs) (xs ++ ys) ≡ ys
  drop-append [] ys = refl
  drop-append (x ∷ xs) ys = drop-append xs ys

  pub take-append : (xs ys : List A) → take (length xs) (xs ++ ys) ≡ xs
  take-append [] ys = refl
  take-append (x ∷ xs) ys = ap (λ l. x ∷ l) (take-append xs ys)

  -- An element, and what follows it.
  pub drop-cons :
      (n : ℕ) (xs : List A) (x : A) → get_elem? xs n ≡ some x → drop n xs ≡ x ∷ drop (n + 1) xs
  drop-cons n [] x h = absurd (cc)
  drop-cons zero (y ∷ xs) x h = ground arith
  drop-cons (suc n) (y ∷ xs) x h =
      let e : suc n + 1 ≡ suc (n + 1) = omega arith in rw e (drop-cons n xs x h)

  pub get-drop :
      (n : ℕ) (xs ys : List A) (x : A)
      → drop n xs ≡ x ∷ ys
      → (get_elem? xs n ≡ some x) × (drop (n + 1) xs ≡ ys)
  get-drop zero [] ys x h = absurd (cc)
  get-drop (suc n) [] ys x h = absurd (cc)
  get-drop zero (y ∷ xs) ys x h = (cc, cc)
  get-drop (suc n) (y ∷ xs) ys x h =
      let e : suc n + 1 ≡ suc (n + 1) = omega arith in
      let (found, rest) = get-drop n xs ys x h in (found, rw e rest)

-- The lines that `patchedText` is joined from, without an accumulator.
unfoldable pub patched_from : List Text → (cursor : ℕ) → List ParsedHunk → List Text
patched_from lines cursor [] = drop cursor lines
patched_from lines cursor (h ∷ hs) =
    between lines cursor (hunk_start h)
    ++ (new_lines h.lines ++ patched_from lines (hunk_start h + h.old_count) hs)

patch_hunks-eq-patched_from :
    (lines : List Text) (hs : List ParsedHunk) (p : Patched)
    → (patch_hunks lines hs p).lines ++ drop (patch_hunks lines hs p).cursor lines
      ≡ p.lines ++ patched_from lines p.cursor hs
unfolding patch_hunks patch_hunk patched_from
patch_hunks-eq-patched_from lines [] p = refl
patch_hunks-eq-patched_from lines (h ∷ hs) p =
    let gap = between lines p.cursor (hunk_start h) in
    let rest = patched_from lines (hunk_start h + h.old_count) hs in
    patch_hunks-eq-patched_from lines hs (patch_hunk lines h p)
    ∙ append_assoc p.lines (gap ++ new_lines h.lines) rest
    ∙ ap (λ l. p.lines ++ l) (append_assoc gap (new_lines h.lines) rest)

pub patched_lines-eq-patched_from :
    (lines : List Text) (hs : List ParsedHunk) (b : Bool)
    → (patched_lines lines hs b).0 ≡ patched_from lines 0 hs
unfolding patched_lines
patched_lines-eq-patched_from lines hs b = patch_hunks-eq-patched_from lines hs unpatched
