-- ===== src/Glob/Paths.antt =====
-- Which patterns and targets `matchPathGlob` (packages/policy/src/restricted-glob.ts) accepts at
-- all, and that a segment pattern stays within its segment.
use cesspace_arc.Base.{
  ℕ, ◌≤◌, ◌≡◌, refl, ◌↔◌, true, false, none, some, List, [], ◌∷◌, ◌++◌, Text, text_eq, length, any,
  map, ◌==◌, Bool-cases, Option-cases, inl, inr, arith, ==_iff,
}
use cesspace_arc.Glob.Matcher.{
  max_target_path_length, slash, backslash, double_star, contains, starts_with, split,
  unsafe_segment, validate_path_pattern, normalize_target_path, compile_path_pattern, match_each,
  match_compiled_pattern, match_path_glob,
}
use cesspace_arc.Glob.Language.{segment_token, Fits}
use cesspace_arc.Glob.Patterns.{match_compiled_iff}

-- The segments with the separator between them.
unfoldable pub join : List Text → Text
join [] = []
join (s ∷ []) = s
join (s ∷ t ∷ ss) = s ++ slash ∷ join (t ∷ ss)

join-push_front : (c : ℕ) (s : Text) (ss : List Text) → join ((c ∷ s) ∷ ss) ≡ c ∷ join (s ∷ ss)
unfolding join
join-push_front c s [] = refl
join-push_front c s (t ∷ ss) = refl

split-nonempty : (t : Text) → (s : Text) × (ss : List Text) × (split t ≡ s ∷ ss)
unfolding split
split-nonempty [] = ([], [], refl)
split-nonempty (c ∷ t) =
    let (s, ss, e) = split-nonempty t in
    elim (Bool-cases (c == slash)) [
      | inl here ↦ ([], split t, rw here)
      | inr other ↦ (c ∷ s, ss, rw (other, e))
    ]

-- Splitting a path and joining its segments gives the path back, and no segment contains the
-- separator.
pub split-join : (t : Text) → (join (split t) ≡ t) × (any (contains slash) (split t) ≡ false)
unfolding split join contains
split-join [] = (refl, refl)
split-join (c ∷ t) =
    let (s, ss, e) = split-nonempty t in
    let (back, clean) = split-join t in
    elim (Bool-cases (c == slash)) [
      | inl here ↦ rw (here, e) (ground (arith, (rw e at back), (rw e at clean), ==_iff c slash))
      | inr other ↦
          rw (other, e, join-push_front c s ss) (ground (arith, (rw e at back), (rw e at clean)))
    ]

-- What `normalizeTargetPath` asks of a target.
pub record IsSafePath (t : Text) : Type 0 where
  pub short : length t ≤ max_target_path_length
  pub no_nul : contains 0 t ≡ false
  pub no_backslash : contains backslash t ≡ false
  pub segments : any unsafe_segment (split t) ≡ false

slash_first-unsafe : (t : Text) → starts_with slash t ≡ true → any unsafe_segment (split t) ≡ true
unfolding starts_with split unsafe_segment
slash_first-unsafe [] h = absurd (cc)
slash_first-unsafe (c ∷ t) h = rw h

empty-unsafe : (t : Text) → (length t == 0) ≡ true → any unsafe_segment (split t) ≡ true
unfolding split unsafe_segment
empty-unsafe [] h = refl
empty-unsafe (c ∷ t) h = absurd (ground arith)

pub normalize_iff : (t u : Text) → (normalize_target_path t ≡ some u) ↔ ((u ≡ t) × IsSafePath t)
unfolding normalize_target_path
normalize_iff t u = (
  λ h. (
    ground arith,
    record {
      short = ground arith;
      no_nul = ground arith;
      no_backslash = ground arith;
      segments = ground arith;
    },
  ),
  λ (e, safe). ground (
    arith,
    safe.short,
    safe.no_nul,
    safe.no_backslash,
    safe.segments,
    slash_first-unsafe t,
    empty-unsafe t,
  ),
)

-- `matchPathGlob` holds exactly if the pattern is valid, the target is safe, and the segments of the
-- target are cut along those of the pattern; in all other cases it is false.
pub match_path_glob_iff :
    (p t : Text)
    → (match_path_glob p t ≡ true) ↔ (
        (validate_path_pattern p ≡ none)
        × IsSafePath t
        × Fits (map segment_token (split p)) (split t))
unfolding match_path_glob compile_path_pattern
match_path_glob_iff p t = elim (Option-cases (validate_path_pattern p)) [
  | inr (reason, bad) ↦ rw bad (λ h. absurd (cc), λ (v, _, _). absurd (cc))
  | inl good ↦ elim (Option-cases (normalize_target_path t)) [
    | inl refused ↦
        rw (good, match_path_glob, compile_path_pattern, refused)
          (
            λ h. absurd (cc),
            λ (_, safe, _). absurd (cc (refused, (normalize_iff t t).1 (refl, safe))),
          )
    | inr (u, kept) ↦
        let (e, safe) = (normalize_iff t u).0 kept in
        let (matched, fits) = match_compiled_iff (split p) t in
        rw (good, match_path_glob, compile_path_pattern, kept, e)
          (λ h. (refl, safe, matched h), λ (_, _, f). fits f)
  ]
]

match_each-depth : (ps l : List Text) → match_each ps l ≡ true → length l ≡ length ps
unfolding match_each
match_each-depth [] [] h = refl
match_each-depth [] (x ∷ l) h = absurd (cc)
match_each-depth (p ∷ ps) [] h = absurd (cc)
match_each-depth (p ∷ ps) (x ∷ l) h = ground (arith, match_each-depth ps l)

-- Without a `**` segment a compiled pattern matches only targets that have as many segments as it
-- has, so that an asterisk never crosses a separator.
pub same_depth :
    (ps : List Text) (target : Text)
    → any (λ p. text_eq p double_star) ps ≡ false
    → match_compiled_pattern ps target ≡ true
    → length (split target) ≡ length ps
unfolding match_compiled_pattern
same_depth ps target flat h = match_each-depth ps (split target) (rw flat at h)
