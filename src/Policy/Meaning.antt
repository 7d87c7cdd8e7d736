-- ===== src/Policy/Meaning.antt =====
-- What a policy document means, apart from its normal form and its compilation, and that compiled
-- rules of the normal form match by it (packages/policy/src/declarative-policy.ts).
use cesspace_arc.Base.{
  ◌≡◌, refl, sym, ap, subst, ◌∙◌, Bool, true, false, ◌&&◌, Option, none, some, >>=-eq-some,
  eq_of_some, List, [], ◌∷◌, Text, has, any, map, if◌then◌else◌, arith,
}
use cesspace_arc.Glob.Matcher.{split, compile_path_pattern, match_compiled_pattern}
use cesspace_arc.Policy.Documents.{PolicyEffect, Commands, Git, ParsedRule}
use cesspace_arc.Policy.Normal.{
  sorted_unique, normal_matcher, normal_commands, normal_git, normal_rule,
}
use cesspace_arc.Policy.Engine.{
  CompiledRule, compile_each, compile_patterns, binaries_of, branches_of, actions_of, compile_rule,
  compile_rules,
}
use cesspace_arc.Policy.Evaluation.{
  Target, Winner, in_set, some_pattern, usable_branch, rule_matches, wins_over, resolve,
}
use cesspace_arc.Policy.Winner.{beats, wins_over-eq-beats}
use cesspace_arc.Policy.Unique.{any-sorted_unique, has-sorted_unique}

-- A matcher that is absent or empty covers everything, any other one only a value that is present.
unfoldable pub covers_value : Option (List Text) → Option Text → Bool
covers_value none x = true
covers_value (some []) x = true
covers_value (some (v ∷ values)) none = false
covers_value (some (v ∷ values)) (some x) = has x (v ∷ values)

unfoldable pub covers_path : Option (List Text) → Option Text → Bool
covers_path none x = true
covers_path (some []) x = true
covers_path (some (p ∷ patterns)) none = false
covers_path (some (p ∷ patterns)) (some x) =
    any (λ q. match_compiled_pattern (split q) x) (p ∷ patterns)

-- The allowed binaries where there are any, otherwise the blocked ones.
unfoldable pub meant_binaries : Option Commands → Option (List Text)
meant_binaries none = none
meant_binaries (some c) = elim c.allowed_binaries [
  | some (v ∷ values) ↦ some (v ∷ values)
  | _ ↦ c.blocked_binaries
]

unfoldable pub rule_covers : ParsedRule → Target → Bool
rule_covers r target =
    covers_value r.tools (some target.tool_name)
    && covers_path r.paths target.path
    && covers_value (meant_binaries r.commands) target.executable_basename
    && covers_path (branches_of r.git) (usable_branch target.git_branch)
    && covers_value (actions_of r.git) target.git_action

abbrev goes_before : PolicyEffect × Text → Winner → Bool
goes_before k none = true
goes_before k (some w) = beats k w

-- The rule that decides: of those that cover the target, the first by effect and id.
unfoldable pub document_winner : List ParsedRule → Target → Winner → Winner
document_winner [] target winner = winner
document_winner (r ∷ rules) target winner = document_winner rules target (
    if rule_covers r target && goes_before (r.effect, r.id) winner
    then some (r.effect, r.id)
    else winner)

in_set-normal :
    (m : Option (List Text)) (x : Option Text) → in_set (normal_matcher m) x ≡ covers_value m x
unfolding in_set normal_matcher covers_value
in_set-normal none x = refl
in_set-normal (some []) x = refl
in_set-normal (some (v ∷ values)) none = refl
in_set-normal (some (v ∷ values)) (some x) = has-sorted_unique x (v ∷ values)

compiled_segments : (p : Text) (s : List Text) → compile_path_pattern p ≡ some s → s ≡ split p
unfolding compile_path_pattern
compiled_segments p s h = ground arith

compile_each-any :
    (x : Text) (ps : List Text) (cs : List (List Text))
    → compile_each ps ≡ some cs
    → any (λ p. match_compiled_pattern p x) cs ≡ any (λ q. match_compiled_pattern (split q) x) ps
unfolding compile_each
compile_each-any x [] cs h = rw (sym (eq_of_some h))
compile_each-any x (p ∷ ps) cs h =
    let (s, e, h1) = >>=-eq-some (compile_path_pattern p) _ h in
    let (rest, e', h2) = >>=-eq-some (compile_each ps) _ h1 in
    rw (sym (eq_of_some h2), compile_each-any x ps rest e', compiled_segments p s e)

some_pattern-normal :
    (m : Option (List Text)) (c : Option (List (List Text))) (x : Option Text)
    → compile_patterns (normal_matcher m) ≡ some c
    → some_pattern c x ≡ covers_path m x
unfolding compile_patterns normal_matcher some_pattern covers_path
some_pattern-normal none c x h = rw (sym (eq_of_some h))
some_pattern-normal (some []) c x h = rw (sym (eq_of_some h))
some_pattern-normal (some (p ∷ ps)) c none h =
    let (cs, e, h1) = >>=-eq-some (compile_each (sorted_unique (p ∷ ps))) _ h in
    rw (sym (eq_of_some h1))
some_pattern-normal (some (p ∷ ps)) c (some x) h =
    let (cs, e, h1) = >>=-eq-some (compile_each (sorted_unique (p ∷ ps))) _ h in
    rw (sym (eq_of_some h1)) (
      compile_each-any x (sorted_unique (p ∷ ps)) cs e
      ∙ any-sorted_unique (λ q. match_compiled_pattern (split q) x) (p ∷ ps))

in_set-binaries :
    (c : Option Commands) (x : Option Text)
    → in_set (binaries_of (normal_commands c)) x ≡ covers_value (meant_binaries c) x
unfolding normal_commands meant_binaries normal_matcher in_set covers_value
in_set-binaries none x = refl
in_set-binaries (some c) x =
    ground (arith, in_set-normal c.allowed_binaries x, in_set-normal c.blocked_binaries x)

branches-normal : (g : Option Git) → branches_of (normal_git g) ≡ normal_matcher (branches_of g)
unfolding normal_git normal_matcher
branches-normal none = refl
branches-normal (some g) = ground arith

actions-normal : (g : Option Git) → actions_of (normal_git g) ≡ normal_matcher (actions_of g)
unfolding normal_git normal_matcher
actions-normal none = refl
actions-normal (some g) = ground arith

-- A compiled rule of the normal form matches exactly the targets that the rule covers.
compile_rule-normal :
    (r : ParsedRule) (c : CompiledRule) (t : Target)
    → compile_rule (normal_rule r) ≡ some c
    → (rule_matches c t ≡ rule_covers r t) × (c.effect ≡ r.effect) × (c.id ≡ r.id)
unfolding compile_rule normal_rule rule_matches rule_covers
compile_rule-normal r c t h =
    let (ps, ep, h1) = >>=-eq-some (compile_patterns (normal_matcher r.paths)) _ h in
    let (bs, eb, h2) = >>=-eq-some (compile_patterns (branches_of (normal_git r.git))) _ h1 in
    let e = eq_of_some h2 in
    let b =
      some_pattern-normal (branches_of r.git) bs (usable_branch t.git_branch)
        (subst (λ x. compile_patterns x ≡ some bs) (branches-normal r.git) eb) in
    (
      rw (sym e) (
          rw (
            in_set-normal r.tools (some t.tool_name),
            some_pattern-normal r.paths ps t.path ep,
            in_set-binaries r.commands t.executable_basename,
            b,
            actions-normal r.git,
            in_set-normal (actions_of r.git) t.git_action,
          )),
      ap (λ (x : CompiledRule). x.effect) (sym e),
      ap (λ (x : CompiledRule). x.id) (sym e),
    )

wins_over-goes_before :
    (c : CompiledRule) (w : Winner) → wins_over c w ≡ goes_before (c.effect, c.id) w
unfolding wins_over
wins_over-goes_before c none = refl
wins_over-goes_before c (some k) = wins_over-eq-beats c k

pub resolve-document :
    (rules : List ParsedRule) (cs : List CompiledRule) (t : Target) (w : Winner)
    → compile_rules (map normal_rule rules) ≡ some cs
    → resolve cs t w ≡ document_winner rules t w
unfolding compile_rules resolve document_winner
resolve-document [] cs t w h = rw (sym (eq_of_some h))
resolve-document (r ∷ rules) cs t w h =
    let (c, e, h1) = >>=-eq-some (compile_rule (normal_rule r)) _ h in
    let (rest, e', h2) = >>=-eq-some (compile_rules (map normal_rule rules)) _ h1 in
    let (m, f, i) = compile_rule-normal r c t e in
    let same : (if rule_matches c t && wins_over c w then some (c.effect, c.id) else w)
        ≡ (if rule_covers r t && goes_before (r.effect, r.id) w then some (r.effect, r.id) else w) =
      rw (m, wins_over-goes_before c w, f, i) in
    subst (λ l. resolve l t w ≡ document_winner (r ∷ rules) t w) (eq_of_some h2)
      (ap (resolve rest t) same ∙ resolve-document rules rest t _ e')
