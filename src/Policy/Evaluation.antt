-- ===== src/Policy/Evaluation.antt =====
-- `evaluate` and `ruleMatches` of `DeclarativePolicyEngine`,
-- packages/policy/src/declarative-policy.ts. The explanation of a decision is given by its kind.
use cesspace_arc.Base.{
  ℕ, Bool, true, false, not, ◌&&◌, ◌||◌, Option, none, some, List, [], ◌∷◌, Text, text, has, length,
  any, is_some, ltb, ◌==◌, if◌then◌else◌,
}
use cesspace_arc.Glob.Matcher.{
  slash, backslash, contains, normalize_target_path, match_compiled_pattern,
}
use cesspace_arc.Policy.Order.{compare_strings, is_before}
use cesspace_arc.Policy.Tools.{rc03_mutation_tools}
use cesspace_arc.Policy.Documents.{PolicyEffect, deny, require_approval, allow}
use cesspace_arc.Policy.Engine.{CompiledRule, SourceMode, built_in, external, Engine}

pub record Target : Type 0 where
  pub tool_name : Text
  pub path : Option Text
  pub executable_basename : Option Text
  pub git_branch : Option Text
  pub git_action : Option Text

abbrev pub effect_rank : PolicyEffect → ℕ
effect_rank deny = 0
effect_rank require_approval = 1
effect_rank allow = 2

pub data PolicyOutcome : Type 0 where
  denied approval_required allowed : PolicyOutcome

abbrev pub effect_to_outcome : PolicyEffect → PolicyOutcome
effect_to_outcome deny = denied
effect_to_outcome require_approval = approval_required
effect_to_outcome allow = allowed

pub data Explanation : Type 0 where
  invalid_target invalid_path invalid_basename not_in_built_in no_rule : Explanation
  approval_floor allowed_by_rule resolved_by_rule : Explanation

pub record Decision : Type 0 where
  pub outcome : PolicyOutcome
  pub effect : PolicyEffect
  pub matching_rule_id : Text
  pub reason : Explanation

abbrev pub deny_decision : Text → Explanation → Decision
deny_decision id reason = record {
  outcome = denied;
  effect = deny;
  matching_rule_id = id;
  reason = reason;
}

-- `set === null || set.has(x)`, where an absent `x` is in no set.
unfoldable pub in_set : Option (List Text) → Option Text → Bool
in_set none x = true
in_set (some set) none = false
in_set (some set) (some x) = has x set

-- The same for patterns.
unfoldable pub some_pattern : Option (List (List Text)) → Option Text → Bool
some_pattern none x = true
some_pattern (some patterns) none = false
some_pattern (some patterns) (some x) = any (λ p. match_compiled_pattern p x) patterns

-- A branch that is no safe relative path is like an absent one.
unfoldable pub usable_branch : Option Text → Option Text
usable_branch none = none
usable_branch (some b) = normalize_target_path b

unfoldable pub rule_matches : CompiledRule → Target → Bool
rule_matches r target =
    in_set r.tools (some target.tool_name)
    && some_pattern r.path_patterns target.path
    && in_set r.command_binaries target.executable_basename
    && some_pattern r.git_branch_patterns (usable_branch target.git_branch)
    && in_set r.git_actions target.git_action

-- The winner so far: its effect and its id.
abbrev pub Winner : Type 0
Winner = Option (PolicyEffect × Text)

-- Whether the rule takes the place of the winner so far.
unfoldable pub wins_over : CompiledRule → Winner → Bool
wins_over r none = true
wins_over r (some (effect, id)) =
    ltb (effect_rank r.effect) (effect_rank effect)
    || (effect_rank r.effect == effect_rank effect && is_before (compare_strings r.id id))

unfoldable pub resolve : List CompiledRule → Target → Winner → Winner
resolve [] target winner = winner
resolve (r ∷ rules) target winner =
    resolve rules target
      (if rule_matches r target && wins_over r winner then some (r.effect, r.id) else winner)

unfoldable pub valid_basename : Text → Bool
valid_basename b = ltb 0 (length b) && not (contains slash b) && not (contains backslash b)

abbrev pub is_allow : PolicyEffect → Bool
is_allow allow = true
is_allow _ = false

-- The decision for a winner, with the floor for file mutations.
unfoldable pub decide : SourceMode → Text → Winner → Decision
decide built_in tool none = deny_decision (text "default-deny-unregistered-tool") not_in_built_in
decide external tool none = deny_decision (text "default-deny-no-rule-matched") no_rule
decide mode tool (some (effect, id)) =
    if is_allow effect && has tool rc03_mutation_tools
    then record {
      outcome = approval_required;
      effect = require_approval;
      matching_rule_id = id;
      reason = approval_floor;
    }
    else record {
      outcome = effect_to_outcome effect;
      effect = effect;
      matching_rule_id = id;
      reason = if is_allow effect then allowed_by_rule else resolved_by_rule;
    }

-- The target admission: the decision that refuses a target, if any.
unfoldable pub refusal : Target → Option Decision
refusal target =
    if length target.tool_name == 0
    then some (deny_decision (text "default-deny-unregistered-tool") invalid_target)
    else if not (path_ok target.path)
    then some (deny_decision (text "deny-invalid-target-path") invalid_path)
    else if not (basename_ok target.executable_basename)
    then some (deny_decision (text "deny-invalid-executable-basename") invalid_basename)
    else none
  where
    path_ok : Option Text → Bool
    path_ok none = true
    path_ok (some p) = is_some (normalize_target_path p)

    basename_ok : Option Text → Bool
    basename_ok none = true
    basename_ok (some b) = valid_basename b

-- A path that is accepted is accepted as it stands, so the target keeps it.
unfoldable pub evaluate : Engine → Target → Decision
evaluate engine target = elim (refusal target) [
  | some decision ↦ decision
  | none ↦ decide engine.mode target.tool_name (resolve engine.compiled_rules target none)
]
