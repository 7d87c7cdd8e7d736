-- ===== src/Policy/Tests.antt =====
-- Runs of the declarative policy engine (packages/policy/src/declarative-policy.ts) and its
-- theorems at concrete policies. The hash of a policy is taken to be empty.
use cesspace_arc.Base.{
  ℕ, zero, suc, ◌≡◌, refl, true, false, Option, none, some, List, [], ◌∷◌, Text, text, has,
  get_elem?,
}
use mathlib.Core.List.{Permᴰ}
use cesspace_arc.Glob.Tests.{matcher}
use cesspace_arc.Policy.Order.{text_less, compare_strings}
use cesspace_arc.Policy.Tools.{rc03_mutation_tools}
use cesspace_arc.Policy.Documents.{PolicyEffect, deny, allow}
use cesspace_arc.Policy.Engine.{CompiledRule, external, Engine}
use cesspace_arc.Policy.Evaluation.{
  Target, denied, allowed, in_set, some_pattern, usable_branch, rule_matches, wins_over, resolve,
  valid_basename, decide, refusal, evaluate,
}
use cesspace_arc.Policy.Documents.{ParsedRule, ParsedDocument}
use cesspace_arc.Policy.Normal.{
  insert_by_key, sort_by_key, unique_from, sorted_unique, normal_matcher, normal_commands,
  normal_git, normal_rule, normalize_policy,
}
use cesspace_arc.Policy.Engine.{
  compile_each, compile_patterns, compile_rule, compile_rules, new_engine,
}
use cesspace_arc.Policy.Meaning.{document_winner}
use cesspace_arc.Policy.Refinement.{engine_decides_document}
use cesspace_arc.Policy.Decisions.{deny_prevails, allowed_only_by_rule}
use cesspace_arc.Policy.Reorder.{evaluate-Perm}

evaluation : Unit {0}
unfolding has text_less compare_strings in_set some_pattern usable_branch rule_matches wins_over
    resolve valid_basename decide refusal evaluate
evaluation = tt

abbrev rule_for : Text → PolicyEffect → Option (List (List Text)) → CompiledRule
rule_for id effect paths = record {
  id = id;
  effect = effect;
  tools = none;
  path_patterns = paths;
  command_binaries = none;
  git_branch_patterns = none;
  git_actions = none;
}

abbrev allow_all : CompiledRule
allow_all = rule_for (text "all") allow none

abbrev deny_secrets : CompiledRule
deny_secrets = rule_for (text "secrets") deny (some ((text "**" ∷ text "*.pem" ∷ []) ∷ []))

abbrev engine_of : List CompiledRule → Engine
engine_of rules = record {
  mode = external;
  normalized_policy = record { workspaces = []; rules = [] };
  policy_hash = [];
  compiled_rules = rules;
}

abbrev guarded : Engine
guarded = engine_of (allow_all ∷ deny_secrets ∷ [])

abbrev read_of : Text → Target
read_of path = record {
  tool_name = text "read_file";
  path = some path;
  executable_basename = none;
  git_branch = none;
  git_action = none;
}

secret_matches : rule_matches deny_secrets (read_of (text "a/k.pem")) ≡ true
unfolding evaluation matcher
secret_matches = refl

source_allowed : (evaluate guarded (read_of (text "a/b.ts"))).outcome ≡ allowed
unfolding evaluation matcher
source_allowed = refl

deny_prevails_example : (evaluate guarded (read_of (text "a/k.pem"))).outcome ≡ denied
deny_prevails_example =
    deny_prevails guarded (read_of (text "a/k.pem")) (suc zero) deny_secrets refl secret_matches
      refl

allowed_only_by_rule_example :
    (refusal (read_of (text "a/b.ts")) ≡ none)
    × (has (text "read_file") rc03_mutation_tools ≡ false)
    × ((n : ℕ) × (r : CompiledRule) × (get_elem? guarded.compiled_rules n ≡ some r)
        × (rule_matches r (read_of (text "a/b.ts")) ≡ true)
        × (r.effect ≡ allow)
        × (r.id ≡ (evaluate guarded (read_of (text "a/b.ts"))).matching_rule_id))
    × ((n : ℕ) (r : CompiledRule)
        → get_elem? guarded.compiled_rules n ≡ some r
        → rule_matches r (read_of (text "a/b.ts")) ≡ true
        → (r.effect ≡ allow)
          × (text_less r.id (evaluate guarded (read_of (text "a/b.ts"))).matching_rule_id ≡ false))
allowed_only_by_rule_example = allowed_only_by_rule guarded (read_of (text "a/b.ts")) source_allowed

evaluate-Perm_example :
    evaluate guarded (read_of (text "a/k.pem"))
    ≡ evaluate (engine_of (deny_secrets ∷ allow_all ∷ [])) (read_of (text "a/k.pem"))
evaluate-Perm_example =
    evaluate-Perm guarded (engine_of (deny_secrets ∷ allow_all ∷ [])) (read_of (text "a/k.pem"))
      refl (Permᴰ.swap refl refl)

abbrev parsed_rule : Text → PolicyEffect → Option (List Text) → ParsedRule
parsed_rule id effect paths = record {
  id = id;
  effect = effect;
  tools = some [];
  paths = paths;
  commands = none;
  git = none;
}

abbrev document : ParsedDocument
document = record {
  workspaces = [];
  rules =
      parsed_rule (text "secrets") deny (some (text "**/*.pem" ∷ text "**/*.pem" ∷ []))
      ∷ parsed_rule (text "all") allow none
      ∷ [];
}

abbrev no_hash : ParsedDocument → Text
no_hash d = []

abbrev document_engine : Engine
document_engine = record {
  mode = external;
  normalized_policy = normalize_policy document;
  policy_hash = [];
  compiled_rules = allow_all ∷ deny_secrets ∷ [];
}

document_made : new_engine no_hash external (normalize_policy document) ≡ some document_engine
unfolding matcher evaluation insert_by_key sort_by_key unique_from sorted_unique normal_matcher
    normal_commands normal_git normal_rule normalize_policy compile_each compile_patterns
    compile_rule compile_rules new_engine
document_made = refl

secret_admitted : refusal (read_of (text "a/k.pem")) ≡ none
unfolding matcher evaluation
secret_admitted = refl

engine_decides_document_example :
    evaluate document_engine (read_of (text "a/k.pem"))
    ≡ decide external
        (text "read_file")
        (document_winner document.rules (read_of (text "a/k.pem")) none)
engine_decides_document_example =
    engine_decides_document no_hash external document document_engine (read_of (text "a/k.pem"))
      document_made secret_admitted
