-- ===== src/Policy/Normal.antt =====
-- `normalizePolicy` of packages/policy/src/declarative-policy.ts: matcher arrays are sorted and
-- have no duplicates, an empty matcher is an absent one, workspaces and rules are sorted by id.
use cesspace_arc.Base.{Option, none, some, List, [], ◌∷◌, Text, has, map, if◌then◌else◌}
use cesspace_arc.Policy.Order.{compare_strings, is_before}
use cesspace_arc.Policy.Documents.{Commands, Git, ParsedRule, WorkspaceAssertion, ParsedDocument}

-- `sort` with `compareStrings` on a key, which is stable.
module _ {A : Type 0} (key : A → Text) where
  unfoldable pub insert_by_key : A → List A → List A
  insert_by_key a [] = a ∷ []
  insert_by_key a (b ∷ bs) =
      if is_before (compare_strings (key b) (key a)) then b ∷ insert_by_key a bs else a ∷ b ∷ bs

  unfoldable pub sort_by_key : List A → List A
  sort_by_key [] = []
  sort_by_key (a ∷ rest) = insert_by_key a (sort_by_key rest)

-- `Array.from(new Set(values))`: the first occurrences, in order.
unfoldable pub unique_from : List Text → List Text → List Text
unique_from seen [] = []
unique_from seen (v ∷ values) =
    if has v seen then unique_from seen values else v ∷ unique_from (v ∷ seen) values

unfoldable pub sorted_unique : List Text → List Text
sorted_unique values = sort_by_key (λ v. v) (unique_from [] values)

-- `if (values !== undefined && values.length > 0) … = sortedUnique(values)`
unfoldable pub normal_matcher : Option (List Text) → Option (List Text)
normal_matcher none = none
normal_matcher (some []) = none
normal_matcher (some (v ∷ values)) = some (sorted_unique (v ∷ values))

-- An object without keys is left out.
unfoldable pub normal_commands : Option Commands → Option Commands
normal_commands none = none
normal_commands (some c) =
    keep (normal_matcher c.allowed_binaries) (normal_matcher c.blocked_binaries)
  where
    keep : Option (List Text) → Option (List Text) → Option Commands
    keep none none = none
    keep allowed blocked = some (record { allowed_binaries = allowed; blocked_binaries = blocked })

unfoldable pub normal_git : Option Git → Option Git
normal_git none = none
normal_git (some g) = keep (normal_matcher g.protected_branches) (normal_matcher g.actions)
  where
    keep : Option (List Text) → Option (List Text) → Option Git
    keep none none = none
    keep branches actions = some (record { protected_branches = branches; actions = actions })

unfoldable pub normal_rule : ParsedRule → ParsedRule
normal_rule r = record {
  id = r.id;
  effect = r.effect;
  tools = normal_matcher r.tools;
  paths = normal_matcher r.paths;
  commands = normal_commands r.commands;
  git = normal_git r.git;
}

unfoldable pub normalize_policy : ParsedDocument → ParsedDocument
normalize_policy d = record {
  workspaces = sort_by_key (λ (w : WorkspaceAssertion). w.id) d.workspaces;
  rules = sort_by_key (λ (r : ParsedRule). r.id) (map normal_rule d.rules);
}
