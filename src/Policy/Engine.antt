-- ===== src/Policy/Engine.antt =====
-- `DeclarativePolicyEngine` of packages/policy/src/declarative-policy.ts: compilation of the rules,
-- construction of an engine, and the evaluation of one target. `canonical_hash` stands for the
-- SHA-256 of the canonical JSON of a policy.
use cesspace_arc.Base.{
  Bool, true, Option, none, some, List, [], ◌∷◌, Text, text_eq, if◌then◌else◌, ◌>>=◌,
}
use cesspace_arc.Glob.Matcher.{compile_path_pattern}
use cesspace_arc.Policy.Documents.{
  PolicyEffect, Commands, Git, ParsedRule, WorkspaceAssertion, ParsedDocument, built_in_document,
}
use cesspace_arc.Policy.Normal.{normalize_policy}

pub record CompiledRule : Type 0 where
  pub id : Text
  pub effect : PolicyEffect
  pub tools : Option (List Text)
  pub path_patterns : Option (List (List Text))
  pub command_binaries : Option (List Text)
  pub git_branch_patterns : Option (List (List Text))
  pub git_actions : Option (List Text)

-- `patterns.map(compilePathPattern)`, where the first invalid pattern throws.
unfoldable pub compile_each : List Text → Option (List (List Text))
compile_each [] = some []
compile_each (p ∷ ps) = do
  segments ← compile_path_pattern p
  rest ← compile_each ps
  some (segments ∷ rest)

unfoldable pub compile_patterns : Option (List Text) → Option (Option (List (List Text)))
compile_patterns none = some none
compile_patterns (some ps) = do compiled ← compile_each ps; some (some compiled)

-- `allowedBinaries ?? blockedBinaries`
abbrev pub binaries_of : Option Commands → Option (List Text)
binaries_of none = none
binaries_of (some c) = elim c.allowed_binaries [
  | some allowed ↦ some allowed
  | none ↦ c.blocked_binaries
]

abbrev pub branches_of : Option Git → Option (List Text)
branches_of none = none
branches_of (some g) = g.protected_branches

abbrev pub actions_of : Option Git → Option (List Text)
actions_of none = none
actions_of (some g) = g.actions

unfoldable pub compile_rule : ParsedRule → Option CompiledRule
compile_rule r = do
  paths ← compile_patterns r.paths
  branches ← compile_patterns (branches_of r.git)
  some (record {
    id = r.id;
    effect = r.effect;
    tools = r.tools;
    path_patterns = paths;
    command_binaries = binaries_of r.commands;
    git_branch_patterns = branches;
    git_actions = actions_of r.git;
  })

unfoldable pub compile_rules : List ParsedRule → Option (List CompiledRule)
compile_rules [] = some []
compile_rules (r ∷ rs) = do
  compiled ← compile_rule r
  rest ← compile_rules rs
  some (compiled ∷ rest)

pub data SourceMode : Type 0 where
  built_in external : SourceMode

pub record Engine : Type 0 where
  pub mode : SourceMode
  pub normalized_policy : ParsedDocument
  pub policy_hash : Text
  pub compiled_rules : List CompiledRule

-- The private constructor.
unfoldable pub new_engine :
    (canonical_hash : ParsedDocument → Text) → SourceMode → ParsedDocument → Option Engine
new_engine canonical_hash mode normalized = do
  rules ← compile_rules normalized.rules
  some (record {
    mode = mode;
    normalized_policy = normalized;
    policy_hash = canonical_hash normalized;
    compiled_rules = rules;
  })

pub record WorkspaceRecord : Type 0 where
  pub id : Text
  pub root_path : Text

pub data LoadResult (A : Type 0) : Type 0 where
  loaded : A → LoadResult A
  unknown_workspace_id workspace_root_hash_mismatch invalid_pattern : LoadResult A

abbrev hash_matches : Option Text → Text → Bool
hash_matches none actual = true
hash_matches (some expected) actual = text_eq actual expected

-- The loop over the assertions of a document: the first that fails is the error.
unfoldable pub check_workspaces :
    (sha256_hex : Text → Text) (registry : Text → Option WorkspaceRecord)
    → List WorkspaceAssertion
    → LoadResult Engine
    → LoadResult Engine
check_workspaces sha256_hex registry [] done = done
check_workspaces sha256_hex registry (a ∷ rest) done =
    let later = check_workspaces sha256_hex registry rest done in
    elim (registry a.id) [
      | none ↦ unknown_workspace_id
      | some w ↦
          if hash_matches a.root_hash (sha256_hex w.root_path)
          then later
          else workspace_root_hash_mismatch
    ]

-- `fromExternalText` from the validated document on.
unfoldable pub from_document :
    (sha256_hex : Text → Text) (canonical_hash : ParsedDocument → Text)
    (registry : Text → Option WorkspaceRecord)
    → ParsedDocument
    → LoadResult Engine
from_document sha256_hex canonical_hash registry document =
    check_workspaces sha256_hex registry document.workspaces
      (elim (new_engine canonical_hash external (normalize_policy document)) [
        | none ↦ invalid_pattern
        | some e ↦ loaded e
      ])

unfoldable pub built_in_engine : (canonical_hash : ParsedDocument → Text) → Option Engine
built_in_engine canonical_hash =
    new_engine canonical_hash built_in (normalize_policy built_in_document)
