-- ===== src/Policy/Documents.antt =====
-- Policy documents after their validation, packages/policy/src/declarative-policy.ts. An optional
-- property is an `Option`; the metadata and the descriptions, which no step below reads, are left
-- out. A normalized policy has the same shape.
use cesspace_arc.Base.{Option, none, some, List, [], ◌∷◌, Text, text}
use cesspace_arc.Policy.Tools.{
  rc01_allowed_tools, rc02_additional_tools, rc03_mutation_tools, rc07_read_only_tools,
  rc07_task4_execution_tools, rc07_task5_execution_tools,
}

pub data PolicyEffect : Type 0 where
  deny require_approval allow : PolicyEffect

pub record Commands : Type 0 where
  pub allowed_binaries : Option (List Text)
  pub blocked_binaries : Option (List Text)

pub record Git : Type 0 where
  pub protected_branches : Option (List Text)
  pub actions : Option (List Text)

-- `paths` is the `patterns` of the property.
pub record ParsedRule : Type 0 where
  pub id : Text
  pub effect : PolicyEffect
  pub tools : Option (List Text)
  pub paths : Option (List Text)
  pub commands : Option Commands
  pub git : Option Git

pub record WorkspaceAssertion : Type 0 where
  pub id : Text
  pub root_hash : Option Text

pub record ParsedDocument : Type 0 where
  pub workspaces : List WorkspaceAssertion
  pub rules : List ParsedRule

tool_rule : Text → PolicyEffect → List Text → ParsedRule
tool_rule id effect tools = record {
  id = id;
  effect = effect;
  tools = some tools;
  paths = none;
  commands = none;
  git = none;
}

unfoldable pub built_in_document : ParsedDocument
unfolding tool_rule
built_in_document = record {
  workspaces = [];
  rules =
      tool_rule (text "builtin-allow-rc01-inspection") allow rc01_allowed_tools
      ∷ tool_rule (text "builtin-allow-rc02-controlled-execution") allow rc02_additional_tools
      ∷ tool_rule (text "builtin-require-approval-file-mutation") require_approval
          rc03_mutation_tools
      ∷ tool_rule (text "builtin-require-approval-rc07-verify") require_approval
          rc07_task4_execution_tools
      ∷ tool_rule (text "builtin-require-approval-rc07-test") require_approval
          rc07_task5_execution_tools
      ∷ tool_rule (text "builtin-allow-rc07-read-only") allow rc07_read_only_tools
      ∷ [];
}
