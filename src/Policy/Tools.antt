-- ===== src/Policy/Tools.antt =====
-- The tool names of packages/policy/src/index.ts that the policies speak of.
use cesspace_arc.Base.{List, [], ◌∷◌, Text, text}

abbrev pub rc01_allowed_tools : List Text
rc01_allowed_tools =
    text "health"
    ∷ text "list_directory"
    ∷ text "read_file"
    ∷ text "search_files"
    ∷ text "search_text"
    ∷ text "git_status"
    ∷ text "git_diff"
    ∷ text "git_log"
    ∷ text "system_status"
    ∷ []

abbrev pub rc02_additional_tools : List Text
rc02_additional_tools =
    text "run_command"
    ∷ text "process_status"
    ∷ text "process_output"
    ∷ text "terminate_process"
    ∷ []

abbrev pub rc03_mutation_tools : List Text
rc03_mutation_tools =
    text "create_file"
    ∷ text "write_file"
    ∷ text "apply_patch"
    ∷ text "delete_file"
    ∷ text "move_file"
    ∷ []

abbrev pub rc07_read_only_tools : List Text
rc07_read_only_tools =
    text "arc_repo_status"
    ∷ text "arc_worktree_status"
    ∷ text "arc_review_diff"
    ∷ text "arc_ci_status"
    ∷ text "arc_stage_evidence"
    ∷ []

abbrev pub rc07_task4_execution_tools : List Text
rc07_task4_execution_tools = text "arc_verify" ∷ []

abbrev pub rc07_task5_execution_tools : List Text
rc07_task5_execution_tools = text "arc_test" ∷ []
