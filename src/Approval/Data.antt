-- ===== src/Approval/Data.antt =====
-- The approval data of packages/protocol/src/approval.ts and the internal record of
-- packages/policy/src/approval-state.ts. A value of a declared TypeScript type is given by its
-- fields, so the `typeof` tests on such values have no counterpart here.
-- Time is in native numbers: nanoseconds for the monotonic clock, milliseconds for the wall clock.
-- An ISO string is a rendering of a wall-clock time and is given by that time.
use cesspace_arc.Base.{ℕ, ◌*◌, Bool, true, false, Option, Text}
use cesspace_arc.Approval.Summary.{ReviewSummary}

pub data ApprovalState : Type 0 where
  pending approved rejected expired consumed invalidated : ApprovalState

pub record Actor : Type 0 where
  pub client_id : Text
  pub client_type : Text
  pub session_id : Option Text
  pub device_id : Option Text

pub record Workspace : Type 0 where
  pub workspace_id : Text
  pub workspace_root_hash : Text

pub record Binding : Type 0 where
  pub actor : Actor
  pub workspace : Workspace
  pub policy_hash : Text

pub data FailureReason : Type 0 where
  token_mismatch payload_binding_mismatch actor_binding_mismatch : FailureReason
  workspace_binding_mismatch policy_binding_mismatch already_consumed : FailureReason

pub data EventType : Type 0 where
  approval_requested approval_granted approval_rejected approval_expired : EventType
  approval_consumed approval_invalidated : EventType

pub record LifecycleEvent : Type 0 where
  pub event_type : EventType
  pub request_id : Text
  pub state : ApprovalState
  pub tool_name : Text
  pub actor : Actor
  pub workspace_id : Text
  pub workspace_root_hash : Text
  pub policy_hash : Text
  pub occurred_at : ℕ
  pub reason_code : Option FailureReason
  pub operator_reason_provided : Option Bool

pub record ApprovalRecord : Type 0 where
  pub request_id : Text
  pub state : ApprovalState
  pub tool_name : Text
  pub execution_payload_hash : Text
  pub binding : Binding
  pub created_at_wall : ℕ
  pub expires_at_wall : ℕ
  pub monotonic_deadline : ℕ
  pub token_digest : Option Text
  pub review_material : Option Text
  pub review_bytes : ℕ
  pub review_summary : Option ReviewSummary
  pub actor_quota_key : Text

pub record Snapshot : Type 0 where
  pub request_id : Text
  pub state : ApprovalState
  pub tool_name : Text
  pub execution_payload_hash : Text
  pub binding : Binding
  pub created_at : ℕ
  pub expires_at : ℕ
  pub remaining_seconds : ℕ
  pub review_material_bytes : ℕ
  pub review_summary : Option ReviewSummary

pub record Grant : Type 0 where
  pub token : Text
  pub snapshot : Snapshot

pub record RedemptionInput : Type 0 where
  pub request_id : Text
  pub token : Text
  pub execution_payload_hash : Text
  pub actor : Actor
  pub workspace : Workspace
  pub policy_hash : Text

pub record ConsumptionResult : Type 0 where
  pub request_id : Text
  pub tool_name : Text
  pub execution_payload_hash : Text
  pub consumed_at : ℕ

-- The `ArcError` factories that the manager calls, and the reason attached out of band.
pub data ErrorCode : Type 0 where
  invalid_request_schema resource_exhausted : ErrorCode
  err_approval_rejected err_approval_expired err_approval_required : ErrorCode

pub data Result {ℓ} (A : Type ℓ) : Type ℓ where
  ok : A → Result A
  throw : ErrorCode → Option FailureReason → Result A

abbrev pub approval_ttl_seconds : ℕ
approval_ttl_seconds = 300

abbrev pub max_active_approvals_global : ℕ
max_active_approvals_global = 1024

abbrev pub max_active_approvals_per_actor : ℕ
max_active_approvals_per_actor = 64

abbrev pub max_review_bytes_per_record : ℕ
max_review_bytes_per_record = 1048576

abbrev pub max_review_bytes_per_actor : ℕ
max_review_bytes_per_actor = 8 * 1024 * 1024

abbrev pub max_review_bytes_global : ℕ
max_review_bytes_global = 64 * 1024 * 1024

abbrev pub max_token_bytes : ℕ
max_token_bytes = 128

-- `state === 'PENDING' || state === 'APPROVED'`
abbrev pub is_active : ApprovalState → Bool
is_active pending = true
is_active approved = true
is_active _ = false

abbrev pub is_pending : ApprovalState → Bool
is_pending pending = true
is_pending _ = false
