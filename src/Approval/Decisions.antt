-- ===== src/Approval/Decisions.antt =====
-- `approve`, `reject`, `redeemAndConsume`, `inspectPending`, `getRequest`, `listActive` and
-- `clear` of packages/policy/src/approval-state.ts.
-- `mono i` is the i-th reading that the call makes of the monotonic clock. `sha256` stands for the
-- digest of node:crypto, whose results `timingSafeEqual` compares for equality.
use cesspace_arc.Base.{
  ℕ, Bool, true, false, not, ◌&&◌, Option, none, some, Text, text_eq, is_hex, byte_length, length,
  lookup, insert, ltb, leb, is_some, if◌then◌else◌,
}
use cesspace_arc.Approval.Data.{
  ApprovalState, ApprovalRecord, Actor, Workspace, Snapshot, Grant, RedemptionInput,
  ConsumptionResult, pending, approved, rejected, expired, consumed, invalidated, is_pending,
  Result, ok, throw, invalid_request_schema, err_approval_rejected, err_approval_expired,
  err_approval_required, FailureReason, token_mismatch, payload_binding_mismatch,
  actor_binding_mismatch, workspace_binding_mismatch, policy_binding_mismatch, already_consumed,
  approval_granted, max_token_bytes,
}
use cesspace_arc.Approval.State.{Manager, empty_manager, to_snapshot, emit_lifecycle_event}
use cesspace_arc.Approval.Lifecycle.{
  to_rejected, to_consumed, to_invalidated, terminated, without_material, drop_review_material,
  transition_to_terminal, check_lazy_expiry,
}

-- The writes of `approve` to a pending record.
unfoldable pub granted : Text → ApprovalRecord → ApprovalRecord
granted digest r = record r { token_digest = some digest; state = approved }

unfoldable pub grant_record : ℕ → Text → ApprovalRecord → Manager → Manager
grant_record wall digest r s =
    emit_lifecycle_event wall (without_material (granted digest r)) approval_granted none none (
      drop_review_material (granted digest r) (record s {
        records_by_request_id = insert r.request_id (granted digest r) s.records_by_request_id;
      }))

-- A lookup, a lazy expiry check and a test for PENDING come first in `approve` and in `reject`.
unfoldable pub decide_pending {ℓ} :
    {A : Type ℓ} (now wall : ℕ) (request_id : Text)
    → (ApprovalRecord → Manager → Result A × Manager)
    → Manager
    → Result A × Manager
decide_pending now wall request_id act s = elim (lookup request_id s.records_by_request_id) [
  | none ↦ (throw err_approval_rejected none, s)
  | some r ↦
      let (is_expired, s') = check_lazy_expiry now wall r s in
      if is_expired
      then (throw err_approval_expired none, s')
      else if is_pending r.state
      then act r s'
      else (throw err_approval_rejected none, s')
]

-- `token_text` is the text of the random bytes that the call draws.
unfoldable pub approve :
    (sha256 : Text → Text) (mono : ℕ → ℕ) (wall : ℕ) (token_text request_id : Text)
    → Manager
    → Result Grant × Manager
approve sha256 mono wall token_text request_id = decide_pending (mono 0) wall request_id λ r s. (
  ok (record {
    token = token_text;
    snapshot = to_snapshot (mono 1) (without_material (granted (sha256 token_text) r));
  }),
  grant_record wall (sha256 token_text) r s,
)

-- Of the operator's reason only its presence is kept.
unfoldable pub reject :
    (mono : ℕ → ℕ) (wall : ℕ) (request_id : Text) (reason : Option Text)
    → Manager
    → Result Snapshot × Manager
reject mono wall request_id reason = decide_pending (mono 0) wall request_id λ r s. (
  ok (to_snapshot (mono 1) (terminated to_rejected r)),
  transition_to_terminal wall r to_rejected none (some (is_some reason)) s,
)

-- `a === b` on optional texts, and on the bound actor and workspace.
abbrev pub optional_eq : Option Text → Option Text → Bool
optional_eq none none = true
optional_eq (some a) (some b) = text_eq a b
optional_eq _ _ = false

unfoldable pub actor_matches : Actor → Actor → Bool
actor_matches a b =
    text_eq a.client_id b.client_id
    && text_eq a.client_type b.client_type
    && optional_eq a.session_id b.session_id
    && optional_eq a.device_id b.device_id

unfoldable pub workspace_matches : Workspace → Workspace → Bool
workspace_matches a b =
    text_eq a.workspace_id b.workspace_id && text_eq a.workspace_root_hash b.workspace_root_hash

-- The stored digest against the digest of the candidate.
unfoldable pub digest_matches : Option Text → Text → Bool
digest_matches none candidate = false
digest_matches (some stored) candidate = text_eq stored candidate

unfoldable pub redeem_input_ok : RedemptionInput → Bool
redeem_input_ok input =
    ltb 0 (length input.token)
    && leb (byte_length input.token) max_token_bytes
    && is_hex 32 input.request_id

-- The checks of an approved record after the policy binding: the reason of the first that fails.
unfoldable pub binding_failure :
    (sha256 : Text → Text) → RedemptionInput → ApprovalRecord → Option FailureReason
binding_failure sha256 input r =
    if not (text_eq r.execution_payload_hash input.execution_payload_hash)
    then some payload_binding_mismatch
    else if not (actor_matches r.binding.actor input.actor)
    then some actor_binding_mismatch
    else if not (workspace_matches r.binding.workspace input.workspace)
    then some workspace_binding_mismatch
    else if not (digest_matches r.token_digest (sha256 input.token))
    then some token_mismatch
    else none

-- A policy hash that has changed invalidates the approval for good.
unfoldable pub invalidate_for_policy :
    ℕ → ApprovalRecord → Manager → Result ConsumptionResult × Manager
invalidate_for_policy wall r s = (
  throw err_approval_rejected (some policy_binding_mismatch),
  transition_to_terminal wall r to_invalidated (some policy_binding_mismatch) none s,
)

unfoldable pub consume : ℕ → ApprovalRecord → Manager → Result ConsumptionResult × Manager
consume wall r s = (
  ok (record {
    request_id = r.request_id;
    tool_name = r.tool_name;
    execution_payload_hash = r.execution_payload_hash;
    consumed_at = wall;
  }),
  transition_to_terminal wall r to_consumed none none s,
)

-- `if (record.state === 'PENDING') … if (record.state !== 'APPROVED') …`
unfoldable pub redeem_in_state :
    (sha256 : Text → Text) (wall : ℕ) (input : RedemptionInput) (r : ApprovalRecord)
    → ApprovalState
    → Manager
    → Result ConsumptionResult × Manager
redeem_in_state sha256 wall input r pending s =
    if text_eq r.binding.policy_hash input.policy_hash
    then (throw err_approval_required none, s)
    else invalidate_for_policy wall r s
redeem_in_state sha256 wall input r invalidated s = (throw err_approval_rejected none, s)
redeem_in_state sha256 wall input r rejected s = (throw err_approval_rejected none, s)
redeem_in_state sha256 wall input r expired s = (throw err_approval_expired none, s)
redeem_in_state sha256 wall input r consumed s =
    (throw err_approval_rejected (some already_consumed), s)
redeem_in_state sha256 wall input r approved s =
    if text_eq r.binding.policy_hash input.policy_hash
    then (elim (binding_failure sha256 input r) [
      | some reason ↦ (throw err_approval_rejected (some reason), s)
      | none ↦ consume wall r s
    ])
    else invalidate_for_policy wall r s

unfoldable pub redeem_found :
    (sha256 : Text → Text) (now wall : ℕ) (input : RedemptionInput) (r : ApprovalRecord)
    → Manager
    → Result ConsumptionResult × Manager
redeem_found sha256 now wall input r s =
    let (is_expired, s') = check_lazy_expiry now wall r s in
    if is_expired
    then (throw err_approval_expired none, s')
    else redeem_in_state sha256 wall input r r.state s'

unfoldable pub redeem_and_consume :
    (sha256 : Text → Text) (mono : ℕ → ℕ) (wall : ℕ) (input : RedemptionInput)
    → Manager
    → Result ConsumptionResult × Manager
redeem_and_consume sha256 mono wall input s =
    if redeem_input_ok input
    then (elim (lookup input.request_id s.records_by_request_id) [
      | none ↦ (throw err_approval_rejected none, s)
      | some r ↦ redeem_found sha256 (mono 0) wall input r s
    ])
    else (throw invalid_request_schema none, s)

unfoldable pub clear : Manager → Manager
clear s = record (empty_manager s.limits) {
  lifecycle_sinks = s.lifecycle_sinks;
  delivered = s.delivered;
}
