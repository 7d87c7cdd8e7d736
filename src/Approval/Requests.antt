-- ===== src/Approval/Requests.antt =====
-- `createOrReusePending` of packages/policy/src/approval-state.ts.
-- `mono i` is the i-th reading that the call makes of the monotonic clock, and `fresh_id` the text
-- of the random bytes that it draws.
use cesspace_arc.Base.{
  ℕ, ◌+◌, ◌*◌, Bool, true, not, ◌&&◌, Option, none, some, [], ◌∷◌, Text, is_blank, is_hex,
  byte_length, add, lookup, insert, ltb, leb, or_else, if◌then◌else◌,
}
use cesspace_arc.Approval.Summary.{RawInput, sanitize_review_summary}
use cesspace_arc.Approval.Data.{
  ApprovalRecord, Binding, Snapshot, pending, is_active, Result, ok, throw, invalid_request_schema,
  resource_exhausted, approval_requested, approval_ttl_seconds,
}
use cesspace_arc.Approval.State.{Manager, actor_quota_key, to_snapshot, emit_lifecycle_event}
use cesspace_arc.Approval.Lifecycle.{check_lazy_expiry, reclaim_expired_active_records}

pub record CreateInput : Type 0 where
  pub tool_name : Text
  pub execution_payload_hash : Text
  pub binding : Binding
  pub review_material : Option Text
  pub review_summary : RawInput

-- A text that is given is not blank.
abbrev optional_text_ok : Option Text → Bool
optional_text_ok none = true
optional_text_ok (some t) = not (is_blank t)

-- The guards at the head of the method, which all throw `invalidRequestSchema`.
unfoldable pub create_input_ok : CreateInput → Bool
create_input_ok input =
    not (is_blank input.tool_name)
    && is_hex 64 input.execution_payload_hash
    && not (is_blank input.binding.actor.client_id)
    && not (is_blank input.binding.actor.client_type)
    && optional_text_ok input.binding.actor.session_id
    && optional_text_ok input.binding.actor.device_id
    && not (is_blank input.binding.workspace.workspace_id)
    && is_hex 64 input.binding.workspace.workspace_root_hash
    && is_hex 64 input.binding.policy_hash

-- `reviewMaterial ? Buffer.byteLength(reviewMaterial, 'utf8') : 0`
unfoldable pub material_bytes : Option Text → ℕ
material_bytes none = 0
material_bytes (some t) = byte_length t

-- The empty text is falsy, and is stored as `undefined`.
stored_material : Option Text → Option Text
stored_material none = none
stored_material (some []) = none
stored_material (some (c ∷ t)) = some (c ∷ t)

unfoldable pub new_record :
    (mono : ℕ → ℕ) (wall : ℕ) (fresh_id : Text) → CreateInput → ApprovalRecord
unfolding stored_material material_bytes actor_quota_key
new_record mono wall fresh_id input = record {
  request_id = fresh_id;
  state = pending;
  tool_name = input.tool_name;
  execution_payload_hash = input.execution_payload_hash;
  binding = input.binding;
  created_at_wall = wall;
  expires_at_wall = wall + approval_ttl_seconds * 1000;
  monotonic_deadline = mono 2 + approval_ttl_seconds * 1000000000;
  token_digest = none;
  review_material = stored_material input.review_material;
  review_bytes = material_bytes input.review_material;
  review_summary = sanitize_review_summary input.review_summary;
  actor_quota_key = actor_quota_key input.binding.actor;
}

-- The quota tests, in the order of the code.
unfoldable pub within_quota : ApprovalRecord → Manager → Bool
within_quota r s =
    leb r.review_bytes s.limits.bytes_per_record
    && leb (s.active_count_global + 1) s.limits.active_global
    && leb (or_else (lookup r.actor_quota_key s.active_count_by_actor) 0 + 1)
        s.limits.active_per_actor
    && leb (s.review_bytes_global + r.review_bytes) s.limits.bytes_global
    && leb (or_else (lookup r.actor_quota_key s.review_bytes_by_actor) 0 + r.review_bytes)
        s.limits.bytes_per_actor

-- The writes of an admitted request, before its event.
unfoldable pub store_pending : ApprovalRecord → Manager → Manager
store_pending r s =
    let charged = record s {
      records_by_request_id = insert r.request_id r s.records_by_request_id;
      request_id_by_dedup_key =
          insert r.execution_payload_hash r.request_id s.request_id_by_dedup_key;
      active_request_ids = add r.request_id s.active_request_ids;
      active_count_global = s.active_count_global + 1;
      active_count_by_actor =
          insert r.actor_quota_key
            (or_else (lookup r.actor_quota_key s.active_count_by_actor) 0 + 1)
            s.active_count_by_actor;
    } in
    if ltb 0 r.review_bytes
    then record charged {
      review_bytes_global = s.review_bytes_global + r.review_bytes;
      review_bytes_by_actor =
          insert r.actor_quota_key
            (or_else (lookup r.actor_quota_key s.review_bytes_by_actor) 0 + r.review_bytes)
            s.review_bytes_by_actor;
    }
    else charged

-- Quota validation and admission of a request that no active record serves.
unfoldable pub admit_new : ℕ → ApprovalRecord → ℕ → Manager → Result Snapshot × Manager
admit_new wall r snapshot_at s =
    if within_quota r s
    then (
      ok (to_snapshot snapshot_at r),
      emit_lifecycle_event wall r approval_requested none none (store_pending r s),
    )
    else (throw resource_exhausted none, s)

-- The record that the dedup key leads to, if it is there.
unfoldable pub find_existing : Text → Manager → Option ApprovalRecord
find_existing dedup_key s = elim (lookup dedup_key s.request_id_by_dedup_key) [
  | none ↦ none
  | some id ↦ lookup id s.records_by_request_id
]

-- A record that is found is checked for lazy expiry, and is reused while it is active.
unfoldable pub reuse_or_admit :
    (mono : ℕ → ℕ) (wall : ℕ) (found : Option ApprovalRecord) (fresh : ApprovalRecord)
    → Manager
    → Result Snapshot × Manager
reuse_or_admit mono wall none fresh s = admit_new wall fresh (mono 3) s
reuse_or_admit mono wall (some r) fresh s =
    let (is_expired, s') = check_lazy_expiry (mono 1) wall r s in
    if not is_expired && is_active r.state
    then (ok (to_snapshot (mono 3) r), s')
    else admit_new wall fresh (mono 3) s'

unfoldable pub create_or_reuse_pending :
    (mono : ℕ → ℕ) (wall : ℕ) (fresh_id : Text) → CreateInput → Manager → Result Snapshot × Manager
create_or_reuse_pending mono wall fresh_id input s =
    if create_input_ok input
    then (let s' = reclaim_expired_active_records (mono 0) wall s in
        reuse_or_admit mono wall (find_existing input.execution_payload_hash s')
          (new_record mono wall fresh_id input) s')
    else (throw invalid_request_schema none, s)
