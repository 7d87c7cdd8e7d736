-- ===== src/Approval/State.antt =====
-- The state of `ApprovalStateManager`, its construction, its lifecycle observers and snapshots,
-- packages/policy/src/approval-state.ts.
-- A record lives in the map under its request id; a write to a shared record object is a write to
-- the map at that id. Lifecycle observers are named by numbers, and `delivered` is the sequence
-- of calls made on them. One call of the manager reads one wall-clock time.
use cesspace_arc.Base.{
  ℕ, ◌+◌, ◌-◌, ◌/◌, Bool, Option, none, some, List, [], ◌∷◌, ◌++◌, Text, Dict, json_array, ltb, leb,
  ◌==◌, any, map, ◌>>=◌, if◌then◌else◌,
}
use cesspace_arc.Approval.Data.{
  ApprovalRecord, Snapshot, Actor, LifecycleEvent, EventType, FailureReason,
  max_active_approvals_global, max_active_approvals_per_actor, max_review_bytes_per_record,
  max_review_bytes_per_actor, max_review_bytes_global,
}

pub record Limits : Type 0 where
  pub active_global : ℕ
  pub active_per_actor : ℕ
  pub bytes_per_record : ℕ
  pub bytes_per_actor : ℕ
  pub bytes_global : ℕ

pub record Manager : Type 0 where
  pub limits : Limits
  pub lifecycle_sinks : List ℕ
  pub delivered : List (ℕ × LifecycleEvent)
  pub records_by_request_id : Dict ApprovalRecord
  pub request_id_by_dedup_key : Dict Text
  pub active_request_ids : List Text
  pub active_count_global : ℕ
  pub active_count_by_actor : Dict ℕ
  pub review_bytes_global : ℕ
  pub review_bytes_by_actor : Dict ℕ

-- A number given as an option of the constructor: an integer from 0 on, or any other number.
pub data NumberOption : Type 0 where
  not_given not_a_natural : NumberOption
  natural : ℕ → NumberOption

-- `validateLimit` with the default of an option that is not given; `none` is the thrown error.
unfoldable pub validate_limit : NumberOption → ℕ → Option ℕ
validate_limit not_given most = some most
validate_limit not_a_natural most = none
validate_limit (natural n) most = if ltb most n then none else some n

pub record Options : Type 0 where
  pub active_global : NumberOption
  pub active_per_actor : NumberOption
  pub bytes_per_record : NumberOption
  pub bytes_per_actor : NumberOption
  pub bytes_global : NumberOption

abbrev pub empty_manager : Limits → Manager
empty_manager limits = record {
  limits = limits;
  lifecycle_sinks = [];
  delivered = [];
  records_by_request_id = [];
  request_id_by_dedup_key = [];
  active_request_ids = [];
  active_count_global = 0;
  active_count_by_actor = [];
  review_bytes_global = 0;
  review_bytes_by_actor = [];
}

-- The constructor; the clocks are arguments of the operations.
unfoldable pub new_manager : Options → Option Manager
unfolding validate_limit
new_manager options = do
  g ← validate_limit options.active_global max_active_approvals_global
  a ← validate_limit options.active_per_actor max_active_approvals_per_actor
  r ← validate_limit options.bytes_per_record max_review_bytes_per_record
  b ← validate_limit options.bytes_per_actor max_review_bytes_per_actor
  t ← validate_limit options.bytes_global max_review_bytes_global
  some (
      empty_manager (record {
        active_global = g;
        active_per_actor = a;
        bytes_per_record = r;
        bytes_per_actor = b;
        bytes_global = t;
      }))

unfoldable pub register_lifecycle_sink : ℕ → Manager → Manager
register_lifecycle_sink sink s =
    if any (λ x. x == sink) s.lifecycle_sinks
    then s
    else record s { lifecycle_sinks = s.lifecycle_sinks ++ sink ∷ [] }

unfoldable pub lifecycle_event :
    ℕ → ApprovalRecord → EventType → Option FailureReason → Option Bool → LifecycleEvent
lifecycle_event wall r event_type reason provided = record {
  event_type = event_type;
  request_id = r.request_id;
  state = r.state;
  tool_name = r.tool_name;
  actor = r.binding.actor;
  workspace_id = r.binding.workspace.workspace_id;
  workspace_root_hash = r.binding.workspace.workspace_root_hash;
  policy_hash = r.binding.policy_hash;
  occurred_at = wall;
  reason_code = reason;
  operator_reason_provided = provided;
}

-- An observer that throws is contained, so every observer is called, in order.
unfoldable pub emit_lifecycle_event :
    ℕ → ApprovalRecord → EventType → Option FailureReason → Option Bool → Manager → Manager
unfolding lifecycle_event
emit_lifecycle_event wall r event_type reason provided s = record s {
  delivered =
      s.delivered
      ++ map (λ sink. (sink, lifecycle_event wall r event_type reason provided)) s.lifecycle_sinks;
}

unfoldable pub actor_quota_key : Actor → Text
actor_quota_key actor =
    json_array
      (some actor.client_id ∷ some actor.client_type ∷ actor.session_id ∷ actor.device_id ∷ [])

-- `Math.ceil(remaining / 1e9)`, and 0 from the deadline on.
unfoldable pub remaining_seconds : ℕ → ℕ → ℕ
remaining_seconds deadline now =
    if leb deadline now then 0 else (deadline - now + 999999999) / 1000000000

unfoldable pub to_snapshot : ℕ → ApprovalRecord → Snapshot
unfolding remaining_seconds
to_snapshot now r = record {
  request_id = r.request_id;
  state = r.state;
  tool_name = r.tool_name;
  execution_payload_hash = r.execution_payload_hash;
  binding = r.binding;
  created_at = r.created_at_wall;
  expires_at = r.expires_at_wall;
  remaining_seconds = remaining_seconds r.monotonic_deadline now;
  review_material_bytes = r.review_bytes;
  review_summary = r.review_summary;
}
