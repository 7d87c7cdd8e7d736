-- ===== src/Approval/Lifecycle.antt =====
-- The transitions that every operation of `ApprovalStateManager` shares: release of accounting,
-- lazy expiry and reclamation, packages/policy/src/approval-state.ts.
-- Subtraction stops at 0; the counters that are decremented here are positive in every manager
-- that the operations can reach, where this is the subtraction of the code.
use cesspace_arc.Base.{
  ℕ, suc, ◌-◌, Bool, true, false, Option, none, some, List, [], ◌∷◌, Text, text_eq, remove, Dict,
  lookup, insert, delete, ltb, leb, if◌then◌else◌,
}
use cesspace_arc.Approval.Data.{
  ApprovalRecord, ApprovalState, expired, rejected, consumed, invalidated, EventType,
  approval_expired, approval_rejected, approval_consumed, approval_invalidated, FailureReason,
  is_active,
}
use cesspace_arc.Approval.State.{Manager, emit_lifecycle_event}

pub data Terminal : Type 0 where
  to_rejected to_expired to_consumed to_invalidated : Terminal

abbrev pub terminal_state : Terminal → ApprovalState
terminal_state to_rejected = rejected
terminal_state to_expired = expired
terminal_state to_consumed = consumed
terminal_state to_invalidated = invalidated

abbrev pub terminal_event : Terminal → EventType
terminal_event to_expired = approval_expired
terminal_event to_rejected = approval_rejected
terminal_event to_consumed = approval_consumed
terminal_event to_invalidated = approval_invalidated

-- `map.get(key)` is decremented, and the entry goes when nothing is left.
unfoldable pub release : Text → ℕ → Dict ℕ → Dict ℕ
release key amount m = elim (lookup key m) [
  | none ↦ m
  | some current ↦ if leb current amount then delete key m else insert key (current - amount) m
]

-- The record as `dropReviewMaterial` leaves it.
unfoldable pub without_material : ApprovalRecord → ApprovalRecord
without_material r =
    if ltb 0 r.review_bytes then record r { review_material = none; review_bytes = 0 } else r

unfoldable pub drop_review_material : ApprovalRecord → Manager → Manager
drop_review_material r s =
    if ltb 0 r.review_bytes
    then record s {
      review_bytes_global = s.review_bytes_global - r.review_bytes;
      review_bytes_by_actor = release r.actor_quota_key r.review_bytes s.review_bytes_by_actor;
      records_by_request_id = insert r.request_id (without_material r) s.records_by_request_id;
    }
    else s

-- The slot of a payload hash is freed by the record that holds it, and by no other.
unfoldable pub release_dedup : ApprovalRecord → Dict Text → Dict Text
release_dedup r m = elim (lookup r.execution_payload_hash m) [
  | none ↦ m
  | some id ↦ if text_eq id r.request_id then delete r.execution_payload_hash m else m
]

-- The record as `transitionToTerminal` leaves an active one.
unfoldable pub terminated : Terminal → ApprovalRecord → ApprovalRecord
terminated t r = without_material (record r { state = terminal_state t })

-- The writes of `transitionToTerminal` above the release of review material.
unfoldable pub release_slots : Terminal → ApprovalRecord → Manager → Manager
release_slots t r s = record s {
  records_by_request_id =
      insert r.request_id (record r { state = terminal_state t }) s.records_by_request_id;
  active_request_ids = remove r.request_id s.active_request_ids;
  request_id_by_dedup_key = release_dedup r s.request_id_by_dedup_key;
  active_count_global = s.active_count_global - 1;
  active_count_by_actor = release r.actor_quota_key 1 s.active_count_by_actor;
}

unfoldable pub transition_to_terminal :
    ℕ → ApprovalRecord → Terminal → Option FailureReason → Option Bool → Manager → Manager
transition_to_terminal wall r t reason provided s =
    if is_active r.state
    then emit_lifecycle_event wall (terminated t r) (terminal_event t) reason provided
        (drop_review_material (record r { state = terminal_state t }) (release_slots t r s))
    else s

abbrev is_expired : ApprovalState → Bool
is_expired expired = true
is_expired _ = false

-- Whether the record is expired, and the manager after a lazy transition.
unfoldable pub check_lazy_expiry : ℕ → ℕ → ApprovalRecord → Manager → Bool × Manager
check_lazy_expiry now wall r s =
    if is_expired r.state
    then (true, s)
    else if is_active r.state
    then (if leb r.monotonic_deadline now
        then (true, transition_to_terminal wall r to_expired none none s)
        else (false, s))
    else (false, s)

-- The body of the loops of `reclaimExpiredActiveRecords` and `purgeExpired`.
unfoldable pub is_due : ℕ → Text → Manager → Bool
is_due now id s = elim (lookup id s.records_by_request_id) [
  | none ↦ false
  | some r ↦ leb r.monotonic_deadline now
]

unfoldable pub expire_if_due : ℕ → ℕ → Text → Manager → Manager
expire_if_due now wall id s = elim (lookup id s.records_by_request_id) [
  | none ↦ s
  | some r ↦
      if leb r.monotonic_deadline now
      then transition_to_terminal wall r to_expired none none s
      else s
]

unfoldable pub expire_each : ℕ → ℕ → List Text → Manager → Manager
expire_each now wall [] s = s
expire_each now wall (id ∷ ids) s = expire_each now wall ids (expire_if_due now wall id s)

unfoldable pub reclaim_expired_active_records : ℕ → ℕ → Manager → Manager
reclaim_expired_active_records now wall s = expire_each now wall s.active_request_ids s

unfoldable pub purge_each : ℕ → ℕ → List Text → ℕ → Manager → ℕ × Manager
purge_each now wall [] purged s = (purged, s)
purge_each now wall (id ∷ ids) purged s =
    purge_each now wall ids (if is_due now id s then suc purged else purged)
      (expire_if_due now wall id s)

unfoldable pub purge_expired : ℕ → ℕ → Manager → ℕ × Manager
purge_expired now wall s = purge_each now wall s.active_request_ids 0 s
