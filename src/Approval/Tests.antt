-- ===== src/Approval/Tests.antt =====
-- The theorems on `ApprovalStateManager` (packages/policy/src/approval-state.ts) at the run of
-- Scenario.
use cesspace_arc.Base.{◌≤◌, ◌<◌, ◌≡◌, ◌↔◌, refl, true, false, some, Text, lookup, total}
use cesspace_arc.Approval.Data.{
  ApprovalRecord, ok, max_active_approvals_global, max_active_approvals_per_actor,
  max_review_bytes_per_record, max_review_bytes_per_actor, max_review_bytes_global,
}
use cesspace_arc.Approval.State.{to_snapshot}
use cesspace_arc.Approval.Lifecycle.{reclaim_expired_active_records}
use cesspace_arc.Approval.Requests.{create_or_reuse_pending}
use cesspace_arc.Approval.Decisions.{redeem_and_consume}
use cesspace_arc.Approval.Invariant.{active_one, actor_one, bytes_of, actor_bytes, IsAccounted}
use cesspace_arc.Approval.Operations.{none_made, then_call}
use cesspace_arc.Approval.History.{Evolves, record_history}
use cesspace_arc.Approval.Redemption.{IsRedeemable, succeeds, redeem_succeeds_iff}
use cesspace_arc.Approval.SingleUse.{redeem_once}
use cesspace_arc.Approval.Deadlines.{reclaim_leaves_live}
use cesspace_arc.Approval.Reuse.{create_reuses}
use cesspace_arc.Approval.Quotas.{counters_exact, quotas_hold}
use cesspace_arc.Approval.Scenario.{
  digest, hash_a, id_0, defaults, empty, request, clock, requested, granted_manager, redemption,
  pending_record, approved_one, wrong_token, made, valid_request, requested_record, approved_stored,
  approve-Call, granted_reached, requested-IsWellFormed, granted_manager-IsWellFormed,
  redemption_ok, redemption-succeeds, live_at_5, live_at_6, reclaimed_record, pending_active,
  pending_hash,
}

quotas_hold_example :
    (total active_one granted_manager.records_by_request_id ≤ max_active_approvals_global)
    × ((k : Text)
        → total (actor_one k) granted_manager.records_by_request_id
          ≤ max_active_approvals_per_actor)
    × (total bytes_of granted_manager.records_by_request_id ≤ max_review_bytes_global)
    × ((k : Text)
        → total (actor_bytes k) granted_manager.records_by_request_id ≤ max_review_bytes_per_actor)
    × ((id : Text) (r : ApprovalRecord)
        → lookup id granted_manager.records_by_request_id ≡ some r
        → r.review_bytes ≤ max_review_bytes_per_record)
quotas_hold_example = quotas_hold defaults empty granted_manager made granted_reached

counters_exact_example : IsAccounted granted_manager
counters_exact_example = counters_exact defaults empty granted_manager made granted_reached

redeem_once_example :
    succeeds
      (redeem_and_consume digest clock 4000 wrong_token
        (redeem_and_consume digest clock 3000 redemption granted_manager).1).0
    ≡ false
redeem_once_example =
    redeem_once digest clock clock 3000 4000 redemption wrong_token granted_manager _
      granted_manager-IsWellFormed redemption-succeeds none_made refl

redeem_succeeds_iff_example :
    (succeeds (redeem_and_consume digest clock 3000 redemption granted_manager).0 ≡ true)
    ↔ IsRedeemable digest 5 redemption approved_one
redeem_succeeds_iff_example =
    redeem_succeeds_iff digest clock 3000 redemption approved_one granted_manager redemption_ok
      approved_stored

record_history_example :
    (x : ApprovalRecord) × (lookup id_0 granted_manager.records_by_request_id ≡ some x)
    × Evolves pending_record x
record_history_example =
    record_history id_0 pending_record (then_call none_made approve-Call) requested-IsWellFormed
      requested_record

create_reuses_example :
    create_or_reuse_pending clock 1500 hash_a request requested
    ≡ (ok (to_snapshot 8 pending_record), reclaim_expired_active_records 5 1500 requested)
create_reuses_example =
    create_reuses clock 1500 hash_a request id_0 pending_record requested requested-IsWellFormed
      valid_request requested_record pending_active pending_hash live_at_5 live_at_6

reclaim_leaves_live_example :
    (lookup id_0 requested.records_by_request_id ≡ some pending_record)
    × (5 < pending_record.monotonic_deadline)
reclaim_leaves_live_example =
    reclaim_leaves_live 5 1000 id_0 pending_record requested requested-IsWellFormed reclaimed_record
      pending_active
