-- ===== src/Approval/Scenario.antt =====
-- A run of `ApprovalStateManager` (packages/policy/src/approval-state.ts) for its tests, and its
-- outcomes. The digest is taken to be the text itself.
use cesspace_arc.Base.{
  ℕ, ◌+◌, ◌<◌, ◌≡◌, refl, true, none, some, Text, text, text_eq, is_hex, is_blank, has, remove, add,
  byte_length, json_array, lookup, insert, delete, total, replicate, arith,
}
use cesspace_arc.Approval.Summary.{not_an_object, sanitize_review_summary}
use cesspace_arc.Approval.Data.{
  ApprovalRecord, Actor, Workspace, RedemptionInput, is_active, max_active_approvals_global,
  max_active_approvals_per_actor, max_review_bytes_per_record, max_review_bytes_global,
}
use cesspace_arc.Approval.State.{
  Manager, Options, not_given, natural, new_manager, Limits, empty_manager, register_lifecycle_sink,
  emit_lifecycle_event, actor_quota_key, to_snapshot,
}
use cesspace_arc.Approval.Lifecycle.{
  release, release_dedup, release_slots, drop_review_material, without_material, terminated,
  transition_to_terminal, check_lazy_expiry, expire_if_due, expire_each,
  reclaim_expired_active_records,
}
use cesspace_arc.Approval.Requests.{
  CreateInput, create_input_ok, material_bytes, new_record, within_quota, store_pending, admit_new,
  find_existing, reuse_or_admit, create_or_reuse_pending,
}
use cesspace_arc.Approval.Decisions.{
  granted, grant_record, decide_pending, approve, actor_matches, workspace_matches, digest_matches,
  redeem_input_ok, binding_failure, invalidate_for_policy, consume, redeem_in_state, redeem_found,
  redeem_and_consume,
}
use cesspace_arc.Approval.Invariant.{IsWellFormed}
use cesspace_arc.Approval.Moves.{Moves-IsWellFormed}
use cesspace_arc.Approval.Operations.{
  Call, approve_one, create, Reach, start, after_call, Call-Moves,
}
use cesspace_arc.Approval.Redemption.{succeeds}
use cesspace_arc.Approval.SingleUse.{failure_reason, names_reason}
use cesspace_arc.Approval.Quotas.{new_manager-IsWellFormed}

unfoldable pub manager : Unit {0}
unfolding new_manager register_lifecycle_sink emit_lifecycle_event actor_quota_key to_snapshot
    release release_dedup release_slots drop_review_material without_material terminated
    transition_to_terminal check_lazy_expiry expire_if_due expire_each
    reclaim_expired_active_records create_input_ok material_bytes new_record within_quota
    store_pending admit_new find_existing reuse_or_admit create_or_reuse_pending granted
    grant_record decide_pending approve actor_matches workspace_matches digest_matches
    redeem_input_ok binding_failure invalidate_for_policy consume redeem_in_state redeem_found
    redeem_and_consume text_eq is_hex is_blank has remove add byte_length json_array lookup insert
    delete total sanitize_review_summary
manager = tt

abbrev pub digest : Text → Text
digest t = t

abbrev pub hash_a : Text
hash_a = replicate 64 97

abbrev pub hash_b : Text
hash_b = replicate 64 98

abbrev pub id_0 : Text
id_0 = replicate 32 48

abbrev pub token_c : Text
token_c = replicate 64 99

abbrev pub defaults : Options
defaults = record {
  active_global = not_given;
  active_per_actor = not_given;
  bytes_per_record = not_given;
  bytes_per_actor = natural 100;
  bytes_global = not_given;
}

abbrev pub limits : Limits
limits = record {
  active_global = max_active_approvals_global;
  active_per_actor = max_active_approvals_per_actor;
  bytes_per_record = max_review_bytes_per_record;
  bytes_per_actor = 100;
  bytes_global = max_review_bytes_global;
}

abbrev pub empty : Manager
empty = empty_manager limits

abbrev pub actor : Actor
actor = record {
  client_id = text "agent";
  client_type = text "codex";
  session_id = none;
  device_id = some (text "d1");
}

abbrev pub place : Workspace
place = record { workspace_id = text "w"; workspace_root_hash = hash_a }

abbrev pub request : CreateInput
request = record {
  tool_name = text "write_file";
  execution_payload_hash = hash_b;
  binding = record { actor = actor; workspace = place; policy_hash = hash_a };
  review_material = some (text "diff");
  review_summary = not_an_object;
}

-- The readings of the clock in each call are 5, 6, 7, …
abbrev pub clock : ℕ → ℕ
clock i = 5 + i

abbrev pub requested : Manager
requested = (create_or_reuse_pending clock 1000 id_0 request empty).1

abbrev pub granted_manager : Manager
granted_manager = (approve digest clock 2000 token_c id_0 requested).1

abbrev pub redemption : RedemptionInput
redemption = record {
  request_id = id_0;
  token = token_c;
  execution_payload_hash = hash_b;
  actor = actor;
  workspace = place;
  policy_hash = hash_a;
}

abbrev pub pending_record : ApprovalRecord
pending_record = new_record clock 1000 id_0 request

abbrev pub approved_one : ApprovalRecord
approved_one = without_material (granted token_c pending_record)

pub made : new_manager defaults ≡ some empty
unfolding manager
made = refl

pub valid_request : create_input_ok request ≡ true
unfolding manager
valid_request = refl

pub requested_record : lookup id_0 requested.records_by_request_id ≡ some pending_record
unfolding manager
requested_record = refl

pub approved_stored : lookup id_0 granted_manager.records_by_request_id ≡ some approved_one
unfolding manager
approved_stored = refl

id_unused : lookup id_0 empty.records_by_request_id ≡ none
unfolding manager
id_unused = refl

requested-Call : Call digest empty requested
requested-Call = create clock 1000 id_0 request id_unused refl

pub approve-Call : Call digest requested granted_manager
approve-Call = approve_one clock 2000 token_c id_0 refl

pub granted_reached : Reach digest empty granted_manager
granted_reached = after_call (after_call start requested-Call) approve-Call

empty-IsWellFormed : IsWellFormed empty
empty-IsWellFormed = new_manager-IsWellFormed defaults empty made

pub requested-IsWellFormed : IsWellFormed requested
requested-IsWellFormed =
    Moves-IsWellFormed (Call-Moves requested-Call empty-IsWellFormed) empty-IsWellFormed

pub granted_manager-IsWellFormed : IsWellFormed granted_manager
granted_manager-IsWellFormed =
    Moves-IsWellFormed (Call-Moves approve-Call requested-IsWellFormed) requested-IsWellFormed

pub redemption_ok : redeem_input_ok redemption ≡ true
unfolding manager
redemption_ok = refl

pub redemption-succeeds :
    succeeds (redeem_and_consume digest clock 3000 redemption granted_manager).0 ≡ true
unfolding manager
redemption-succeeds = refl

abbrev pub wrong_token : RedemptionInput
wrong_token = record redemption { token = id_0 }

pub wrong_token_refused :
    names_reason
      (failure_reason (redeem_and_consume digest clock 3000 wrong_token granted_manager).0)
    ≡ true
unfolding manager
wrong_token_refused = refl

pub live_at_5 : 5 < pending_record.monotonic_deadline
unfolding manager
live_at_5 = omega arith

pub live_at_6 : 6 < pending_record.monotonic_deadline
unfolding manager
live_at_6 = omega arith

pub reclaimed_record :
    lookup id_0 (reclaim_expired_active_records 5 1000 requested).records_by_request_id
    ≡ some pending_record
unfolding manager
reclaimed_record = refl

pub pending_active : is_active pending_record.state ≡ true
unfolding manager
pending_active = refl

pub pending_hash : pending_record.execution_payload_hash ≡ request.execution_payload_hash
unfolding manager
pending_hash = refl
