-- ===== src/Approval/Transitions.antt =====
-- A transition to a terminal state keeps `ApprovalStateManager` well formed
-- (`transitionToTerminal` of packages/policy/src/approval-state.ts).
use cesspace_arc.Base.{
  ℕ, ◌≡◌, sym, subst, Bool, true, false, Option, none, some, Text, text_eq, text_eq_iff,
  text_eq_refl, Dict, has-remove, lookup, lookup-delete, arith, if◌then◌else◌,
}
use cesspace_arc.Approval.Data.{ApprovalRecord, FailureReason, is_active}
use cesspace_arc.Approval.State.{Manager}
use cesspace_arc.Approval.Lifecycle.{
  Terminal, terminal_state, release_dedup, without_material, terminated, transition_to_terminal,
}
use cesspace_arc.Approval.Effects.{
  transition-IsDistinct, lookup-transition, total-transition, active_count-transition,
  by_actor-transition, bytes-transition, actor_bytes-transition, active_ids-transition,
  dedup-transition, limits-transition,
}
use cesspace_arc.Approval.Invariant.{
  active_one, actor_one, bytes_of, actor_bytes, IsSound, IsIndexed, IsAccounted, IsWithinQuota,
  IsWellFormed, IsCapped,
}

pub lookup-release_dedup :
    (r : ApprovalRecord) (m : Dict Text) (h : Text)
    → lookup r.execution_payload_hash m ≡ some r.request_id
    → lookup h (release_dedup r m)
      ≡ (if text_eq r.execution_payload_hash h then none else lookup h m)
unfolding release_dedup
lookup-release_dedup r m h held =
    ground (arith, text_eq_refl r.request_id, lookup-delete r.execution_payload_hash h m)

module _ (t : Terminal) (r : ApprovalRecord) where
  pub state-terminated : (terminated t r).state ≡ terminal_state t
  unfolding terminated without_material
  state-terminated = ground arith

  pub request_id-terminated : (terminated t r).request_id ≡ r.request_id
  unfolding terminated without_material
  request_id-terminated = ground arith

  pub quota_key-terminated : (terminated t r).actor_quota_key ≡ r.actor_quota_key
  unfolding terminated without_material
  quota_key-terminated = ground arith

  pub bytes-terminated : (terminated t r).review_bytes ≡ 0
  unfolding terminated without_material
  bytes-terminated = ground arith

  pub inactive-terminated : is_active (terminated t r).state ≡ false
  inactive-terminated = ground (arith, state-terminated)

  pub IsSound-terminated : IsSound (terminated t r)
  IsSound-terminated = ground (arith, state-terminated, bytes-terminated)

  pub hash-terminated : (terminated t r).execution_payload_hash ≡ r.execution_payload_hash
  unfolding terminated without_material
  hash-terminated = ground arith

module _ (wall : ℕ) (r : ApprovalRecord) (t : Terminal) (reason : Option FailureReason)
    (provided : Option Bool) (s : Manager)
    (stored : lookup r.request_id s.records_by_request_id ≡ some r)
    (active : is_active r.state ≡ true) where
  after : Manager
  after = transition_to_terminal wall r t reason provided s

  -- A key that still leads to a record is not the one that the transition freed.
  kept_key :
      IsIndexed s
      → (h id : Text) → lookup h after.request_id_by_dedup_key ≡ some id
      → (text_eq r.execution_payload_hash h ≡ false)
        × (lookup h s.request_id_by_dedup_key ≡ some id)
  unfolding after
  kept_key w h id e = ground (
    arith,
    dedup-transition wall r t reason provided s stored active,
    lookup-release_dedup r s.request_id_by_dedup_key h
        (w.dedup_complete r.request_id r stored active),
  )

  transition_dedup_sound :
      IsIndexed s
      → (h id : Text) → lookup h after.request_id_by_dedup_key ≡ some id
      → (x : ApprovalRecord) × (lookup id after.records_by_request_id ≡ some x)
        × (is_active x.state ≡ true)
        × (x.execution_payload_hash ≡ h)
  unfolding after
  transition_dedup_sound w h id e =
      let (other, before) = kept_key w h id e in
      let (x, found, act, same) = w.dedup_sound h id before in
      (
        x,
        ground (
          arith,
          lookup-transition wall r t reason provided s stored active id,
          text_eq_iff r.request_id id,
          text_eq_iff r.execution_payload_hash h,
        ),
        act,
        same,
      )

  transition-IsIndexed : IsIndexed s → IsIndexed after
  unfolding after
  transition-IsIndexed w = record {
    distinct = transition-IsDistinct wall r t reason provided s stored active w.distinct;
    keyed = λ id x h. ground (
      arith,
      lookup-transition wall r t reason provided s stored active id,
      text_eq_iff r.request_id id,
      request_id-terminated t r,
      w.keyed id x,
    );
    sound = λ id x h. ground (
      arith,
      lookup-transition wall r t reason provided s stored active id,
      IsSound-terminated t r,
      w.sound id x,
    );
    listed = λ id. ground (
      arith,
      active_ids-transition wall r t reason provided s stored active,
      has-remove r.request_id id s.active_request_ids,
      lookup-transition wall r t reason provided s stored active id,
      inactive-terminated t r,
      w.listed id,
    );
    dedup_sound = transition_dedup_sound w;
    dedup_complete = λ id x h a. ground (
      arith,
      dedup-transition wall r t reason provided s stored active,
      lookup-release_dedup r s.request_id_by_dedup_key x.execution_payload_hash
          (w.dedup_complete r.request_id r stored active),
      lookup-transition wall r t reason provided s stored active id,
      inactive-terminated t r,
      text_eq_iff r.execution_payload_hash x.execution_payload_hash,
      text_eq_iff r.request_id id,
      w.dedup_complete r.request_id r stored active,
      w.dedup_complete id x,
    );
  }

  transition-IsAccounted : IsAccounted s → IsAccounted after
  unfolding after
  transition-IsAccounted w = record {
    active = ground (
      arith,
      active_count-transition wall r t reason provided s stored active,
      total-transition wall r t reason provided s stored active active_one,
      inactive-terminated t r,
      w.active,
    );
    by_actor = λ k. ground (
      arith,
      by_actor-transition wall r t reason provided s stored active k,
      total-transition wall r t reason provided s stored active (actor_one k),
      inactive-terminated t r,
      quota_key-terminated t r,
      w.by_actor k,
    );
    bytes = ground (
      arith,
      bytes-transition wall r t reason provided s stored active,
      total-transition wall r t reason provided s stored active bytes_of,
      bytes-terminated t r,
      w.bytes,
    );
    bytes_by_actor = λ k. ground (
      arith,
      actor_bytes-transition wall r t reason provided s stored active k,
      total-transition wall r t reason provided s stored active (actor_bytes k),
      bytes-terminated t r,
      quota_key-terminated t r,
      w.bytes_by_actor k,
    );
  }

  transition-IsWithinQuota : IsWithinQuota s → IsWithinQuota after
  unfolding after
  transition-IsWithinQuota w = record {
    capped =
        subst IsCapped (sym (limits-transition wall r t reason provided s stored active)) w.capped;
    per_record = λ id x h. ground (
      arith,
      lookup-transition wall r t reason provided s stored active id,
      limits-transition wall r t reason provided s stored active,
      bytes-terminated t r,
      w.per_record id x,
    );
    active = ground (
      arith,
      active_count-transition wall r t reason provided s stored active,
      limits-transition wall r t reason provided s stored active,
      w.active,
    );
    by_actor = λ k. ground (
      arith,
      by_actor-transition wall r t reason provided s stored active k,
      limits-transition wall r t reason provided s stored active,
      w.by_actor k,
    );
    bytes = ground (
      arith,
      bytes-transition wall r t reason provided s stored active,
      limits-transition wall r t reason provided s stored active,
      w.bytes,
    );
    bytes_by_actor = λ k. ground (
      arith,
      actor_bytes-transition wall r t reason provided s stored active k,
      limits-transition wall r t reason provided s stored active,
      w.bytes_by_actor k,
    );
  }

  -- What one transition does to a well-formed manager.
  pub transition-IsWellFormed :
      IsWellFormed s → IsWellFormed (transition_to_terminal wall r t reason provided s)
  unfolding after
  transition-IsWellFormed w = record {
    indexed = transition-IsIndexed w.indexed;
    accounted = transition-IsAccounted w.accounted;
    within = transition-IsWithinQuota w.within;
  }
