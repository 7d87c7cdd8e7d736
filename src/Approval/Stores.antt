-- ===== src/Approval/Stores.antt =====
-- The storing of a new request by `createOrReusePending` (packages/policy/src/approval-state.ts)
-- keeps the manager well formed.
use cesspace_arc.Base.{
  ℕ, ◌+◌, ◌≡◌, true, none, some, Text, text_eq, text_eq_iff, text_eq_refl, has, has-add, lookup,
  lookup-insert, total, total-insert, ltb, IsDistinct, insert-IsDistinct, Bool-cases, inl, inr, sym,
  subst, arith, if◌then◌else◌,
}
use cesspace_arc.Approval.Data.{ApprovalRecord, pending, is_active}
use cesspace_arc.Approval.State.{Manager}
use cesspace_arc.Approval.Requests.{within_quota, store_pending}
use cesspace_arc.Approval.Effects.{count_at}
use cesspace_arc.Approval.Invariant.{
  active_one, actor_one, bytes_of, actor_bytes, IsIndexed, IsAccounted, IsWithinQuota, IsWellFormed,
  IsCapped,
}

-- A new record under an id that no record has, for a payload that no active record serves.
module _ (r : ApprovalRecord) (s : Manager) (is_new : r.state ≡ pending)
    (fresh : lookup r.request_id s.records_by_request_id ≡ none)
    (free : lookup r.execution_payload_hash s.request_id_by_dedup_key ≡ none) where
  abbrev after : Manager
  after = store_pending r s

  pub lookup-store :
      (j : Text)
      → lookup j (store_pending r s).records_by_request_id
        ≡ (if text_eq r.request_id j then some r else lookup j s.records_by_request_id)
  unfolding store_pending
  lookup-store j = ground (arith, lookup-insert r.request_id j r s.records_by_request_id)

  store-IsDistinct : IsDistinct s.records_by_request_id → IsDistinct after.records_by_request_id
  unfolding store_pending
  store-IsDistinct d = elim (Bool-cases (ltb 0 r.review_bytes)) [
    | inl some_bytes ↦ rw some_bytes (insert-IsDistinct r.request_id r s.records_by_request_id d)
    | inr no_bytes ↦ rw no_bytes (insert-IsDistinct r.request_id r s.records_by_request_id d)
  ]

  total-store :
      (f : ApprovalRecord → ℕ)
      → total f after.records_by_request_id ≡ total f s.records_by_request_id + f r
  unfolding store_pending
  total-store f = ground (arith, total-insert f r.request_id r s.records_by_request_id)

  dedup-store :
      (h : Text)
      → lookup h after.request_id_by_dedup_key ≡ (
          if text_eq r.execution_payload_hash h
          then some r.request_id
          else lookup h s.request_id_by_dedup_key)
  unfolding store_pending
  dedup-store h =
      ground
        (arith, lookup-insert r.execution_payload_hash h r.request_id s.request_id_by_dedup_key)

  listed-store :
      (id : Text)
      → has id after.active_request_ids
        ≡ (if text_eq r.request_id id then true else has id s.active_request_ids)
  unfolding store_pending
  listed-store id = ground (arith, has-add r.request_id id s.active_request_ids)

  counts-store :
      (after.active_count_global ≡ s.active_count_global + 1)
      × (after.review_bytes_global ≡ s.review_bytes_global + r.review_bytes)
      × (after.limits ≡ s.limits)
  unfolding store_pending
  counts-store = ground arith

  by_actor-store :
      (k : Text)
      → count_at k after.active_count_by_actor ≡ (
          if text_eq r.actor_quota_key k
          then count_at r.actor_quota_key s.active_count_by_actor + 1
          else count_at k s.active_count_by_actor)
  unfolding store_pending
  by_actor-store k = ground (
    arith,
    lookup-insert r.actor_quota_key k (count_at r.actor_quota_key s.active_count_by_actor + 1)
        s.active_count_by_actor,
  )

  bytes_by_actor-store :
      (k : Text)
      → count_at k after.review_bytes_by_actor ≡ (
          if text_eq r.actor_quota_key k
          then count_at r.actor_quota_key s.review_bytes_by_actor + r.review_bytes
          else count_at k s.review_bytes_by_actor)
  unfolding store_pending
  bytes_by_actor-store k = ground (
    arith,
    text_eq_iff r.actor_quota_key k,
    lookup-insert r.actor_quota_key k
        (count_at r.actor_quota_key s.review_bytes_by_actor + r.review_bytes)
        s.review_bytes_by_actor,
  )

  store_dedup_sound :
      IsIndexed s
      → (h id : Text) → lookup h after.request_id_by_dedup_key ≡ some id
      → (x : ApprovalRecord) × (lookup id after.records_by_request_id ≡ some x)
        × (is_active x.state ≡ true)
        × (x.execution_payload_hash ≡ h)
  store_dedup_sound w h id e = elim (Bool-cases (text_eq r.execution_payload_hash h)) [
    | inl same ↦
        let key : r.request_id ≡ id = ground (arith, dedup-store h) in
        (
          r,
          ground (arith, lookup-store id, text_eq_iff r.request_id id),
          ground arith,
          (text_eq_iff r.execution_payload_hash h).0 same,
        )
    | inr other ↦
        let (x, found, act, same) = w.dedup_sound h id (ground (arith, dedup-store h)) in
        (x, ground (arith, lookup-store id, text_eq_iff r.request_id id), act, same)
  ]

  store-IsIndexed : IsIndexed s → IsIndexed after
  store-IsIndexed w = record {
    distinct = store-IsDistinct w.distinct;
    keyed = λ id x h. ground (arith, lookup-store id, text_eq_iff r.request_id id, w.keyed id x);
    sound = λ id x h. ground (arith, lookup-store id, w.sound id x);
    listed = λ id. ground (arith, listed-store id, lookup-store id, w.listed id);
    dedup_sound = store_dedup_sound w;
    dedup_complete = λ id x h a. ground (
      arith,
      dedup-store x.execution_payload_hash,
      lookup-store id,
      text_eq_iff r.request_id id,
      text_eq_iff r.execution_payload_hash x.execution_payload_hash,
      text_eq_refl r.execution_payload_hash,
      w.dedup_complete id x,
    );
  }

  store-IsAccounted : IsAccounted s → IsAccounted after
  store-IsAccounted w = record {
    active = ground (arith, counts-store.0, total-store active_one, w.active);
    by_actor = λ k. ground (
      arith,
      by_actor-store k,
      total-store (actor_one k),
      text_eq_iff r.actor_quota_key k,
      w.by_actor k,
    );
    bytes = ground (arith, counts-store.1, total-store bytes_of, w.bytes);
    bytes_by_actor = λ k. ground (
      arith,
      bytes_by_actor-store k,
      total-store (actor_bytes k),
      text_eq_iff r.actor_quota_key k,
      w.bytes_by_actor k,
    );
  }

  store-IsWithinQuota : within_quota r s ≡ true → IsWithinQuota s → IsWithinQuota after
  unfolding within_quota
  store-IsWithinQuota q w = record {
    capped = subst IsCapped (sym counts-store.2) w.capped;
    per_record = λ id x h. ground (arith, lookup-store id, counts-store.2, w.per_record id x);
    active = ground (arith, counts-store.0, counts-store.2);
    by_actor = λ k. ground (arith, by_actor-store k, counts-store.2, w.by_actor k);
    bytes = ground (arith, counts-store.1, counts-store.2);
    bytes_by_actor =
        λ k. ground (arith, bytes_by_actor-store k, counts-store.2, w.bytes_by_actor k);
  }

  pub store-IsWellFormed : within_quota r s ≡ true → IsWellFormed s → IsWellFormed after
  store-IsWellFormed q w = record {
    indexed = store-IsIndexed w.indexed;
    accounted = store-IsAccounted w.accounted;
    within = store-IsWithinQuota q w.within;
  }
