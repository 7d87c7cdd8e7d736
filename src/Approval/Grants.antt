-- ===== src/Approval/Grants.antt =====
-- `approve` keeps `ApprovalStateManager` well formed (packages/policy/src/approval-state.ts): the
-- record leaves PENDING for APPROVED, and its review material is released.
use cesspace_arc.Base.{
  ℕ, ◌+◌, ◌-◌, ◌≡◌, sym, subst, true, some, Text, text_eq, text_eq_iff, text_eq_refl, lookup,
  insert, lookup-insert, total, IsDistinct, insert-IsDistinct, Bool-cases, inl, inr, arith,
  if◌then◌else◌,
}
use cesspace_arc.Approval.Data.{ApprovalRecord, approved, is_active, is_pending}
use cesspace_arc.Approval.State.{Manager, emit_lifecycle_event}
use cesspace_arc.Approval.Lifecycle.{without_material, drop_review_material}
use cesspace_arc.Approval.Effects.{
  count_at, drop-IsDistinct, total-replace, lookup-drop, total-drop, drop_actor_bytes,
}
use cesspace_arc.Approval.Decisions.{granted, grant_record}
use cesspace_arc.Approval.Invariant.{
  active_one, actor_one, bytes_of, actor_bytes, IsIndexed, IsAccounted, IsWithinQuota, IsWellFormed,
  IsCapped,
}

-- The record as `approve` leaves it.
unfoldable pub approved_record : Text → ApprovalRecord → ApprovalRecord
approved_record digest r = without_material (granted digest r)

-- The write above the release of review material.
stored_grant : Text → ApprovalRecord → Manager → Manager
stored_grant digest r s = record s {
  records_by_request_id = insert r.request_id (granted digest r) s.records_by_request_id;
}

module _ (digest : Text) (r : ApprovalRecord) where
  pub record IsGranted (x : ApprovalRecord) : Type 0 where
    pub state : x.state ≡ approved
    pub request_id : x.request_id ≡ r.request_id
    pub hash : x.execution_payload_hash ≡ r.execution_payload_hash
    pub quota_key : x.actor_quota_key ≡ r.actor_quota_key
    pub bytes : x.review_bytes ≡ 0
    pub deadline : x.monotonic_deadline ≡ r.monotonic_deadline
    pub digest_kept : x.token_digest ≡ some digest

  pub approved_record-IsGranted : IsGranted (approved_record digest r)
  unfolding approved_record granted without_material
  approved_record-IsGranted = ground arith

module _ (wall : ℕ) (digest : Text) (r : ApprovalRecord) (s : Manager)
    (stored : lookup r.request_id s.records_by_request_id ≡ some r)
    (pending : is_pending r.state ≡ true) where
  abbrev after : Manager
  after = grant_record wall digest r s

  grant_stored :
      lookup r.request_id (stored_grant digest r s).records_by_request_id ≡ some (granted digest r)
  unfolding stored_grant
  grant_stored = rw (lookup-insert, text_eq_refl)

  pub lookup-grant :
      (j : Text)
      → lookup j (grant_record wall digest r s).records_by_request_id ≡ (
          if text_eq r.request_id j
          then some (approved_record digest r)
          else lookup j s.records_by_request_id)
  unfolding grant_record emit_lifecycle_event granted approved_record stored_grant
  lookup-grant j = ground (
    arith,
    lookup-drop (granted digest r) (stored_grant digest r s) grant_stored j,
    lookup-insert r.request_id j (granted digest r) s.records_by_request_id,
  )

  total-grant :
      (f : ApprovalRecord → ℕ)
      → total f after.records_by_request_id + f r
        ≡ total f s.records_by_request_id + f (approved_record digest r)
  unfolding grant_record emit_lifecycle_event granted approved_record stored_grant
  total-grant f = omega (
    arith,
    total-drop (granted digest r) (stored_grant digest r s) grant_stored f,
    total-replace f r.request_id r (granted digest r) s.records_by_request_id stored,
  )

  grant-IsDistinct : IsDistinct s.records_by_request_id → IsDistinct after.records_by_request_id
  unfolding grant_record emit_lifecycle_event granted stored_grant
  grant-IsDistinct d =
      drop-IsDistinct (granted digest r) (stored_grant digest r s) grant_stored
        (insert-IsDistinct r.request_id (granted digest r) s.records_by_request_id d)

  unchanged :
      (after.active_count_global ≡ s.active_count_global)
      × (after.active_count_by_actor ≡ s.active_count_by_actor)
      × (after.active_request_ids ≡ s.active_request_ids)
      × (after.request_id_by_dedup_key ≡ s.request_id_by_dedup_key)
      × (after.limits ≡ s.limits)
  unfolding grant_record emit_lifecycle_event drop_review_material granted
  unchanged = ground arith

  bytes-grant : after.review_bytes_global ≡ s.review_bytes_global - r.review_bytes
  unfolding grant_record emit_lifecycle_event drop_review_material granted
  bytes-grant = ground arith

  actor_bytes-grant :
      (j : Text)
      → count_at j after.review_bytes_by_actor ≡ (
          if text_eq r.actor_quota_key j
          then count_at j s.review_bytes_by_actor - r.review_bytes
          else count_at j s.review_bytes_by_actor)
  unfolding grant_record emit_lifecycle_event granted stored_grant
  actor_bytes-grant j =
      ground (arith, drop_actor_bytes (granted digest r) (stored_grant digest r s) grant_stored j)

  grant_dedup_sound :
      IsIndexed s
      → (h id : Text) → lookup h after.request_id_by_dedup_key ≡ some id
      → (x : ApprovalRecord) × (lookup id after.records_by_request_id ≡ some x)
        × (is_active x.state ≡ true)
        × (x.execution_payload_hash ≡ h)
  grant_dedup_sound w h id e =
      let (x, found, act, same) = w.dedup_sound h id (ground (arith, unchanged.3)) in
      let g = approved_record-IsGranted digest r in
      elim (Bool-cases (text_eq r.request_id id)) [
        | inl here ↦ (
          approved_record digest r,
          ground (arith, lookup-grant id),
          ground (arith, g.state),
          ground (arith, g.hash, text_eq_iff r.request_id id),
        )
        | inr other ↦ (x, ground (arith, lookup-grant id), act, same)
      ]

  grant-IsIndexed : IsIndexed s → IsIndexed after
  grant-IsIndexed w =
      let g = approved_record-IsGranted digest r in
      record {
        distinct = grant-IsDistinct w.distinct;
        keyed = λ id x h.
            ground
              (arith, lookup-grant id, text_eq_iff r.request_id id, g.request_id, w.keyed id x);
        sound = λ id x h.
            ground (arith, lookup-grant id, g.bytes, g.state, g.digest_kept, w.sound id x);
        listed = λ id. ground (
          arith,
          unchanged.2,
          lookup-grant id,
          text_eq_iff r.request_id id,
          g.state,
          w.listed id,
        );
        dedup_sound = grant_dedup_sound w;
        dedup_complete = λ id x h a. ground (
          arith,
          unchanged.3,
          lookup-grant id,
          text_eq_iff r.request_id id,
          g.hash,
          w.dedup_complete r.request_id r stored,
          w.dedup_complete id x,
        );
      }

  grant-IsAccounted : IsAccounted s → IsAccounted after
  grant-IsAccounted w =
      let g = approved_record-IsGranted digest r in
      record {
        active = ground (arith, unchanged.0, total-grant active_one, g.state, w.active);
        by_actor = λ k.
            ground
              (arith, unchanged.1, total-grant (actor_one k), g.state, g.quota_key, w.by_actor k);
        bytes = ground (arith, bytes-grant, total-grant bytes_of, g.bytes, w.bytes);
        bytes_by_actor = λ k. ground (
          arith,
          actor_bytes-grant k,
          total-grant (actor_bytes k),
          g.bytes,
          g.quota_key,
          w.bytes_by_actor k,
        );
      }

  grant-IsWithinQuota : IsWithinQuota s → IsWithinQuota after
  grant-IsWithinQuota w =
      let g = approved_record-IsGranted digest r in
      record {
        capped = subst IsCapped (sym unchanged.4) w.capped;
        per_record =
            λ id x h. ground (arith, lookup-grant id, unchanged.4, g.bytes, w.per_record id x);
        active = ground (arith, unchanged.0, unchanged.4, w.active);
        by_actor = λ k. ground (arith, unchanged.1, unchanged.4, w.by_actor k);
        bytes = ground (arith, bytes-grant, unchanged.4, w.bytes);
        bytes_by_actor = λ k. ground (arith, actor_bytes-grant k, unchanged.4, w.bytes_by_actor k);
      }

  pub grant-IsWellFormed : IsWellFormed s → IsWellFormed (grant_record wall digest r s)
  grant-IsWellFormed w = record {
    indexed = grant-IsIndexed w.indexed;
    accounted = grant-IsAccounted w.accounted;
    within = grant-IsWithinQuota w.within;
  }
