-- ===== src/Approval/Invariant.antt =====
-- The well-formedness of `ApprovalStateManager` (packages/policy/src/approval-state.ts): its
-- indexes name the active records, its counters are sums over them, and no quota is passed.
use cesspace_arc.Base.{
  ℕ, ◌≤◌, ◌≡◌, Bool, true, false, Option, none, some, List, Text, text_eq, has, IsDistinct, lookup,
  total, if◌then◌else◌,
}
use cesspace_arc.Approval.Data.{
  LifecycleEvent, ApprovalRecord, ApprovalState, approved, is_active, is_pending,
  max_active_approvals_global, max_active_approvals_per_actor, max_review_bytes_per_record,
  max_review_bytes_per_actor, max_review_bytes_global,
}
use cesspace_arc.Approval.State.{Limits, Manager}
use cesspace_arc.Approval.Effects.{count_at}

-- The measures that the counters sum.
abbrev pub active_one : ApprovalRecord → ℕ
active_one r = if is_active r.state then 1 else 0

abbrev pub actor_one : Text → ApprovalRecord → ℕ
actor_one k r = if text_eq r.actor_quota_key k then active_one r else 0

abbrev pub bytes_of : ApprovalRecord → ℕ
bytes_of r = r.review_bytes

abbrev pub actor_bytes : Text → ApprovalRecord → ℕ
actor_bytes k r = if text_eq r.actor_quota_key k then r.review_bytes else 0

-- Whether a record is found, and is active.
abbrev pub found_active : Option ApprovalRecord → Bool
found_active none = false
found_active (some r) = is_active r.state

abbrev pub holds_digest : Option Text → Bool
holds_digest none = false
holds_digest (some _) = true

abbrev pub is_approved : ApprovalState → Bool
is_approved approved = true
is_approved _ = false

-- What a stored record satisfies: review material is kept only while it is pending, and an
-- approved record has a token digest.
pub record IsSound (r : ApprovalRecord) : Type 0 where
  pub no_material : is_pending r.state ≡ false → r.review_bytes ≡ 0
  pub has_digest : is_approved r.state ≡ true → holds_digest r.token_digest ≡ true

pub record IsIndexed (s : Manager) : Type 0 where
  pub distinct : IsDistinct s.records_by_request_id
  pub keyed :
      (id : Text) (r : ApprovalRecord)
      → lookup id s.records_by_request_id ≡ some r
      → r.request_id ≡ id
  pub sound :
      (id : Text) (r : ApprovalRecord) → lookup id s.records_by_request_id ≡ some r → IsSound r
  pub listed :
      (id : Text) → has id s.active_request_ids ≡ found_active (lookup id s.records_by_request_id)
  pub dedup_sound :
      (h id : Text)
      → lookup h s.request_id_by_dedup_key ≡ some id
      → (r : ApprovalRecord) × (lookup id s.records_by_request_id ≡ some r)
        × (is_active r.state ≡ true)
        × (r.execution_payload_hash ≡ h)
  pub dedup_complete :
      (id : Text) (r : ApprovalRecord)
      → lookup id s.records_by_request_id ≡ some r
      → is_active r.state ≡ true
      → lookup r.execution_payload_hash s.request_id_by_dedup_key ≡ some id

pub record IsAccounted (s : Manager) : Type 0 where
  pub active : s.active_count_global ≡ total active_one s.records_by_request_id
  pub by_actor :
      (k : Text) → count_at k s.active_count_by_actor ≡ total (actor_one k) s.records_by_request_id
  pub bytes : s.review_bytes_global ≡ total bytes_of s.records_by_request_id
  pub bytes_by_actor :
      (k : Text)
      → count_at k s.review_bytes_by_actor ≡ total (actor_bytes k) s.records_by_request_id

-- The limits of a manager are at most those of production.
pub record IsCapped (l : Limits) : Type 0 where
  pub active : l.active_global ≤ max_active_approvals_global
  pub by_actor : l.active_per_actor ≤ max_active_approvals_per_actor
  pub per_record : l.bytes_per_record ≤ max_review_bytes_per_record
  pub bytes_by_actor : l.bytes_per_actor ≤ max_review_bytes_per_actor
  pub bytes : l.bytes_global ≤ max_review_bytes_global

pub record IsWithinQuota (s : Manager) : Type 0 where
  pub capped : IsCapped s.limits
  pub per_record :
      (id : Text) (r : ApprovalRecord)
      → lookup id s.records_by_request_id ≡ some r
      → r.review_bytes ≤ s.limits.bytes_per_record
  pub active : s.active_count_global ≤ s.limits.active_global
  pub by_actor : (k : Text) → count_at k s.active_count_by_actor ≤ s.limits.active_per_actor
  pub bytes : s.review_bytes_global ≤ s.limits.bytes_global
  pub bytes_by_actor : (k : Text) → count_at k s.review_bytes_by_actor ≤ s.limits.bytes_per_actor

pub record IsWellFormed (s : Manager) : Type 0 where
  pub indexed : IsIndexed s
  pub accounted : IsAccounted s
  pub within : IsWithinQuota s

-- The observers and what was delivered to them have no part in it.
pub IsWellFormed-observers :
    (sinks : List ℕ) (sent : List (ℕ × LifecycleEvent)) (s : Manager)
    → IsWellFormed s
    → IsWellFormed (record s { lifecycle_sinks = sinks; delivered = sent })
IsWellFormed-observers sinks sent s w = record {
  indexed = record {
    distinct = w.indexed.distinct;
    keyed = w.indexed.keyed;
    sound = w.indexed.sound;
    listed = w.indexed.listed;
    dedup_sound = w.indexed.dedup_sound;
    dedup_complete = w.indexed.dedup_complete;
  };
  accounted = record {
    active = w.accounted.active;
    by_actor = w.accounted.by_actor;
    bytes = w.accounted.bytes;
    bytes_by_actor = w.accounted.bytes_by_actor;
  };
  within = record {
    capped = w.within.capped;
    per_record = w.within.per_record;
    active = w.within.active;
    by_actor = w.within.by_actor;
    bytes = w.within.bytes;
    bytes_by_actor = w.within.bytes_by_actor;
  };
}
