-- ===== src/Approval/Effects.antt =====
-- What one transition to a terminal state does to each index and counter of the manager, for
-- `transitionToTerminal` and `dropReviewMaterial` of packages/policy/src/approval-state.ts.
use cesspace_arc.Base.{
  ℕ, ◌+◌, ◌-◌, ◌≡◌, Bool, true, Option, some, Text, text_eq, text_eq_iff, text_eq_refl, remove,
  Dict, lookup, insert, total, total-insert, lookup-insert, lookup-delete, or_else, ltb, IsDistinct,
  insert-IsDistinct, Bool-cases, inl, inr, arith, if◌then◌else◌,
}
use cesspace_arc.Approval.Data.{ApprovalRecord, FailureReason, is_active}
use cesspace_arc.Approval.State.{Manager, emit_lifecycle_event}
use cesspace_arc.Approval.Lifecycle.{
  Terminal, terminal_state, release, release_dedup, release_slots, without_material,
  drop_review_material, terminated, transition_to_terminal,
}

-- A counter of a map, 0 where there is none.
abbrev pub count_at : Text → Dict ℕ → ℕ
count_at k m = or_else (lookup k m) 0

pub count_at-release :
    (k j : Text) (n : ℕ) (m : Dict ℕ)
    → count_at j (release k n m) ≡ (if text_eq k j then count_at j m - n else count_at j m)
unfolding release
count_at-release k j n m =
    ground (arith, text_eq_iff k j, lookup-delete k j m, lookup-insert k j (count_at k m - n) m)

-- A write to the record of `id`, in a sum over the records.
pub total-replace :
    (f : ApprovalRecord → ℕ) (id : Text) (r r' : ApprovalRecord) (m : Dict ApprovalRecord)
    → lookup id m ≡ some r
    → total f (insert id r' m) + f r ≡ total f m + f r'
total-replace f id r r' m h = let e = total-insert f id r' m in rw h at e

-- `dropReviewMaterial` on a record that is stored under its id.
module _ (r : ApprovalRecord) (s : Manager)
    (stored : lookup r.request_id s.records_by_request_id ≡ some r) where
  pub lookup-drop :
      (j : Text)
      → lookup j (drop_review_material r s).records_by_request_id ≡ (
          if text_eq r.request_id j
          then some (without_material r)
          else lookup j s.records_by_request_id)
  unfolding drop_review_material without_material
  lookup-drop j = ground (
    arith,
    text_eq_iff r.request_id j,
    lookup-insert r.request_id j (without_material r) s.records_by_request_id,
  )

  pub total-drop :
      (f : ApprovalRecord → ℕ)
      → total f (drop_review_material r s).records_by_request_id + f r
        ≡ total f s.records_by_request_id + f (without_material r)
  unfolding drop_review_material without_material
  total-drop f =
      ground
        (arith, total-replace f r.request_id r (without_material r) s.records_by_request_id stored)

  pub drop-IsDistinct :
      IsDistinct s.records_by_request_id
      → IsDistinct (drop_review_material r s).records_by_request_id
  unfolding drop_review_material
  drop-IsDistinct d = elim (Bool-cases (ltb 0 r.review_bytes)) [
    | inl some_bytes ↦
        rw some_bytes
          (insert-IsDistinct r.request_id (without_material r) s.records_by_request_id d)
    | inr no_bytes ↦ rw no_bytes d
  ]

  pub drop_bytes :
      (drop_review_material r s).review_bytes_global ≡ s.review_bytes_global - r.review_bytes
  unfolding drop_review_material
  drop_bytes = ground arith

  pub drop_actor_bytes :
      (j : Text)
      → count_at j (drop_review_material r s).review_bytes_by_actor ≡ (
          if text_eq r.actor_quota_key j
          then count_at j s.review_bytes_by_actor - r.review_bytes
          else count_at j s.review_bytes_by_actor)
  unfolding drop_review_material
  drop_actor_bytes j =
      ground (arith, count_at-release r.actor_quota_key j r.review_bytes s.review_bytes_by_actor)

-- `transitionToTerminal` on an active record that is stored under its id.
module _ (wall : ℕ) (r : ApprovalRecord) (t : Terminal) (reason : Option FailureReason)
    (provided : Option Bool) (s : Manager)
    (stored : lookup r.request_id s.records_by_request_id ≡ some r)
    (active : is_active r.state ≡ true) where
  slots_stored :
      lookup r.request_id (release_slots t r s).records_by_request_id
      ≡ some (record r { state = terminal_state t })
  unfolding release_slots
  slots_stored = rw (lookup-insert, text_eq_refl)

  pub lookup-transition :
      (j : Text)
      → lookup j (transition_to_terminal wall r t reason provided s).records_by_request_id ≡ (
          if text_eq r.request_id j
          then some (terminated t r)
          else lookup j s.records_by_request_id)
  unfolding transition_to_terminal emit_lifecycle_event terminated release_slots
  lookup-transition j = rw active (
      ground (
        arith,
        lookup-drop (record r { state = terminal_state t }) (release_slots t r s) slots_stored j,
        lookup-insert r.request_id j (record r { state = terminal_state t })
            s.records_by_request_id,
      ))

  pub total-transition :
      (f : ApprovalRecord → ℕ)
      → total f (transition_to_terminal wall r t reason provided s).records_by_request_id + f r
        ≡ total f s.records_by_request_id + f (terminated t r)
  unfolding transition_to_terminal emit_lifecycle_event terminated release_slots
  total-transition f = rw active (
      omega (
        arith,
        total-drop (record r { state = terminal_state t }) (release_slots t r s) slots_stored f,
        total-replace f r.request_id r (record r { state = terminal_state t })
            s.records_by_request_id stored,
      ))

  pub transition-IsDistinct :
      IsDistinct s.records_by_request_id
      → IsDistinct (transition_to_terminal wall r t reason provided s).records_by_request_id
  unfolding transition_to_terminal emit_lifecycle_event release_slots
  transition-IsDistinct d = rw active (
      drop-IsDistinct (record r { state = terminal_state t }) (release_slots t r s) slots_stored
        (insert-IsDistinct r.request_id (record r { state = terminal_state t })
          s.records_by_request_id d))

  pub active_count-transition :
      (transition_to_terminal wall r t reason provided s).active_count_global
      ≡ s.active_count_global - 1
  unfolding transition_to_terminal emit_lifecycle_event drop_review_material release_slots
  active_count-transition = ground arith

  pub by_actor-transition :
      (j : Text)
      → count_at j (transition_to_terminal wall r t reason provided s).active_count_by_actor ≡ (
          if text_eq r.actor_quota_key j
          then count_at j s.active_count_by_actor - 1
          else count_at j s.active_count_by_actor)
  unfolding transition_to_terminal emit_lifecycle_event drop_review_material release_slots
  by_actor-transition j =
      ground (arith, count_at-release r.actor_quota_key j 1 s.active_count_by_actor)

  pub bytes-transition :
      (transition_to_terminal wall r t reason provided s).review_bytes_global
      ≡ s.review_bytes_global - r.review_bytes
  unfolding transition_to_terminal emit_lifecycle_event drop_review_material release_slots
  bytes-transition = ground arith

  pub actor_bytes-transition :
      (j : Text)
      → count_at j (transition_to_terminal wall r t reason provided s).review_bytes_by_actor ≡ (
          if text_eq r.actor_quota_key j
          then count_at j s.review_bytes_by_actor - r.review_bytes
          else count_at j s.review_bytes_by_actor)
  unfolding transition_to_terminal emit_lifecycle_event drop_review_material release_slots
  actor_bytes-transition j =
      ground (arith, count_at-release r.actor_quota_key j r.review_bytes s.review_bytes_by_actor)

  pub active_ids-transition :
      (transition_to_terminal wall r t reason provided s).active_request_ids
      ≡ remove r.request_id s.active_request_ids
  unfolding transition_to_terminal emit_lifecycle_event drop_review_material release_slots
  active_ids-transition = ground arith

  pub dedup-transition :
      (transition_to_terminal wall r t reason provided s).request_id_by_dedup_key
      ≡ release_dedup r s.request_id_by_dedup_key
  unfolding transition_to_terminal emit_lifecycle_event drop_review_material release_slots
  dedup-transition = ground arith

  pub limits-transition : (transition_to_terminal wall r t reason provided s).limits ≡ s.limits
  unfolding transition_to_terminal emit_lifecycle_event drop_review_material release_slots
  limits-transition = ground arith
