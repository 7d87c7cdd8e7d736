-- ===== src/Approval/Reuse.antt =====
-- When `createOrReusePending` (packages/policy/src/approval-state.ts) reuses a request.
use cesspace_arc.Base.{
  ℕ, ◌<◌, ◌≡◌, sym, subst, true, Option, none, some, List, [], ◌∷◌, Text, text_eq_iff, lookup, leb,
  Bool-cases, Option-cases, inl, inr, arith,
}
use cesspace_arc.Approval.Data.{ApprovalRecord, ok, is_active}
use cesspace_arc.Approval.State.{Manager, to_snapshot}
use cesspace_arc.Approval.Lifecycle.{
  to_expired, transition_to_terminal, check_lazy_expiry, expire_if_due, expire_each,
  reclaim_expired_active_records,
}
use cesspace_arc.Approval.Requests.{
  CreateInput, create_input_ok, new_record, find_existing, reuse_or_admit, create_or_reuse_pending,
}
use cesspace_arc.Approval.Effects.{lookup-transition}
use cesspace_arc.Approval.Invariant.{IsWellFormed}
use cesspace_arc.Approval.Moves.{Moves-IsWellFormed}
use cesspace_arc.Approval.Expiry.{stored_under, expire_if_due-Moves, reclaim-Moves}

module _ (now wall : ℕ) (j : Text) (r : ApprovalRecord) (live : now < r.monotonic_deadline) where
  round_keeps :
      (id : Text) (s : Manager)
      → IsWellFormed s
      → lookup j s.records_by_request_id ≡ some r
      → lookup j (expire_if_due now wall id s).records_by_request_id ≡ some r
  unfolding expire_if_due
  round_keeps id s w h = elim (Option-cases (lookup id s.records_by_request_id)) [
    | inl missing ↦ rw (missing, expire_if_due) h
    | inr (x, found) ↦
        rw (found, expire_if_due)
          (elim (Bool-cases (leb x.monotonic_deadline now)) [
            | inr early ↦ rw early h
            | inl due ↦ rw due (elim (Bool-cases (is_active x.state)) [
              | inr over ↦ unfold transition_to_terminal in rw over h
              | inl act ↦
                  let key = w.indexed.keyed id x found in
                  ground (
                    arith,
                    lookup-transition wall x to_expired none none s (stored_under id x s w found)
                        act j,
                    text_eq_iff x.request_id j,
                  )
            ])
          ])
  ]

  rounds_keep :
      (ids : List Text) (s : Manager)
      → IsWellFormed s
      → lookup j s.records_by_request_id ≡ some r
      → lookup j (expire_each now wall ids s).records_by_request_id ≡ some r
  unfolding expire_each
  rounds_keep [] s w h = h
  rounds_keep (id ∷ ids) s w h =
      rounds_keep ids (expire_if_due now wall id s)
        (Moves-IsWellFormed (expire_if_due-Moves now wall id s w) w) (round_keeps id s w h)

  -- Reclamation leaves a record that is not due.
  pub reclaim_keeps :
      (s : Manager)
      → IsWellFormed s
      → lookup j s.records_by_request_id ≡ some r
      → lookup j (reclaim_expired_active_records now wall s).records_by_request_id ≡ some r
  unfolding reclaim_expired_active_records
  reclaim_keeps s w h = rounds_keep s.active_request_ids s w h

found_by_hash :
    (j : Text) (r : ApprovalRecord) (s : Manager)
    → IsWellFormed s
    → lookup j s.records_by_request_id ≡ some r
    → is_active r.state ≡ true
    → find_existing r.execution_payload_hash s ≡ some r
unfolding find_existing
found_by_hash j r s w h act = rw (w.indexed.dedup_complete j r h act, find_existing) h

reuse_live :
    (mono : ℕ → ℕ) (wall : ℕ) (r fresh : ApprovalRecord) (s : Manager)
    → is_active r.state ≡ true
    → mono 1 < r.monotonic_deadline
    → reuse_or_admit mono wall (some r) fresh s ≡ (ok (to_snapshot (mono 3) r), s)
unfolding reuse_or_admit check_lazy_expiry
reuse_live mono wall r fresh s act live = ground arith

-- A valid request for a payload that an active request serves, whose deadline is after the two
-- readings that the call makes, returns that request's snapshot; the call stores no new request,
-- and does to the manager what its reclamation does.
pub create_reuses :
    (mono : ℕ → ℕ) (wall : ℕ) (fresh_id : Text) (input : CreateInput) (j : Text)
    (r : ApprovalRecord) (s : Manager)
    → IsWellFormed s
    → create_input_ok input ≡ true
    → lookup j s.records_by_request_id ≡ some r
    → is_active r.state ≡ true
    → r.execution_payload_hash ≡ input.execution_payload_hash
    → mono 0 < r.monotonic_deadline
    → mono 1 < r.monotonic_deadline
    → create_or_reuse_pending mono wall fresh_id input s
      ≡ (ok (to_snapshot (mono 3) r), reclaim_expired_active_records (mono 0) wall s)
unfolding create_or_reuse_pending
create_reuses mono wall fresh_id input j r s w valid h act same live live' =
    let s' = reclaim_expired_active_records (mono 0) wall s in
    let w' = Moves-IsWellFormed (reclaim-Moves (mono 0) wall s w) w in
    let e : find_existing input.execution_payload_hash s' ≡ some r =
      subst (λ k. find_existing k s' ≡ some r) same
        (found_by_hash j r s' w' (reclaim_keeps (mono 0) wall j r live s w h) act) in
    rw valid (
      subst
        (λ (o : Option ApprovalRecord).
          reuse_or_admit mono wall o (new_record mono wall fresh_id input) s'
          ≡ (ok (to_snapshot (mono 3) r), s'))
        (sym e) (reuse_live mono wall r (new_record mono wall fresh_id input) s' act live'))
