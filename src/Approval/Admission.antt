-- ===== src/Approval/Admission.antt =====
-- `createOrReusePending` (packages/policy/src/approval-state.ts) as moves of the manager.
use cesspace_arc.Base.{
  ℕ, ◌≡◌, true, none, some, Text, text_eq_refl, lookup, Bool-cases, Option-cases, inl, inr, refl,
  sym, subst, arith,
}
use cesspace_arc.Approval.Data.{ApprovalRecord, pending, is_active}
use cesspace_arc.Approval.State.{Manager}
use cesspace_arc.Approval.Lifecycle.{to_expired, check_lazy_expiry, reclaim_expired_active_records}
use cesspace_arc.Approval.Requests.{
  CreateInput, create_input_ok, new_record, within_quota, admit_new, find_existing, reuse_or_admit,
  create_or_reuse_pending,
}
use cesspace_arc.Approval.Effects.{dedup-transition}
use cesspace_arc.Approval.Invariant.{IsWellFormed}
use cesspace_arc.Approval.Moves.{store, Moves, stay, one-Move, Moves-trans, Moves-IsWellFormed}
use cesspace_arc.Approval.Transitions.{lookup-release_dedup}
use cesspace_arc.Approval.Expiry.{
  stored_under, check_lazy_expiry-Moves, lookup-check_lazy_expiry-none, reclaim-Moves,
  lookup-reclaim_none,
}

admit_new-Moves :
    (wall : ℕ) (r : ApprovalRecord) (at : ℕ) (s : Manager)
    → r.state ≡ pending
    → lookup r.request_id s.records_by_request_id ≡ none
    → lookup r.execution_payload_hash s.request_id_by_dedup_key ≡ none
    → Moves s (admit_new wall r at s).1
unfolding admit_new
admit_new-Moves wall r at s is_new fresh free = elim (Bool-cases (within_quota r s)) [
  | inl fits ↦ rw fits (one-Move (store wall r is_new fresh free fits refl))
  | inr full ↦ rw full stay
]

-- A payload hash is free if it leads to no record.
free_of_find_none :
    (h : Text) (s : Manager)
    → IsWellFormed s
    → find_existing h s ≡ none
    → lookup h s.request_id_by_dedup_key ≡ none
unfolding find_existing
free_of_find_none h s w e = elim (Option-cases (lookup h s.request_id_by_dedup_key)) [
  | inl free ↦ free
  | inr (id, held) ↦
      let (x, found, _, _) = w.indexed.dedup_sound h id held in
      absurd (ground (arith, e, found, held))
]

-- A record that the hash leads to is stored, active, and has that hash.
found_of_find_some :
    (h : Text) (r : ApprovalRecord) (s : Manager)
    → IsWellFormed s
    → find_existing h s ≡ some r
    → (lookup r.request_id s.records_by_request_id ≡ some r)
      × (is_active r.state ≡ true)
      × (r.execution_payload_hash ≡ h)
unfolding find_existing
found_of_find_some h r s w e = elim (Option-cases (lookup h s.request_id_by_dedup_key)) [
  | inl free ↦ absurd (ground (arith, e, free))
  | inr (id, held) ↦
      let (x, found, act, same) = w.indexed.dedup_sound h id held in
      let eq : r ≡ x = ground (arith, e, found, held) in
      (stored_under id r s w (rw eq found), rw eq act, rw eq same)
]

-- A record that the lazy check of an active record expires frees its payload hash.
freed_by_expiry :
    (now wall : ℕ) (r : ApprovalRecord) (s : Manager)
    → lookup r.request_id s.records_by_request_id ≡ some r
    → is_active r.state ≡ true
    → IsWellFormed s
    → (check_lazy_expiry now wall r s).0 ≡ true
    → lookup r.execution_payload_hash (check_lazy_expiry now wall r s).1.request_id_by_dedup_key
      ≡ none
unfolding check_lazy_expiry
freed_by_expiry now wall r s stored act w e = ground (
  arith,
  dedup-transition wall r to_expired none none s stored act,
  lookup-release_dedup r s.request_id_by_dedup_key r.execution_payload_hash
      (w.indexed.dedup_complete r.request_id r stored act),
  text_eq_refl r.execution_payload_hash,
)

module _ (mono : ℕ → ℕ) (wall : ℕ) (fresh : ApprovalRecord) (s : Manager)
    (is_new : fresh.state ≡ pending)
    (unused : lookup fresh.request_id s.records_by_request_id ≡ none) (w : IsWellFormed s) where
  reuse-Moves :
      (r : ApprovalRecord)
      → find_existing fresh.execution_payload_hash s ≡ some r
      → Moves s (reuse_or_admit mono wall (some r) fresh s).1
  unfolding reuse_or_admit
  reuse-Moves r e =
      let (stored, act, same) = found_of_find_some fresh.execution_payload_hash r s w e in
      let m = check_lazy_expiry-Moves (mono 1) wall r s stored in
      elim (Bool-cases (check_lazy_expiry (mono 1) wall r s).0) [
        | inl gone ↦
            let free : lookup fresh.execution_payload_hash
                  (check_lazy_expiry (mono 1) wall r s).1.request_id_by_dedup_key
                ≡ none =
              rw (← same) (freed_by_expiry (mono 1) wall r s stored act w gone) in
            rw gone (
              Moves-trans m (
                admit_new-Moves wall fresh (mono 3) (check_lazy_expiry (mono 1) wall r s).1 is_new
                  (lookup-check_lazy_expiry-none (mono 1) wall r s fresh.request_id stored unused)
                  free))
        | inr kept ↦ rw (kept, act) m
      ]

  pub reuse_or_admit-Moves :
      Moves s (reuse_or_admit mono wall (find_existing fresh.execution_payload_hash s) fresh s).1
  unfolding reuse_or_admit
  reuse_or_admit-Moves = elim (Option-cases (find_existing fresh.execution_payload_hash s)) [
    | inl missing ↦
        rw (missing, reuse_or_admit)
          (admit_new-Moves wall fresh (mono 3) s is_new unused
            (free_of_find_none fresh.execution_payload_hash s w missing))
    | inr (r, found) ↦
        subst (λ o. Moves s (reuse_or_admit mono wall o fresh s).1) (sym found)
          (reuse-Moves r found)
  ]

pub create-Moves :
    (mono : ℕ → ℕ) (wall : ℕ) (fresh_id : Text) (input : CreateInput) (s : Manager)
    → lookup fresh_id s.records_by_request_id ≡ none
    → IsWellFormed s
    → Moves s (create_or_reuse_pending mono wall fresh_id input s).1
unfolding create_or_reuse_pending
create-Moves mono wall fresh_id input s unused w = elim (Bool-cases (create_input_ok input)) [
  | inl valid ↦ rw valid (
      unfold new_record in
      let m = reclaim-Moves (mono 0) wall s w in
      Moves-trans m (
        reuse_or_admit-Moves mono wall (new_record mono wall fresh_id input)
          (reclaim_expired_active_records (mono 0) wall s) refl
          (lookup-reclaim_none (mono 0) wall s fresh_id w unused) (Moves-IsWellFormed m w)))
  | inr bad ↦ rw bad stay
]
