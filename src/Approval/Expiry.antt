-- ===== src/Approval/Expiry.antt =====
-- Lazy expiry, reclamation and purging as moves of `ApprovalStateManager`
-- (packages/policy/src/approval-state.ts).
use cesspace_arc.Base.{
  ℕ, suc, ◌≡◌, refl, sym, subst, Bool, true, Option, none, some, List, [], ◌∷◌, Text, text_eq_iff,
  lookup, Bool-cases, Option-cases, inl, inr, arith, if◌then◌else◌,
}
use cesspace_arc.Approval.Data.{ApprovalRecord, ApprovalState, FailureReason, is_active}
use cesspace_arc.Approval.State.{Manager}
use cesspace_arc.Approval.Lifecycle.{
  Terminal, to_expired, transition_to_terminal, check_lazy_expiry, is_due, expire_if_due,
  expire_each, reclaim_expired_active_records, purge_each, purge_expired,
}
use cesspace_arc.Approval.Effects.{lookup-transition}
use cesspace_arc.Approval.Invariant.{IsWellFormed}
use cesspace_arc.Approval.Moves.{
  end, can_end, Moves, stay, no_move, one-Move, Moves-trans, Moves-IsWellFormed,
}

pub stored_under :
    (id : Text) (r : ApprovalRecord) (s : Manager)
    → IsWellFormed s
    → lookup id s.records_by_request_id ≡ some r
    → lookup r.request_id s.records_by_request_id ≡ some r
stored_under id r s w h =
    subst (λ k. lookup k s.records_by_request_id ≡ some r) (sym (w.indexed.keyed id r h)) h

-- The transition does nothing to a record that is not active.
pub transition-Moves :
    (wall : ℕ) (r : ApprovalRecord) (t : Terminal) (reason : Option FailureReason)
    (provided : Option Bool) (s : Manager)
    → lookup r.request_id s.records_by_request_id ≡ some r
    → (is_active r.state ≡ true → can_end r.state t ≡ true)
    → Moves s (transition_to_terminal wall r t reason provided s)
transition-Moves wall r t reason provided s stored can = elim (Bool-cases (is_active r.state)) [
  | inl active ↦ one-Move (end wall r t reason provided stored (can active) refl)
  | inr inactive ↦ unfold transition_to_terminal in rw inactive stay
]

can_expire : (st : ApprovalState) → is_active st ≡ true → can_end st to_expired ≡ true
can_expire st h = ground arith

expiry-Moves :
    (wall : ℕ) (r : ApprovalRecord) (s : Manager)
    → lookup r.request_id s.records_by_request_id ≡ some r
    → Moves s (transition_to_terminal wall r to_expired none none s)
expiry-Moves wall r s stored =
    transition-Moves wall r to_expired none none s stored (can_expire r.state)

pub lookup-transition_none :
    (wall : ℕ) (r : ApprovalRecord) (t : Terminal) (reason : Option FailureReason)
    (provided : Option Bool) (s : Manager) (j : Text)
    → lookup r.request_id s.records_by_request_id ≡ some r
    → lookup j s.records_by_request_id ≡ none
    → lookup j (transition_to_terminal wall r t reason provided s).records_by_request_id ≡ none
lookup-transition_none wall r t reason provided s j stored missing =
    elim (Bool-cases (is_active r.state)) [
      | inl active ↦ ground (
        arith,
        lookup-transition wall r t reason provided s stored active j,
        text_eq_iff r.request_id j,
      )
      | inr inactive ↦ unfold transition_to_terminal in rw inactive missing
    ]

module _ (now wall : ℕ) where
  pub check_lazy_expiry-Moves :
      (r : ApprovalRecord) (s : Manager)
      → lookup r.request_id s.records_by_request_id ≡ some r
      → Moves s (check_lazy_expiry now wall r s).1
  unfolding check_lazy_expiry
  check_lazy_expiry-Moves r s stored = ground (arith, no_move s, expiry-Moves wall r s stored)

  pub lookup-check_lazy_expiry-none :
      (r : ApprovalRecord) (s : Manager) (j : Text)
      → lookup r.request_id s.records_by_request_id ≡ some r
      → lookup j s.records_by_request_id ≡ none
      → lookup j (check_lazy_expiry now wall r s).1.records_by_request_id ≡ none
  unfolding check_lazy_expiry
  lookup-check_lazy_expiry-none r s j stored missing =
      ground (arith, lookup-transition_none wall r to_expired none none s j stored missing)

  pub expire_if_due-Moves :
      (id : Text) (s : Manager) → IsWellFormed s → Moves s (expire_if_due now wall id s)
  unfolding expire_if_due
  expire_if_due-Moves id s w = elim (Option-cases (lookup id s.records_by_request_id)) [
    | inl missing ↦ rw (missing, expire_if_due) stay
    | inr (r, found) ↦
        rw (found, expire_if_due)
          (ground (arith, no_move s, expiry-Moves wall r s (stored_under id r s w found)))
  ]

  lookup-expire_if_due-none :
      (id : Text) (s : Manager) (j : Text)
      → IsWellFormed s
      → lookup j s.records_by_request_id ≡ none
      → lookup j (expire_if_due now wall id s).records_by_request_id ≡ none
  unfolding expire_if_due
  lookup-expire_if_due-none id s j w missing =
      elim (Option-cases (lookup id s.records_by_request_id)) [
        | inl absent ↦ rw (absent, expire_if_due) missing
        | inr (r, found) ↦
            rw (found, expire_if_due)
              (ground (
                arith,
                lookup-transition_none wall r to_expired none none s j (stored_under id r s w found)
                    missing,
              ))
      ]

  expire_each-Moves :
      (ids : List Text) (s : Manager) → IsWellFormed s → Moves s (expire_each now wall ids s)
  unfolding expire_each
  expire_each-Moves [] s w = stay
  expire_each-Moves (id ∷ ids) s w =
      let m = expire_if_due-Moves id s w in
      Moves-trans m (expire_each-Moves ids (expire_if_due now wall id s) (Moves-IsWellFormed m w))

  lookup-expire_each-none :
      (ids : List Text) (s : Manager) (j : Text)
      → IsWellFormed s
      → lookup j s.records_by_request_id ≡ none
      → lookup j (expire_each now wall ids s).records_by_request_id ≡ none
  unfolding expire_each
  lookup-expire_each-none [] s j w missing = missing
  lookup-expire_each-none (id ∷ ids) s j w missing =
      lookup-expire_each-none ids (expire_if_due now wall id s) j
        (Moves-IsWellFormed (expire_if_due-Moves id s w) w)
        (lookup-expire_if_due-none id s j w missing)

  pub reclaim-Moves :
      (s : Manager) → IsWellFormed s → Moves s (reclaim_expired_active_records now wall s)
  unfolding reclaim_expired_active_records
  reclaim-Moves s w = expire_each-Moves s.active_request_ids s w

  pub lookup-reclaim_none :
      (s : Manager) (j : Text)
      → IsWellFormed s
      → lookup j s.records_by_request_id ≡ none
      → lookup j (reclaim_expired_active_records now wall s).records_by_request_id ≡ none
  unfolding reclaim_expired_active_records
  lookup-reclaim_none s j w missing = lookup-expire_each-none s.active_request_ids s j w missing

  -- `purgeExpired` makes the same transitions as the reclamation.
  purge_each-eq-expire_each :
      (ids : List Text) (n : ℕ) (s : Manager)
      → (purge_each now wall ids n s).1 ≡ expire_each now wall ids s
  unfolding purge_each expire_each
  purge_each-eq-expire_each [] n s = refl
  purge_each-eq-expire_each (id ∷ ids) n s =
      purge_each-eq-expire_each ids (if is_due now id s then suc n else n)
        (expire_if_due now wall id s)

  pub purge_expired-eq-reclaim :
      (s : Manager) → (purge_expired now wall s).1 ≡ reclaim_expired_active_records now wall s
  unfolding purge_expired reclaim_expired_active_records
  purge_expired-eq-reclaim s = purge_each-eq-expire_each s.active_request_ids 0 s
