-- ===== src/Approval/Calls.antt =====
-- Registration, decisions and redemption as moves of `ApprovalStateManager`
-- (packages/policy/src/approval-state.ts).
use cesspace_arc.Base.{
  ℕ, ◌≡◌, refl, true, false, Option, none, some, [], ◌∷◌, ◌++◌, Text, lookup, total, Bool-cases,
  Option-cases, inl, inr, arith, any, has, ◌==◌, is_some,
}
use cesspace_arc.Approval.Data.{
  ApprovalRecord, ApprovalState, pending, approved, is_pending, policy_binding_mismatch,
  RedemptionInput, Result,
}
use cesspace_arc.Approval.State.{Limits, Manager, empty_manager, register_lifecycle_sink}
use cesspace_arc.Approval.Lifecycle.{to_rejected, to_consumed, to_invalidated, check_lazy_expiry}
use cesspace_arc.Approval.Decisions.{
  decide_pending, approve, reject, redeem_input_ok, invalidate_for_policy, consume, redeem_in_state,
  redeem_found, redeem_and_consume, clear,
}
use cesspace_arc.Approval.Invariant.{IsWellFormed, IsWellFormed-observers, IsCapped}
use cesspace_arc.Approval.Moves.{can_end, grant, observe, Moves, stay, no_move, one-Move}
use cesspace_arc.Approval.Expiry.{stored_under, transition-Moves, check_lazy_expiry-Moves}

pub register-Moves : (sink : ℕ) (s : Manager) → Moves s (register_lifecycle_sink sink s)
unfolding register_lifecycle_sink
register-Moves sink s = elim (Bool-cases (any (λ x. x == sink) s.lifecycle_sinks)) [
  | inl known ↦ rw known stay
  | inr new ↦ rw new (one-Move (observe (s.lifecycle_sinks ++ sink ∷ []) refl))
]

pub empty_manager-IsWellFormed :
    (limits : Limits) → IsCapped limits → IsWellFormed (empty_manager limits)
unfolding lookup total has
empty_manager-IsWellFormed limits c = record {
  indexed = record {
    distinct = tt;
    keyed = λ id r h. cc;
    sound = λ id r h. absurd (cc);
    listed = λ id. refl;
    dedup_sound = λ h id e. absurd (cc);
    dedup_complete = λ id r h a. cc;
  };
  accounted = record {
    active = refl;
    by_actor = λ k. refl;
    bytes = refl;
    bytes_by_actor = λ k. refl;
  };
  within = record {
    capped = c;
    per_record = λ id r h. absurd (cc);
    active = omega arith;
    by_actor = λ k. omega arith;
    bytes = omega arith;
    bytes_by_actor = λ k. omega arith;
  };
}

pub clear-IsWellFormed : (s : Manager) → IsWellFormed s → IsWellFormed (clear s)
unfolding clear
clear-IsWellFormed s w =
    IsWellFormed-observers s.lifecycle_sinks s.delivered (empty_manager s.limits)
      (empty_manager-IsWellFormed s.limits w.within.capped)

-- A record that the lazy check does not expire leaves the manager as it was.
pub check_lazy_expiry_unchanged :
    (now wall : ℕ) (r : ApprovalRecord) (s : Manager)
    → (check_lazy_expiry now wall r s).0 ≡ false
    → (check_lazy_expiry now wall r s).1 ≡ s
unfolding check_lazy_expiry
check_lazy_expiry_unchanged now wall r s e = ground arith

decide-Moves {ℓ} :
    {A : Type ℓ} (now wall : ℕ) (id : Text) (act : ApprovalRecord → Manager → Result A × Manager)
    (s : Manager)
    → ((r : ApprovalRecord)
        → lookup r.request_id s.records_by_request_id ≡ some r
        → is_pending r.state ≡ true
        → Moves s (act r s).1)
    → IsWellFormed s
    → Moves s (decide_pending now wall id act s).1
unfolding decide_pending
decide-Moves now wall id act s keep w = elim (Option-cases (lookup id s.records_by_request_id)) [
  | inl missing ↦ rw (missing, decide_pending) stay
  | inr (r, found) ↦
      let stored = stored_under id r s w found in
      rw (found, decide_pending)
        (elim (Bool-cases (check_lazy_expiry now wall r s).0) [
          | inl gone ↦ rw gone (check_lazy_expiry-Moves now wall r s stored)
          | inr live ↦
              rw (live, check_lazy_expiry_unchanged now wall r s live)
                (elim (Bool-cases (is_pending r.state)) [
                  | inl p ↦ rw p (keep r stored p)
                  | inr q ↦ rw q stay
                ])
        ])
]

pub approve-Moves :
    (sha256 : Text → Text) (mono : ℕ → ℕ) (wall : ℕ) (token id : Text) (s : Manager)
    → IsWellFormed s
    → Moves s (approve sha256 mono wall token id s).1
unfolding approve
approve-Moves sha256 mono wall token id s w =
    decide-Moves (mono 0) wall id _ s
      (λ r stored p. one-Move (grant wall (sha256 token) r stored p refl)) w

pending_can_reject : (st : ApprovalState) → is_pending st ≡ true → can_end st to_rejected ≡ true
pending_can_reject st h = ground arith

pub reject-Moves :
    (mono : ℕ → ℕ) (wall : ℕ) (id : Text) (reason : Option Text) (s : Manager)
    → IsWellFormed s
    → Moves s (reject mono wall id reason s).1
unfolding reject
reject-Moves mono wall id reason s w =
    decide-Moves (mono 0) wall id _ s
      (λ r stored p.
        transition-Moves wall r to_rejected none (some (is_some reason)) s stored
          (λ _. pending_can_reject r.state p))
      w

module _ (sha256 : Text → Text) (wall : ℕ) (input : RedemptionInput) where
  redeem_in_state-Moves :
      (r : ApprovalRecord) (st : ApprovalState) (s : Manager)
      → r.state ≡ st
      → lookup r.request_id s.records_by_request_id ≡ some r
      → Moves s (redeem_in_state sha256 wall input r st s).1
  unfolding redeem_in_state invalidate_for_policy consume
  redeem_in_state-Moves r pending s is_st stored = ground (
    arith,
    no_move s,
    transition-Moves wall r to_invalidated (some policy_binding_mismatch) none s stored
        (λ _. rw is_st),
  )
  redeem_in_state-Moves r approved s is_st stored = ground (
    arith,
    no_move s,
    transition-Moves wall r to_invalidated (some policy_binding_mismatch) none s stored
        (λ _. rw is_st),
    transition-Moves wall r to_consumed none none s stored (λ _. rw is_st),
  )
  redeem_in_state-Moves r _ s is_st stored = stay

  redeem_found-Moves :
      (now : ℕ) (r : ApprovalRecord) (s : Manager)
      → lookup r.request_id s.records_by_request_id ≡ some r
      → Moves s (redeem_found sha256 now wall input r s).1
  unfolding redeem_found
  redeem_found-Moves now r s stored = elim (Bool-cases (check_lazy_expiry now wall r s).0) [
    | inl gone ↦ rw gone (check_lazy_expiry-Moves now wall r s stored)
    | inr live ↦
        rw (live, check_lazy_expiry_unchanged now wall r s live)
          (redeem_in_state-Moves r r.state s refl stored)
  ]

  pub redeem-Moves :
      (mono : ℕ → ℕ) (s : Manager)
      → IsWellFormed s
      → Moves s (redeem_and_consume sha256 mono wall input s).1
  unfolding redeem_and_consume
  redeem-Moves mono s w = elim (Bool-cases (redeem_input_ok input)) [
    | inr bad ↦ rw bad stay
    | inl valid ↦ rw valid (elim (Option-cases (lookup input.request_id s.records_by_request_id)) [
      | inl missing ↦ rw (missing, redeem_and_consume) stay
      | inr (r, found) ↦
          rw (found, redeem_and_consume)
            (redeem_found-Moves (mono 0) r s (stored_under input.request_id r s w found))
    ])
  ]
