-- ===== src/Approval/Moves.antt =====
-- The writes of which every call of `ApprovalStateManager` is composed
-- (packages/policy/src/approval-state.ts): a transition to a terminal state, a grant, the storing
-- of a new request, and the registration of an observer.
use cesspace_arc.Base.{
  ℕ, ◌≡◌, sym, subst, Bool, true, false, Option, none, some, List, Text, lookup, arith,
}
use cesspace_arc.Approval.Data.{
  ApprovalRecord, ApprovalState, pending, approved, is_active, is_pending, FailureReason,
  approval_requested,
}
use cesspace_arc.Approval.State.{Manager, emit_lifecycle_event}
use cesspace_arc.Approval.Lifecycle.{
  Terminal, to_rejected, to_expired, to_consumed, to_invalidated, transition_to_terminal,
}
use cesspace_arc.Approval.Requests.{within_quota, store_pending}
use cesspace_arc.Approval.Decisions.{grant_record}
use cesspace_arc.Approval.Invariant.{IsWellFormed, IsWellFormed-observers}
use cesspace_arc.Approval.Transitions.{transition-IsWellFormed}
use cesspace_arc.Approval.Grants.{grant-IsWellFormed}
use cesspace_arc.Approval.Stores.{store-IsWellFormed}

-- The edges from an active state to a terminal one.
abbrev pub can_end : ApprovalState → Terminal → Bool
can_end pending to_rejected = true
can_end pending to_expired = true
can_end pending to_invalidated = true
can_end approved to_consumed = true
can_end approved to_expired = true
can_end approved to_invalidated = true
can_end _ _ = false

pub can_end→active : (st : ApprovalState) (t : Terminal) → can_end st t ≡ true → is_active st ≡ true
can_end→active st t h = ground arith

pub data Move (s s' : Manager) : Type 0 where
  end :
      (wall : ℕ) (r : ApprovalRecord) (t : Terminal) (reason : Option FailureReason)
      (provided : Option Bool)
      → lookup r.request_id s.records_by_request_id ≡ some r
      → can_end r.state t ≡ true
      → s' ≡ transition_to_terminal wall r t reason provided s
      → Move s s'
  grant :
      (wall : ℕ) (digest : Text) (r : ApprovalRecord)
      → lookup r.request_id s.records_by_request_id ≡ some r
      → is_pending r.state ≡ true
      → s' ≡ grant_record wall digest r s
      → Move s s'
  store :
      (wall : ℕ) (r : ApprovalRecord)
      → r.state ≡ pending
      → lookup r.request_id s.records_by_request_id ≡ none
      → lookup r.execution_payload_hash s.request_id_by_dedup_key ≡ none
      → within_quota r s ≡ true
      → s' ≡ emit_lifecycle_event wall r approval_requested none none (store_pending r s)
      → Move s s'
  observe : (sinks : List ℕ) → s' ≡ record s { lifecycle_sinks = sinks } → Move s s'

pub data Moves (s : Manager) : Manager → Type 0 where
  stay : Moves s s
  then_move : {t u : Manager} → Moves s t → Move t u → Moves s u

pub no_move : (s : Manager) → Moves s s
no_move s = stay

pub one-Move : {s t : Manager} → Move s t → Moves s t
one-Move m = then_move stay m

pub Moves-trans : {s t u : Manager} → Moves s t → Moves t u → Moves s u
Moves-trans m stay = m
Moves-trans m (then_move n x) = then_move (Moves-trans m n) x

Move-IsWellFormed : {s t : Manager} → Move s t → IsWellFormed s → IsWellFormed t
unfolding emit_lifecycle_event
Move-IsWellFormed {s} (end wall r t reason provided stored can e) w =
    subst IsWellFormed (sym e)
      (transition-IsWellFormed wall r t reason provided s stored (can_end→active r.state t can) w)
Move-IsWellFormed {s} (grant wall digest r stored p e) w =
    subst IsWellFormed (sym e) (grant-IsWellFormed wall digest r s stored p w)
Move-IsWellFormed {s} (store wall r is_new fresh free fits e) w = subst IsWellFormed (sym e) (
    IsWellFormed-observers (store_pending r s).lifecycle_sinks _ (store_pending r s)
      (store-IsWellFormed r s is_new fresh free fits w))
Move-IsWellFormed {s} (observe sinks e) w =
    subst IsWellFormed (sym e) (IsWellFormed-observers sinks s.delivered s w)

pub Moves-IsWellFormed : {s t : Manager} → Moves s t → IsWellFormed s → IsWellFormed t
Moves-IsWellFormed stay w = w
Moves-IsWellFormed (then_move m x) w = Move-IsWellFormed x (Moves-IsWellFormed m w)
