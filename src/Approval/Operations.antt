-- ===== src/Approval/Operations.antt =====
-- Every public operation of `ApprovalStateManager` (packages/policy/src/approval-state.ts) as a
-- step, and what holds of every manager that the steps reach.
use cesspace_arc.Base.{
  ℕ, suc, ◌≡◌, sym, subst, ◌∙◌, false, Option, none, some, List, [], ◌∷◌, Text, text_eq, Dict,
  lookup, IsDistinct, Holds, Holds-self, Holds-unchanged, Bool-cases, Option-cases, inl, inr, arith,
}
use cesspace_arc.Approval.Data.{ApprovalRecord, is_active, RedemptionInput}
use cesspace_arc.Approval.State.{Manager, register_lifecycle_sink}
use cesspace_arc.Approval.Lifecycle.{to_expired, check_lazy_expiry, purge_expired}
use cesspace_arc.Approval.Requests.{CreateInput, create_or_reuse_pending}
use cesspace_arc.Approval.Decisions.{approve, reject, redeem_and_consume, clear}
use cesspace_arc.Approval.Queries.{inspect_pending, get_request, collect_active, list_active}
use cesspace_arc.Approval.Effects.{lookup-transition}
use cesspace_arc.Approval.Invariant.{IsWellFormed}
use cesspace_arc.Approval.Moves.{Moves, stay, Moves-trans, Moves-IsWellFormed}
use cesspace_arc.Approval.Expiry.{
  stored_under, check_lazy_expiry-Moves, reclaim-Moves, purge_expired-eq-reclaim,
}
use cesspace_arc.Approval.Admission.{create-Moves}
use cesspace_arc.Approval.Calls.{
  register-Moves, clear-IsWellFormed, approve-Moves, reject-Moves, redeem-Moves,
}

-- `s'` follows from `s` by one call other than `clear`. The random id of a new request is the id
-- of no record.
pub data Call (sha256 : Text → Text) (s s' : Manager) : Type 0 where
  register : (sink : ℕ) → s' ≡ register_lifecycle_sink sink s → Call sha256 s s'
  create :
      (mono : ℕ → ℕ) (wall : ℕ) (fresh_id : Text) (input : CreateInput)
      → lookup fresh_id s.records_by_request_id ≡ none
      → s' ≡ (create_or_reuse_pending mono wall fresh_id input s).1
      → Call sha256 s s'
  approve_one :
      (mono : ℕ → ℕ) (wall : ℕ) (token id : Text)
      → s' ≡ (approve sha256 mono wall token id s).1
      → Call sha256 s s'
  reject_one :
      (mono : ℕ → ℕ) (wall : ℕ) (id : Text) (reason : Option Text)
      → s' ≡ (reject mono wall id reason s).1
      → Call sha256 s s'
  redeem :
      (mono : ℕ → ℕ) (wall : ℕ) (input : RedemptionInput)
      → s' ≡ (redeem_and_consume sha256 mono wall input s).1
      → Call sha256 s s'
  inspect : (now wall : ℕ) (id : Text) → s' ≡ (inspect_pending now wall id s).1 → Call sha256 s s'
  get :
      (mono : ℕ → ℕ) (wall : ℕ) (id : Text) → s' ≡ (get_request mono wall id s).1 → Call sha256 s s'
  list : (mono : ℕ → ℕ) (wall : ℕ) → s' ≡ (list_active mono wall s).1 → Call sha256 s s'
  purge : (now wall : ℕ) → s' ≡ (purge_expired now wall s).1 → Call sha256 s s'

-- Calls with no `clear` between them.
pub data Calls (sha256 : Text → Text) (s : Manager) : Manager → Type 0 where
  none_made : Calls sha256 s s
  then_call : {t u : Manager} → Calls sha256 s t → Call sha256 t u → Calls sha256 s u

-- Calls and `clear`s.
pub data Reach (sha256 : Text → Text) (s : Manager) : Manager → Type 0 where
  start : Reach sha256 s s
  after_call : {t u : Manager} → Reach sha256 s t → Call sha256 t u → Reach sha256 s u
  after_clear : {t u : Manager} → Reach sha256 s t → u ≡ clear t → Reach sha256 s u

-- `lookup` under another id does not see a lazy check.
lookup-check_lazy_expiry_ne :
    (now wall : ℕ) (r : ApprovalRecord) (s : Manager) (j : Text)
    → lookup r.request_id s.records_by_request_id ≡ some r
    → text_eq r.request_id j ≡ false
    → lookup j (check_lazy_expiry now wall r s).1.records_by_request_id
      ≡ lookup j s.records_by_request_id
unfolding check_lazy_expiry
lookup-check_lazy_expiry_ne now wall r s j stored ne = elim (Bool-cases (is_active r.state)) [
  | inl act ↦ ground (arith, lookup-transition wall r to_expired none none s stored act j)
  | inr inactive ↦ ground arith
]

collect_active-Moves :
    (mono : ℕ → ℕ) (wall i : ℕ) (l : Dict ApprovalRecord) (active : List ApprovalRecord)
    (s : Manager)
    → IsDistinct l
    → Holds l s.records_by_request_id
    → IsWellFormed s
    → Moves s (collect_active mono wall i l active s).1
unfolding collect_active
collect_active-Moves mono wall i [] active s d h w = stay
collect_active-Moves mono wall i ((k, r) ∷ l) active s (absent, d) (found, later) w =
    let stored = stored_under k r s w found in
    let key : r.request_id ≡ k = w.indexed.keyed k r found in
    let s' = (check_lazy_expiry (mono i) wall r s).1 in
    let m = check_lazy_expiry-Moves (mono i) wall r s stored in
    Moves-trans m (
      collect_active-Moves mono wall (suc i) l _ s' d
        (Holds-unchanged k l s.records_by_request_id s'.records_by_request_id absent
          (λ j ne.
            lookup-check_lazy_expiry_ne (mono i) wall r s j stored
              (subst (λ x. text_eq x j ≡ false) (sym key) ne))
          later)
        (Moves-IsWellFormed m w))

list_active-Moves :
    (mono : ℕ → ℕ) (wall : ℕ) (s : Manager) → IsWellFormed s → Moves s (list_active mono wall s).1
unfolding list_active
list_active-Moves mono wall s w =
    collect_active-Moves mono wall 0 s.records_by_request_id [] s w.indexed.distinct
      (Holds-self s.records_by_request_id w.indexed.distinct) w

inspect-Moves :
    (now wall : ℕ) (id : Text) (s : Manager)
    → IsWellFormed s
    → Moves s (inspect_pending now wall id s).1
unfolding inspect_pending
inspect-Moves now wall id s w = elim (Option-cases (lookup id s.records_by_request_id)) [
  | inl missing ↦ rw (missing, inspect_pending) stay
  | inr (r, found) ↦
      rw (found, inspect_pending)
        (ground (arith, check_lazy_expiry-Moves now wall r s (stored_under id r s w found)))
]

get-Moves :
    (mono : ℕ → ℕ) (wall : ℕ) (id : Text) (s : Manager)
    → IsWellFormed s
    → Moves s (get_request mono wall id s).1
unfolding get_request
get-Moves mono wall id s w = elim (Option-cases (lookup id s.records_by_request_id)) [
  | inl missing ↦ rw (missing, get_request) stay
  | inr (r, found) ↦
      rw (found, get_request)
        (check_lazy_expiry-Moves (mono 0) wall r s (stored_under id r s w found))
]

-- Every call is a sequence of moves.
pub Call-Moves :
    {sha256 : Text → Text} {s s' : Manager} → Call sha256 s s' → IsWellFormed s → Moves s s'
Call-Moves {s} (register sink e) w = subst (Moves s) (sym e) (register-Moves sink s)
Call-Moves {s} (create mono wall id input fresh e) w =
    subst (Moves s) (sym e) (create-Moves mono wall id input s fresh w)
Call-Moves {sha256} {s} (approve_one mono wall token id e) w =
    subst (Moves s) (sym e) (approve-Moves sha256 mono wall token id s w)
Call-Moves {s} (reject_one mono wall id reason e) w =
    subst (Moves s) (sym e) (reject-Moves mono wall id reason s w)
Call-Moves {sha256} {s} (redeem mono wall input e) w =
    subst (Moves s) (sym e) (redeem-Moves sha256 wall input mono s w)
Call-Moves {s} (inspect now wall id e) w = subst (Moves s) (sym e) (inspect-Moves now wall id s w)
Call-Moves {s} (get mono wall id e) w = subst (Moves s) (sym e) (get-Moves mono wall id s w)
Call-Moves {s} (list mono wall e) w = subst (Moves s) (sym e) (list_active-Moves mono wall s w)
Call-Moves {s} (purge now wall e) w =
    subst (Moves s) (sym (e ∙ purge_expired-eq-reclaim now wall s)) (reclaim-Moves now wall s w)

pub Calls-Moves :
    {sha256 : Text → Text} {s t : Manager} → Calls sha256 s t → IsWellFormed s → Moves s t
Calls-Moves none_made w = stay
Calls-Moves (then_call c x) w =
    let m = Calls-Moves c w in Moves-trans m (Call-Moves x (Moves-IsWellFormed m w))

pub Reach-IsWellFormed :
    {sha256 : Text → Text} {s t : Manager} → Reach sha256 s t → IsWellFormed s → IsWellFormed t
Reach-IsWellFormed start w = w
Reach-IsWellFormed (after_call r c) w =
    let w' = Reach-IsWellFormed r w in Moves-IsWellFormed (Call-Moves c w') w'
Reach-IsWellFormed (after_clear {t} r e) w =
    subst IsWellFormed (sym e) (clear-IsWellFormed t (Reach-IsWellFormed r w))
