-- ===== src/Approval/History.antt =====
-- What calls can do to one stored record of `ApprovalStateManager`
-- (packages/policy/src/approval-state.ts).
use cesspace_arc.Base.{
  ◌≡◌, refl, sym, subst, ◌∙◌, Bool, true, false, some, Text, text_eq, text_eq_iff, lookup,
  Bool-cases, inl, inr, arith,
}
use cesspace_arc.Approval.Data.{
  ApprovalState, pending, approved, rejected, expired, consumed, invalidated, ApprovalRecord,
  is_active,
}
use cesspace_arc.Approval.State.{Manager, emit_lifecycle_event}
use cesspace_arc.Approval.Lifecycle.{Terminal, terminal_state, terminated, without_material}
use cesspace_arc.Approval.Effects.{lookup-transition}
use cesspace_arc.Approval.Transitions.{state-terminated}
use cesspace_arc.Approval.Decisions.{granted}
use cesspace_arc.Approval.Grants.{approved_record, approved_record-IsGranted, lookup-grant}
use cesspace_arc.Approval.Stores.{lookup-store}
use cesspace_arc.Approval.Invariant.{IsWellFormed}
use cesspace_arc.Approval.Moves.{
  Move, end, grant, store, observe, can_end, can_end→active, Moves, stay, then_move,
}
use cesspace_arc.Approval.Operations.{Calls, Calls-Moves}

-- The state machine of a request.
abbrev pub can_step : ApprovalState → ApprovalState → Bool
can_step pending approved = true
can_step pending rejected = true
can_step pending expired = true
can_step pending invalidated = true
can_step approved consumed = true
can_step approved expired = true
can_step approved invalidated = true
can_step _ _ = false

pub data Leads (a : ApprovalState) : ApprovalState → Type 0 where
  same : Leads a a
  step : {b c : ApprovalState} → Leads a b → can_step b c ≡ true → Leads a c

-- What never changes of a request.
pub record IsSameRequest (r x : ApprovalRecord) : Type 0 where
  pub request_id : x.request_id ≡ r.request_id
  pub tool_name : x.tool_name ≡ r.tool_name
  pub hash : x.execution_payload_hash ≡ r.execution_payload_hash
  pub binding : x.binding ≡ r.binding
  pub created : x.created_at_wall ≡ r.created_at_wall
  pub deadline : x.monotonic_deadline ≡ r.monotonic_deadline
  pub quota_key : x.actor_quota_key ≡ r.actor_quota_key

pub record Evolves (r x : ApprovalRecord) : Type 0 where
  pub request : IsSameRequest r x
  pub state : Leads r.state x.state

Evolves-refl : (r : ApprovalRecord) → Evolves r r
Evolves-refl r = record {
  request = record {
    request_id = refl;
    tool_name = refl;
    hash = refl;
    binding = refl;
    created = refl;
    deadline = refl;
    quota_key = refl;
  };
  state = same;
}

IsSameRequest-terminated : (t : Terminal) (r : ApprovalRecord) → IsSameRequest r (terminated t r)
unfolding terminated without_material
IsSameRequest-terminated t r = ground arith

IsSameRequest-approved : (d : Text) (r : ApprovalRecord) → IsSameRequest r (approved_record d r)
unfolding approved_record granted without_material
IsSameRequest-approved d r = ground arith

can_end→step :
    (st : ApprovalState) (t : Terminal)
    → can_end st t ≡ true
    → can_step st (terminal_state t) ≡ true
can_end→step st t h = ground arith

IsSameRequest-trans :
    {a b c : ApprovalRecord} → IsSameRequest a b → IsSameRequest b c → IsSameRequest a c
IsSameRequest-trans p q = record {
  request_id = q.request_id ∙ p.request_id;
  tool_name = q.tool_name ∙ p.tool_name;
  hash = q.hash ∙ p.hash;
  binding = q.binding ∙ p.binding;
  created = q.created ∙ p.created;
  deadline = q.deadline ∙ p.deadline;
  quota_key = q.quota_key ∙ p.quota_key;
}

Leads-trans : {a b c : ApprovalState} → Leads a b → Leads b c → Leads a c
Leads-trans p same = p
Leads-trans p (step q e) = step (Leads-trans p q) e

-- A record after one move.
abbrev After : Text → ApprovalRecord → Manager → Type 0
After id r t = (x : ApprovalRecord) × (lookup id t.records_by_request_id ≡ some x) × Evolves r x

Move-After :
    {s t : Manager} (id : Text) (r : ApprovalRecord)
    → Move s t
    → lookup id s.records_by_request_id ≡ some r
    → After id r t
unfolding emit_lifecycle_event
Move-After {s} id r (end wall r' t reason provided stored can e) found =
    let l =
      lookup-transition wall r' t reason provided s stored (can_end→active r'.state t can) id in
    elim (Bool-cases (text_eq r'.request_id id)) [
      | inl here ↦
          let eq : r' ≡ r = ground (arith, text_eq_iff r'.request_id id) in
          (
            terminated t r',
            subst (λ m. lookup id m.records_by_request_id ≡ some (terminated t r')) (sym e)
                (rw here at l),
            subst (λ y. Evolves y (terminated t r')) eq
                (record {
                  request = IsSameRequest-terminated t r';
                  state =
                      subst (Leads r'.state) (sym (state-terminated t r'))
                        (step same (can_end→step r'.state t can));
                }),
          )
      | inr other ↦ (
        r,
        subst (λ m. lookup id m.records_by_request_id ≡ some r) (sym e) ((rw other at l) ∙ found),
        Evolves-refl r,
      )
    ]
Move-After {s} id r (grant wall digest r' stored p e) found =
    let l = lookup-grant wall digest r' s stored p id in
    let g = approved_record-IsGranted digest r' in
    elim (Bool-cases (text_eq r'.request_id id)) [
      | inl here ↦
          let eq : r' ≡ r = ground (arith, text_eq_iff r'.request_id id) in
          let edge : can_step r'.state approved ≡ true = ground arith in
          (
            approved_record digest r',
            subst (λ m. lookup id m.records_by_request_id ≡ some (approved_record digest r'))
                (sym e) (rw here at l),
            subst (λ y. Evolves y (approved_record digest r')) eq
                (record {
                  request = IsSameRequest-approved digest r';
                  state = subst (Leads r'.state) (sym g.state) (step same edge);
                }),
          )
      | inr other ↦ (
        r,
        subst (λ m. lookup id m.records_by_request_id ≡ some r) (sym e) ((rw other at l) ∙ found),
        Evolves-refl r,
      )
    ]
Move-After {s} id r (store wall r' is_new fresh free fits e) found =
    let l = lookup-store r' s is_new fresh free id in
    let other : text_eq r'.request_id id ≡ false = ground (arith, text_eq_iff r'.request_id id) in
    (
      r,
      subst (λ m. lookup id m.records_by_request_id ≡ some r) (sym e) ((rw other at l) ∙ found),
      Evolves-refl r,
    )
Move-After id r (observe sinks e) found =
    (r, subst (λ m. lookup id m.records_by_request_id ≡ some r) (sym e) found, Evolves-refl r)

Moves-After :
    {s t : Manager} (id : Text) (r : ApprovalRecord)
    → Moves s t
    → lookup id s.records_by_request_id ≡ some r
    → After id r t
Moves-After id r stay found = (r, found, Evolves-refl r)
Moves-After id r (then_move m x) found =
    let (y, found', before) = Moves-After id r m found in
    let (z, found'', after) = Move-After id y x found' in
    (
      z,
      found'',
      record {
        request = IsSameRequest-trans before.request after.request;
        state = Leads-trans before.state after.state;
      },
    )

-- Whatever calls are made, with no clear between them, a stored request stays stored under its
-- id, keeps its tool, payload hash, binding, creation time, deadline and quota key, and its state
-- moves along the edges of the state machine.
pub record_history :
    {sha256 : Text → Text} {s t : Manager} (id : Text) (r : ApprovalRecord)
    → Calls sha256 s t
    → IsWellFormed s
    → lookup id s.records_by_request_id ≡ some r
    → (x : ApprovalRecord) × (lookup id t.records_by_request_id ≡ some x) × Evolves r x
record_history id r calls w found = Moves-After id r (Calls-Moves calls w) found

-- A terminal state is left by no edge.
pub Leads-terminal : {a b : ApprovalState} → Leads a b → is_active a ≡ false → b ≡ a
Leads-terminal same h = refl
Leads-terminal (step {b} {c} p e) h = let eq = Leads-terminal p h in ground arith
