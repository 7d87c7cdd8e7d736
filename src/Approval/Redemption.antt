-- ===== src/Approval/Redemption.antt =====
-- When `redeemAndConsume` (packages/policy/src/approval-state.ts) succeeds, what it does to the
-- record, and that it succeeds once.
use cesspace_arc.Base.{
  ℕ, ◌<◌, ◌≡◌, sym, subst, ◌∙◌, ◌↔◌, Bool, true, false, Option, none, some, Text, text_eq_iff,
  lookup, Bool-cases, inl, inr, arith,
}
use cesspace_arc.Approval.Data.{
  ApprovalState, pending, approved, rejected, expired, consumed, invalidated, ApprovalRecord, Actor,
  Workspace, RedemptionInput, Result, ok, throw,
}
use cesspace_arc.Approval.State.{Manager}
use cesspace_arc.Approval.Lifecycle.{check_lazy_expiry}
use cesspace_arc.Approval.Decisions.{
  optional_eq, actor_matches, workspace_matches, digest_matches, redeem_input_ok, binding_failure,
  invalidate_for_policy, consume, redeem_in_state, redeem_found, redeem_and_consume,
}
use cesspace_arc.Approval.Calls.{check_lazy_expiry_unchanged}

optional_eq_iff : (a b : Option Text) → (optional_eq a b ≡ true) ↔ (a ≡ b)
optional_eq_iff none none = ground arith
optional_eq_iff none (some b) = ground arith
optional_eq_iff (some a) none = ground arith
optional_eq_iff (some a) (some b) = ground (arith, text_eq_iff a b)

actor_matches_iff : (a b : Actor) → (actor_matches a b ≡ true) ↔ (a ≡ b)
unfolding actor_matches
actor_matches_iff a b = ground (
  arith,
  text_eq_iff a.client_id b.client_id,
  text_eq_iff a.client_type b.client_type,
  optional_eq_iff a.session_id b.session_id,
  optional_eq_iff a.device_id b.device_id,
)

workspace_matches_iff : (a b : Workspace) → (workspace_matches a b ≡ true) ↔ (a ≡ b)
unfolding workspace_matches
workspace_matches_iff a b = ground (
  arith,
  text_eq_iff a.workspace_id b.workspace_id,
  text_eq_iff a.workspace_root_hash b.workspace_root_hash,
)

digest_matches_iff : (d : Option Text) (c : Text) → (digest_matches d c ≡ true) ↔ (d ≡ some c)
unfolding digest_matches
digest_matches_iff none c = ground arith
digest_matches_iff (some d) c = ground (arith, text_eq_iff d c)

-- What the record and the input must agree on for a redemption at the reading `now`.
pub record IsRedeemable (sha256 : Text → Text) (now : ℕ) (input : RedemptionInput)
    (r : ApprovalRecord) : Type 0 where
  pub state : r.state ≡ approved
  pub live : now < r.monotonic_deadline
  pub policy : r.binding.policy_hash ≡ input.policy_hash
  pub payload : r.execution_payload_hash ≡ input.execution_payload_hash
  pub actor : r.binding.actor ≡ input.actor
  pub workspace : r.binding.workspace ≡ input.workspace
  pub token : r.token_digest ≡ some (sha256 input.token)

module _ (sha256 : Text → Text) (input : RedemptionInput) (r : ApprovalRecord) where
  binding_failure_iff : (binding_failure sha256 input r ≡ none) ↔ (
      (r.execution_payload_hash ≡ input.execution_payload_hash)
      × (r.binding.actor ≡ input.actor)
      × (r.binding.workspace ≡ input.workspace)
      × (r.token_digest ≡ some (sha256 input.token)))
  unfolding binding_failure
  binding_failure_iff = ground (
    arith,
    text_eq_iff r.execution_payload_hash input.execution_payload_hash,
    actor_matches_iff r.binding.actor input.actor,
    workspace_matches_iff r.binding.workspace input.workspace,
    digest_matches_iff r.token_digest (sha256 input.token),
  )

-- Whether a result is a value.
abbrev pub succeeds {ℓ} : {A : Type ℓ} → Result A → Bool
succeeds (ok _) = true
succeeds (throw _ _) = false

module _ (sha256 : Text → Text) (wall : ℕ) (input : RedemptionInput) (r : ApprovalRecord)
    (s : Manager) where
  in_state_succeeds_iff :
      (st : ApprovalState)
      → (succeeds (redeem_in_state sha256 wall input r st s).0 ≡ true) ↔ (
          (st ≡ approved)
          × (r.binding.policy_hash ≡ input.policy_hash)
          × (binding_failure sha256 input r ≡ none))
  unfolding redeem_in_state consume invalidate_for_policy
  in_state_succeeds_iff pending = ground arith
  in_state_succeeds_iff approved =
      ground (arith, text_eq_iff r.binding.policy_hash input.policy_hash)
  in_state_succeeds_iff rejected = ground arith
  in_state_succeeds_iff expired = ground arith
  in_state_succeeds_iff consumed = ground arith
  in_state_succeeds_iff invalidated = ground arith

  in_state_consumes :
      r.state ≡ approved
      → r.binding.policy_hash ≡ input.policy_hash
      → binding_failure sha256 input r ≡ none
      → redeem_in_state sha256 wall input r r.state s ≡ consume wall r s
  unfolding redeem_in_state
  in_state_consumes st policy bound =
      subst (λ x. redeem_in_state sha256 wall input r x s ≡ consume wall r s) (sym st)
        (rw ((text_eq_iff r.binding.policy_hash input.policy_hash).1 policy)
          (rw (bound, redeem_in_state)))

  -- An approved record is live exactly before its deadline.
  approved_live_iff :
      (now : ℕ)
      → r.state ≡ approved
      → ((check_lazy_expiry now wall r s).0 ≡ false) ↔ (now < r.monotonic_deadline)
  unfolding check_lazy_expiry
  approved_live_iff now a = ground arith

  -- With no expiry a redemption is that of the record's state.
  found_live :
      (now : ℕ)
      → (check_lazy_expiry now wall r s).0 ≡ false
      → redeem_found sha256 now wall input r s ≡ redeem_in_state sha256 wall input r r.state s
  unfolding redeem_found
  found_live now live = rw (live, check_lazy_expiry_unchanged now wall r s live)

  found_gone :
      (now : ℕ)
      → (check_lazy_expiry now wall r s).0 ≡ true
      → succeeds (redeem_found sha256 now wall input r s).0 ≡ false
  unfolding redeem_found
  found_gone now gone = rw gone

  found_sound :
      (now : ℕ)
      → succeeds (redeem_found sha256 now wall input r s).0 ≡ true
      → IsRedeemable sha256 now input r
  found_sound now h = elim (Bool-cases (check_lazy_expiry now wall r s).0) [
    | inl gone ↦ absurd (ground (arith, found_gone now gone))
    | inr live ↦
        let (st, policy, bound) =
          (in_state_succeeds_iff r.state).0 (rw (found_live now live) at h) in
        let (payload, actor, workspace, token) = (binding_failure_iff sha256 input r).0 bound in
        record {
          state = st;
          live = (approved_live_iff now st).0 live;
          policy = policy;
          payload = payload;
          actor = actor;
          workspace = workspace;
          token = token;
        }
  ]

  found_complete :
      (now : ℕ)
      → IsRedeemable sha256 now input r
      → redeem_found sha256 now wall input r s ≡ consume wall r s
  found_complete now h =
      let live = (approved_live_iff now h.state).1 h.live in
      let bound =
        (binding_failure_iff sha256 input r).1 (h.payload, h.actor, h.workspace, h.token) in
      found_live now live ∙ in_state_consumes h.state h.policy bound

-- `redeemAndConsume` on a well-formed input for a stored request.
module _ (sha256 : Text → Text) (mono : ℕ → ℕ) (wall : ℕ) (input : RedemptionInput)
    (r : ApprovalRecord) (s : Manager) (valid : redeem_input_ok input ≡ true)
    (found : lookup input.request_id s.records_by_request_id ≡ some r) where
  pub redeem-eq-found :
      redeem_and_consume sha256 mono wall input s ≡ redeem_found sha256 (mono 0) wall input r s
  unfolding redeem_and_consume
  redeem-eq-found = rw valid (rw (found, redeem_and_consume))

  -- A well-formed redemption of a stored request succeeds exactly if the request is approved, the
  -- clock is before its deadline, the policy hash, payload hash, actor and workspace are the ones
  -- that it is bound to, and the token has the stored digest.
  pub redeem_succeeds_iff :
      (succeeds (redeem_and_consume sha256 mono wall input s).0 ≡ true)
      ↔ IsRedeemable sha256 (mono 0) input r
  unfolding consume
  redeem_succeeds_iff = (
    λ h. found_sound sha256 wall input r s (mono 0) (rw redeem-eq-found at h),
    λ d. rw redeem-eq-found (rw (found_complete sha256 wall input r s (mono 0) d)),
  )

  pub redeem-eq-consume :
      IsRedeemable sha256 (mono 0) input r
      → redeem_and_consume sha256 mono wall input s ≡ consume wall r s
  redeem-eq-consume d = redeem-eq-found ∙ found_complete sha256 wall input r s (mono 0) d
