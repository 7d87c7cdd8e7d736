-- ===== src/Approval/SingleUse.antt =====
-- A redeemed request is spent for good, and a redemption that is refused for a binding leaves the
-- manager alone (`redeemAndConsume` of packages/policy/src/approval-state.ts).
use cesspace_arc.Base.{
  ℕ, ◌≡◌, sym, subst, ◌∙◌, Bool, true, false, Option, none, some, Text, text_eq_refl, lookup,
  Bool-cases, Option-cases, inl, inr, arith,
}
use cesspace_arc.Approval.Data.{
  consumed, ApprovalRecord, RedemptionInput, Result, throw, FailureReason, policy_binding_mismatch,
}
use cesspace_arc.Approval.State.{Manager}
use cesspace_arc.Approval.Lifecycle.{to_consumed, terminated}
use cesspace_arc.Approval.Decisions.{redeem_input_ok, consume, redeem_and_consume}
use cesspace_arc.Approval.Effects.{lookup-transition}
use cesspace_arc.Approval.Transitions.{state-terminated}
use cesspace_arc.Approval.Invariant.{IsWellFormed}
use cesspace_arc.Approval.Moves.{Moves-IsWellFormed}
use cesspace_arc.Approval.Expiry.{stored_under}
use cesspace_arc.Approval.Calls.{redeem-Moves}
use cesspace_arc.Approval.Operations.{Calls}
use cesspace_arc.Approval.History.{record_history, Leads-terminal}
use cesspace_arc.Approval.Redemption.{succeeds, redeem_succeeds_iff, redeem-eq-consume}

module _ (sha256 : Text → Text) (mono : ℕ → ℕ) (wall : ℕ) (input : RedemptionInput)
    (s : Manager) where
  -- Only a well-formed input for a stored request can succeed.
  success_needs_record :
      succeeds (redeem_and_consume sha256 mono wall input s).0 ≡ true
      → (redeem_input_ok input ≡ true)
        × ((r : ApprovalRecord) × (lookup input.request_id s.records_by_request_id ≡ some r))
  unfolding redeem_and_consume
  success_needs_record h = elim (Bool-cases (redeem_input_ok input)) [
    | inr bad ↦ absurd (cc (rw bad at h))
    | inl valid ↦ elim (Option-cases (lookup input.request_id s.records_by_request_id)) [
      | inl missing ↦ absurd (ground arith)
      | inr stored ↦ (valid, stored)
    ]
  ]

  -- A redemption that succeeds leaves the request in state CONSUMED.
  pub success_consumes :
      IsWellFormed s
      → succeeds (redeem_and_consume sha256 mono wall input s).0 ≡ true
      → (x : ApprovalRecord) × (lookup input.request_id
            (redeem_and_consume sha256 mono wall input s).1.records_by_request_id
          ≡ some x)
        × (x.state ≡ consumed)
  success_consumes w h =
      let (valid, (r, found)) = success_needs_record h in
      let d = (redeem_succeeds_iff sha256 mono wall input r s valid found).0 h in
      let stored = stored_under input.request_id r s w found in
      let e = redeem-eq-consume sha256 mono wall input r s valid found d in
      (
        terminated to_consumed r,
        rw e (
            unfold consume in
            rw (
              lookup-transition wall r to_consumed none none s stored (ground (arith, d.state))
                  input.request_id,
              w.indexed.keyed input.request_id r found,
              text_eq_refl,
            )),
        state-terminated to_consumed r,
      )

-- After one redemption of a request has succeeded, and whatever calls follow with no clear, every
-- further redemption of that request fails, with any token and any bindings.
pub redeem_once :
    (sha256 : Text → Text) (mono mono' : ℕ → ℕ) (wall wall' : ℕ) (input input' : RedemptionInput)
    (s t : Manager)
    → IsWellFormed s
    → succeeds (redeem_and_consume sha256 mono wall input s).0 ≡ true
    → Calls sha256 (redeem_and_consume sha256 mono wall input s).1 t
    → input'.request_id ≡ input.request_id
    → succeeds (redeem_and_consume sha256 mono' wall' input' t).0 ≡ false
redeem_once sha256 mono mono' wall wall' input input' s t w h calls same_id =
    let (x, stored, is_consumed) = success_consumes sha256 mono wall input s w h in
    let w' = Moves-IsWellFormed (redeem-Moves sha256 wall input mono s w) w in
    let (y, kept, evolves) = record_history input.request_id x calls w' stored in
    let final : y.state ≡ consumed = Leads-terminal evolves.state (ground arith) ∙ is_consumed in
    elim (Bool-cases (succeeds (redeem_and_consume sha256 mono' wall' input' t).0)) [
      | inr failed ↦ failed
      | inl ok_again ↦
          let (valid, (z, found)) = success_needs_record sha256 mono' wall' input' t ok_again in
          let d = (redeem_succeeds_iff sha256 mono' wall' input' z t valid found).0 ok_again in
          let eq : some y ≡ some z =
            sym kept ∙ subst (λ k. lookup k t.records_by_request_id ≡ some z) same_id found in
          absurd (ground (arith, d.state))
    ]

-- The reason of a refusal.
abbrev pub failure_reason {ℓ} : {A : Type ℓ} → Result A → Option FailureReason
failure_reason (throw _ reason) = reason
failure_reason _ = none

abbrev is_policy_mismatch : Option FailureReason → Bool
is_policy_mismatch (some policy_binding_mismatch) = true
is_policy_mismatch _ = false

abbrev pub names_reason : Option FailureReason → Bool
names_reason none = false
names_reason (some _) = true
