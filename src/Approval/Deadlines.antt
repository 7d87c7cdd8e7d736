-- ===== src/Approval/Deadlines.antt =====
-- Which records reclamation expires, and when a request is reused
-- (`reclaimExpiredActiveRecords`, `purgeExpired` and `createOrReusePending` of
-- packages/policy/src/approval-state.ts).
use cesspace_arc.Base.{
  ℕ, ◌<◌, ◌≡◌, ◌∙◌, true, none, some, List, [], ◌∷◌, Text, text_eq, text_eq_iff, has, lookup, leb,
  Bool-cases, Option-cases, inl, inr, arith,
}
use cesspace_arc.Approval.Data.{ApprovalRecord, is_active}
use cesspace_arc.Approval.State.{Manager}
use cesspace_arc.Approval.Lifecycle.{
  to_expired, transition_to_terminal, expire_if_due, expire_each, reclaim_expired_active_records,
}
use cesspace_arc.Approval.Effects.{lookup-transition}
use cesspace_arc.Approval.Transitions.{inactive-terminated}
use cesspace_arc.Approval.Invariant.{IsWellFormed}
use cesspace_arc.Approval.Moves.{Moves-IsWellFormed}
use cesspace_arc.Approval.Expiry.{stored_under, expire_if_due-Moves}

module _ (now wall : ℕ) where
  -- An active record after one round was there before, and is not due if the round was its own.
  survivor_of_round :
      (id j : Text) (r : ApprovalRecord) (s : Manager)
      → IsWellFormed s
      → lookup j (expire_if_due now wall id s).records_by_request_id ≡ some r
      → is_active r.state ≡ true
      → (lookup j s.records_by_request_id ≡ some r)
        × (text_eq id j ≡ true → now < r.monotonic_deadline)
  unfolding expire_if_due
  survivor_of_round id j r s w h act = elim (Option-cases (lookup id s.records_by_request_id)) [
    | inl missing ↦
        let h' : lookup j s.records_by_request_id ≡ some r = rw (missing, expire_if_due) at h in
        (h', λ same. absurd (ground (arith, text_eq_iff id j)))
    | inr (x, found) ↦ elim (Bool-cases (leb x.monotonic_deadline now)) [
      | inr early ↦
          let h' : lookup j s.records_by_request_id ≡ some r =
            rw early at (rw (found, expire_if_due) at h) in
          (h', λ same. ground (arith, text_eq_iff id j))
      | inl due ↦
          let h' : lookup j
                (transition_to_terminal wall x to_expired none none s).records_by_request_id
              ≡ some r =
            rw due at (rw (found, expire_if_due) at h) in
          elim (Bool-cases (is_active x.state)) [
            | inl live ↦
                let l =
                  lookup-transition wall x to_expired none none s (stored_under id x s w found) live
                    j in
                let key = w.indexed.keyed id x found in
                (
                  ground (arith, inactive-terminated to_expired x),
                  λ same. absurd (ground (arith, inactive-terminated to_expired x)),
                )
            | inr over ↦
                let h'' : lookup j s.records_by_request_id ≡ some r =
                  unfold transition_to_terminal in (rw over at h') in
                (h'', λ same. absurd (ground (arith, text_eq_iff id j)))
          ]
    ]
  ]

  survivor_of_rounds :
      (ids : List Text) (j : Text) (r : ApprovalRecord) (s : Manager)
      → IsWellFormed s
      → lookup j (expire_each now wall ids s).records_by_request_id ≡ some r
      → is_active r.state ≡ true
      → (lookup j s.records_by_request_id ≡ some r)
        × (has j ids ≡ true → now < r.monotonic_deadline)
  unfolding expire_each has
  survivor_of_rounds [] j r s w h act = (h, λ e. absurd (cc))
  survivor_of_rounds (id ∷ ids) j r s w h act =
      let w' = Moves-IsWellFormed (expire_if_due-Moves now wall id s w) w in
      let (mid, later) = survivor_of_rounds ids j r (expire_if_due now wall id s) w' h act in
      let (before, own) = survivor_of_round id j r s w mid act in
      (before, λ e. ground (arith, later, own))

  -- After a reclamation at the reading `now`, every active record has its deadline after `now`,
  -- and was there before, unchanged.
  pub reclaim_leaves_live :
      (j : Text) (r : ApprovalRecord) (s : Manager)
      → IsWellFormed s
      → lookup j (reclaim_expired_active_records now wall s).records_by_request_id ≡ some r
      → is_active r.state ≡ true
      → (lookup j s.records_by_request_id ≡ some r) × (now < r.monotonic_deadline)
  unfolding reclaim_expired_active_records
  reclaim_leaves_live j r s w h act =
      let (before, later) = survivor_of_rounds s.active_request_ids j r s w h act in
      (before, later (w.indexed.listed j ∙ rw before act))
