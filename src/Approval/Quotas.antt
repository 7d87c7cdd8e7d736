-- ===== src/Approval/Quotas.antt =====
-- The production quotas of `ApprovalStateManager` (packages/policy/src/approval-state.ts).
use cesspace_arc.Base.{
  ℕ, ◌≤◌, ◌≡◌, subst, some, Text, lookup, total, >>=-eq-some, eq_of_some, arith,
}
use cesspace_arc.Approval.Data.{
  ApprovalRecord, max_active_approvals_global, max_active_approvals_per_actor,
  max_review_bytes_per_record, max_review_bytes_per_actor, max_review_bytes_global,
}
use cesspace_arc.Approval.State.{
  Limits, Manager, Options, NumberOption, not_given, not_a_natural, natural, validate_limit,
  empty_manager, new_manager,
}
use cesspace_arc.Approval.Invariant.{
  active_one, actor_one, bytes_of, actor_bytes, IsAccounted, IsWellFormed,
}
use cesspace_arc.Approval.Calls.{empty_manager-IsWellFormed}
use cesspace_arc.Approval.Operations.{Reach, Reach-IsWellFormed}

validate_limit-le : (o : NumberOption) (most n : ℕ) → validate_limit o most ≡ some n → n ≤ most
unfolding validate_limit
validate_limit-le not_given most n h = ground arith
validate_limit-le not_a_natural most n h = ground arith
validate_limit-le (natural k) most n h = ground arith

pub new_manager-IsWellFormed :
    (options : Options) (s : Manager) → new_manager options ≡ some s → IsWellFormed s
unfolding new_manager
new_manager-IsWellFormed options s h =
    let (g, eg, h1) =
      >>=-eq-some (validate_limit options.active_global max_active_approvals_global) _ h in
    let (a, ea, h2) =
      >>=-eq-some (validate_limit options.active_per_actor max_active_approvals_per_actor) _ h1 in
    let (r, er, h3) =
      >>=-eq-some (validate_limit options.bytes_per_record max_review_bytes_per_record) _ h2 in
    let (b, eb, h4) =
      >>=-eq-some (validate_limit options.bytes_per_actor max_review_bytes_per_actor) _ h3 in
    let (t, et, h5) =
      >>=-eq-some (validate_limit options.bytes_global max_review_bytes_global) _ h4 in
    let limits : Limits = record {
      active_global = g;
      active_per_actor = a;
      bytes_per_record = r;
      bytes_per_actor = b;
      bytes_global = t;
    } in
    let built : empty_manager limits ≡ s = eq_of_some h5 in
    subst IsWellFormed built (
      empty_manager-IsWellFormed limits (record {
        active = validate_limit-le options.active_global _ g eg;
        by_actor = validate_limit-le options.active_per_actor _ a ea;
        per_record = validate_limit-le options.bytes_per_record _ r er;
        bytes_by_actor = validate_limit-le options.bytes_per_actor _ b eb;
        bytes = validate_limit-le options.bytes_global _ t et;
      }))

-- In a manager that the constructor accepts, after any calls and clears: the counters are the
-- numbers of the active records and the sums of the retained review bytes, in all and for each
-- actor key.
pub counters_exact :
    {sha256 : Text → Text} (options : Options) (s t : Manager)
    → new_manager options ≡ some s
    → Reach sha256 s t
    → IsAccounted t
counters_exact options s t made reached =
    (Reach-IsWellFormed reached (new_manager-IsWellFormed options s made)).accounted

-- In a manager that the constructor accepts, after any calls and clears: at most 1024 records are
-- active, and at most 64 for each actor key; the retained review bytes are at most 64 MiB in all,
-- 8 MiB for each actor key, and 1 MiB for each record.
pub quotas_hold :
    {sha256 : Text → Text} (options : Options) (s t : Manager)
    → new_manager options ≡ some s
    → Reach sha256 s t
    → (total active_one t.records_by_request_id ≤ max_active_approvals_global)
      × ((k : Text) → total (actor_one k) t.records_by_request_id ≤ max_active_approvals_per_actor)
      × (total bytes_of t.records_by_request_id ≤ max_review_bytes_global)
      × ((k : Text) → total (actor_bytes k) t.records_by_request_id ≤ max_review_bytes_per_actor)
      × ((id : Text) (r : ApprovalRecord)
          → lookup id t.records_by_request_id ≡ some r
          → r.review_bytes ≤ max_review_bytes_per_record)
quotas_hold options s t made reached =
    let w = Reach-IsWellFormed reached (new_manager-IsWellFormed options s made) in
    let a = w.accounted in
    let q = w.within in
    let c = q.capped in
    (
      omega (arith, a.active, q.active, c.active),
      λ k. omega (arith, a.by_actor k, q.by_actor k, c.by_actor),
      omega (arith, a.bytes, q.bytes, c.bytes),
      λ k. omega (arith, a.bytes_by_actor k, q.bytes_by_actor k, c.bytes_by_actor),
      λ id r h. omega (arith, q.per_record id r h, c.per_record),
    )
