-- ===== src/Approval/Queries.antt =====
-- `inspectPending`, `getRequest` and `listActive` of packages/policy/src/approval-state.ts, which
-- may expire the records that they meet. `mono i` is the i-th reading of the monotonic clock.
use cesspace_arc.Base.{
  ℕ, suc, Bool, true, false, not, ◌&&◌, ◌||◌, Option, none, some, List, [], ◌∷◌, ◌++◌, Text, length,
  Dict, lookup, ltb, ◌==◌, if◌then◌else◌,
}
use cesspace_arc.Approval.Data.{ApprovalRecord, Snapshot, is_active, is_pending}
use cesspace_arc.Approval.State.{Manager, to_snapshot}
use cesspace_arc.Approval.Lifecycle.{check_lazy_expiry}

unfoldable pub inspect_pending : ℕ → ℕ → Text → Manager → Option Text × Manager
inspect_pending now wall request_id s = elim (lookup request_id s.records_by_request_id) [
  | none ↦ (none, s)
  | some r ↦
      let (is_expired, s') = check_lazy_expiry now wall r s in
      if is_expired
      then (none, s')
      else (if is_pending r.state then r.review_material else none, s')
]

-- The snapshot is that of the record object, which the check may have changed.
unfoldable pub snapshot_of : ℕ → Option ApprovalRecord → Option Snapshot
snapshot_of now none = none
snapshot_of now (some r) = some (to_snapshot now r)

unfoldable pub get_request : (mono : ℕ → ℕ) (wall : ℕ) → Text → Manager → Option Snapshot × Manager
get_request mono wall request_id s = elim (lookup request_id s.records_by_request_id) [
  | none ↦ (none, s)
  | some r ↦
      let (_, s') = check_lazy_expiry (mono 0) wall r s in
      (snapshot_of (mono 1) (lookup request_id s'.records_by_request_id), s')
]

-- The loop over the values of the map; the i-th record is checked at the i-th reading.
unfoldable pub collect_active :
    (mono : ℕ → ℕ) (wall i : ℕ)
    → Dict ApprovalRecord
    → List ApprovalRecord
    → Manager
    → List ApprovalRecord × Manager
collect_active mono wall i [] active s = (active, s)
collect_active mono wall i ((_, r) ∷ rest) active s =
    let (is_expired, s') = check_lazy_expiry (mono i) wall r s in
    collect_active mono wall (suc i) rest
      (if not is_expired && is_active r.state then active ++ r ∷ [] else active) s'

-- `a.requestId.localeCompare(b.requestId) < 0` on texts of hexadecimal digits, where the order of
-- the locale is that of the code units.
text_before : Text → Text → Bool
text_before [] [] = false
text_before [] (_ ∷ _) = true
text_before (_ ∷ _) [] = false
text_before (x ∷ xs) (y ∷ ys) = ltb x y || x == y && text_before xs ys

unfoldable pub comes_before : ApprovalRecord → ApprovalRecord → Bool
unfolding text_before
comes_before a b =
    ltb a.created_at_wall b.created_at_wall
    || a.created_at_wall == b.created_at_wall && text_before a.request_id b.request_id

-- The library's sort is stable: an element goes behind those that it does not come before.
unfoldable pub insert_sorted : ApprovalRecord → List ApprovalRecord → List ApprovalRecord
unfolding comes_before
insert_sorted r [] = r ∷ []
insert_sorted r (x ∷ xs) = if comes_before x r then x ∷ insert_sorted r xs else r ∷ x ∷ xs

unfoldable pub sort_records : List ApprovalRecord → List ApprovalRecord
unfolding insert_sorted
sort_records [] = []
sort_records (r ∷ rs) = insert_sorted r (sort_records rs)

unfoldable pub snapshots_from : (mono : ℕ → ℕ) → ℕ → List ApprovalRecord → List Snapshot
snapshots_from mono i [] = []
snapshots_from mono i (r ∷ rs) = to_snapshot (mono i) r ∷ snapshots_from mono (suc i) rs

unfoldable pub list_active : (mono : ℕ → ℕ) (wall : ℕ) → Manager → List Snapshot × Manager
list_active mono wall s =
    let (active, s') = collect_active mono wall 0 s.records_by_request_id [] s in
    (snapshots_from mono (length s.records_by_request_id) (sort_records active), s')
