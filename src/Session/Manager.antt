-- ===== src/Session/Manager.antt =====
-- The housekeeping of `SessionManager` (packages/auth/src/session.ts): expiry, reservations, quotas,
-- revocation and counts. `mono k` is the reading of the monotonic clock at its k-th use in a call.
use cesspace_arc.Base.{
  ℕ, zero, suc, ◌+◌, Bool, true, false, not, ◌||◌, Option, none, some, List, [], map, Text, text_eq,
  length, ltb, leb, ◌==◌, if◌then◌else◌, is_some, lookup, insert, delete, retain, total, Outcome,
  returned, thrown, first_error, unless,
}
use cesspace_arc.Session.Data.{
  SessionRecord, SessionManager, SessionError, SessionView, session_absolute_ttl,
  session_idle_timeout, max_active_sessions_per_device, max_active_sessions_per_client,
  max_active_sessions_global, max_session_id_generation_attempts, session_id_reservation_ttl,
  reservation_limit, attempts_exhausted, global_limit, device_limit, client_limit,
  is_well_formed_session_id,
}

abbrev pub empty_manager : SessionManager
empty_manager = record { sessions = []; reserved = [] }

unfoldable pub is_expired : (now : ℕ) → SessionRecord → Bool
is_expired now r =
    if leb (r.created + session_absolute_ttl) now
    then true
    else leb (r.last_auth + session_idle_timeout) now

unfoldable pub purge_expired : (now : ℕ) → SessionManager → SessionManager
unfolding is_expired retain
purge_expired now s = record s { sessions = retain (λ r. not (is_expired now r)) s.sessions }

-- `reservedAt <= now - ttl` of integers that may be negative, without the subtraction.
unfoldable pub is_stale : (now reserved_at : ℕ) → Bool
is_stale now reserved_at = leb (reserved_at + session_id_reservation_ttl) now

unfoldable pub prune_reservations : (now : ℕ) → SessionManager → SessionManager
unfolding is_stale retain
prune_reservations now s =
    if length s.reserved == 0
    then s
    else record s { reserved = retain (λ t. not (is_stale now t)) s.reserved }

-- The attempts at a fresh identifier; `random k` is the k-th draw, in hexadecimal, and `at` the time
-- of the reservation.
unfoldable pub draw_session_id :
    (attempts : ℕ) (random : ℕ → Text) (k at : ℕ)
    → SessionManager
    → Outcome SessionError Text × SessionManager
unfolding is_well_formed_session_id lookup insert
draw_session_id zero random k at s = (thrown attempts_exhausted, s)
draw_session_id (suc attempts) random k at s =
    let again = draw_session_id attempts random (k + 1) at s in
    if not (is_well_formed_session_id (random k))
    then again
    else if is_some (lookup (random k) s.sessions) || is_some (lookup (random k) s.reserved)
    then again
    else (returned (random k), record s { reserved = insert (random k) at s.reserved })

unfoldable pub reserve_session_id :
    (mono : ℕ → ℕ) (random : ℕ → Text) → SessionManager → Outcome SessionError Text × SessionManager
unfolding purge_expired prune_reservations draw_session_id
reserve_session_id mono random s =
    let live = prune_reservations (mono 1) (purge_expired (mono 0) s) in
    if leb max_active_sessions_global (length live.sessions + length live.reserved)
    then (thrown reservation_limit, live)
    else draw_session_id max_session_id_generation_attempts random 0 (mono 2) live

unfoldable pub release_session_id_reservation : Text → SessionManager → Bool × SessionManager
unfolding is_well_formed_session_id lookup delete
release_session_id_reservation id s =
    if not (is_well_formed_session_id id)
    then (false, s)
    else (is_some (lookup id s.reserved), record s { reserved = delete id s.reserved })

-- The number of sessions that pass a test.
unfoldable pub count_sessions : (SessionRecord → Bool) → SessionManager → ℕ
unfolding total
count_sessions p s = total (λ r. if p r then 1 else 0) s.sessions

abbrev pub of_device : Text → SessionRecord → Bool
of_device device r = text_eq r.device_id device

abbrev pub of_client : Text → SessionRecord → Bool
of_client client r = text_eq r.client_id client

-- `assertQuotaAvailable`, as the error that it throws.
unfoldable pub quota_error : (device client : Text) → SessionManager → Option SessionError
unfolding count_sessions text_eq
quota_error device client s =
    first_error (unless (ltb (length s.sessions) max_active_sessions_global) global_limit) (
      first_error
        (unless (ltb (count_sessions (of_device device) s) max_active_sessions_per_device)
          device_limit)
        (unless (ltb (count_sessions (of_client client) s) max_active_sessions_per_client)
          client_limit))

unfoldable pub revoke_session : (mono : ℕ → ℕ) → Text → SessionManager → Bool × SessionManager
unfolding is_expired lookup delete
revoke_session mono id s = elim (lookup id s.sessions) [
  | none ↦ (false, s)
  | some r ↦ (not (is_expired (mono 0) r), record s { sessions = delete id s.sessions })
]

unfoldable pub close_session : (mono : ℕ → ℕ) → Text → SessionManager → Bool × SessionManager
unfolding revoke_session
close_session mono id s = revoke_session mono id s

unfoldable pub revoke_sessions_for_device :
    (mono : ℕ → ℕ) → Text → SessionManager → ℕ × SessionManager
unfolding purge_expired count_sessions text_eq
revoke_sessions_for_device mono device s =
    if length device == 0
    then (0, s)
    else let live = purge_expired (mono 0) s in
      (
        count_sessions (of_device device) live,
        record live { sessions = retain (λ r. not (of_device device r)) live.sessions },
      )

unfoldable pub clear_sessions : SessionManager → SessionManager
clear_sessions s = record s { sessions = []; reserved = [] }

unfoldable pub get_reserved_session_id_count : (mono : ℕ → ℕ) → SessionManager → ℕ × SessionManager
unfolding prune_reservations
get_reserved_session_id_count mono s =
    let live = prune_reservations (mono 0) s in (length live.reserved, live)

unfoldable pub get_active_session_count : (mono : ℕ → ℕ) → SessionManager → ℕ × SessionManager
unfolding purge_expired
get_active_session_count mono s =
    let live = purge_expired (mono 0) s in (length live.sessions, live)

unfoldable pub get_active_session_count_for_device :
    (mono : ℕ → ℕ) → Text → SessionManager → ℕ × SessionManager
unfolding purge_expired count_sessions text_eq
get_active_session_count_for_device mono device s =
    let live = purge_expired (mono 0) s in (count_sessions (of_device device) live, live)

unfoldable pub get_active_session_count_for_client :
    (mono : ℕ → ℕ) → Text → SessionManager → ℕ × SessionManager
unfolding purge_expired count_sessions text_eq
get_active_session_count_for_client mono client s =
    let live = purge_expired (mono 0) s in (count_sessions (of_client client) live, live)

unfoldable pub has_session : (mono : ℕ → ℕ) → Text → SessionManager → Bool × SessionManager
unfolding is_expired lookup delete
has_session mono id s = elim (lookup id s.sessions) [
  | none ↦ (false, s)
  | some r ↦
      if r.revoked
      then (false, s)
      else if is_expired (mono 0) r
      then (false, record s { sessions = delete r.session_id s.sessions })
      else (true, s)
]

abbrev pub view_of : SessionRecord → SessionView
view_of r = record {
  session_id = r.session_id;
  device_id = r.device_id;
  client_id = r.client_id;
  client_type = r.client_type;
  issued_at = r.issued_at;
}

unfoldable pub list_sessions : (mono : ℕ → ℕ) → SessionManager → List SessionView × SessionManager
unfolding purge_expired
list_sessions mono s =
    let live = purge_expired (mono 0) s in
    (map (λ (e : Text × SessionRecord). view_of e.1) live.sessions, live)
