-- ===== src/Admission/Tests.antt =====
-- Runs of `AdmissionLimiter` (apps/mcp-server/src/admission-limiter.ts) and its theorems at a
-- limiter with one live connection for each peer.
use cesspace_arc.Base.{
  ℕ, ◌+◌, ◌≤◌, ◌≡◌, refl, false, none, some, Text, text, text_eq, length, get_elem?,
}
use cesspace_arc.Limiter.Buckets.{
  RateBucket, Hold, new_limiter, find_entry, remove_entry, is_idle, evict_idle, create_bucket,
  touched, take_token, consume, release, reset,
}
use cesspace_arc.Limiter.Invariant.{live_on}
use cesspace_arc.Admission.Slots.{
  AdmissionOptions, AdmissionLimiter, new_admission, peer_connection_cap, admitted, holders_of,
  take_slot, admit_on, admit_decided, admit, release_connection, release_handshake, reset_admission,
}
use cesspace_arc.Admission.Grants.{live_holds}
use cesspace_arc.Admission.Invariant.{AdmissionSteps, nothing, next, arrives, settles}
use cesspace_arc.Admission.Bounds.{admission_bounds, end_after_reset}

admission : Unit {0}
unfolding text_eq new_limiter find_entry remove_entry is_idle evict_idle create_bucket touched
    take_token consume release reset new_admission holders_of take_slot admit_on admit_decided admit
    release_connection release_handshake reset_admission
admission = tt

abbrev settings : AdmissionOptions
settings = record {
  attempts_per_minute = none;
  burst = none;
  max_live_per_peer = some 1;
  max_live_global = none;
  max_in_flight_handshakes = none;
  max_peer_keys = none;
  idle_eviction_ms = none;
}

abbrev peer : Text
peer = text "v4:1"

abbrev fresh_one : AdmissionLimiter
fresh_one = new_admission 4 settings

abbrev one_live : AdmissionLimiter
one_live = (admit 1000 peer fresh_one).1

abbrev one_settled : AdmissionLimiter
one_settled = release_handshake one_live

first_admitted : (admit 1000 peer fresh_one).0 ≡ admitted 0
unfolding admission
first_admitted = refl

second_refused : (admit 1001 peer one_settled).0 ≡ peer_connection_cap
unfolding admission
second_refused = refl

abbrev live_hold : Hold
live_hold = record { bucket = 0; released = false }

still_live : get_elem? one_live.peers.holds 0 ≡ some live_hold
unfolding admission
still_live = refl

arrived : AdmissionSteps fresh_one one_settled
arrived = next (next nothing (arrives 1000 peer refl)) (settles refl)

admission_bounds_example :
    (one_settled.live_added ≡ one_settled.live_removed + live_holds one_settled.peers.holds)
    × (live_holds one_settled.peers.holds ≤ 512)
    × ((n : ℕ) (b : RateBucket)
        → get_elem? one_settled.peers.buckets n ≡ some b
        → (b.holders ≡ live_on n one_settled.peers.holds) × (b.holders ≤ 1))
    × (one_settled.in_flight_handshakes ≤ 64)
    × (length one_settled.peers.entries ≤ 4)
admission_bounds_example = admission_bounds 4 settings one_settled arrived

end_after_reset_example :
    (release_connection 0 (reset_admission one_live)).live_removed
    ≡ (release_connection 0 (reset_admission one_live)).live_added + 1
end_after_reset_example = end_after_reset 0 live_hold one_live still_live refl
