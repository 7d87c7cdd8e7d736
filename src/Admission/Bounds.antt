-- ===== src/Admission/Bounds.antt =====
-- The bounds of `AdmissionLimiter` (apps/mcp-server/src/admission-limiter.ts), in a run without
-- a reset and after one.
use cesspace_arc.Base.{
  ℕ, ◌+◌, ◌≤◌, ◌≡◌, refl, ap, ◌∙◌, false, some, Text, length, get_elem?, or_else, arith,
}
use cesspace_arc.Limiter.Buckets.{
  RateBucket, Hold, ConsumeDecision, granted, table_saturated, rate_limit, consume, reset,
  new_limiter, LimiterOptions,
}
use cesspace_arc.Limiter.Invariant.{live_on}
use cesspace_arc.Limiter.Rates.{consume-options, release-options}
use cesspace_arc.Admission.Slots.{
  AdmissionOptions, AdmissionLimiter, new_admission, take_slot, admit_on, admit_decided, admit,
  release_connection, release_handshake, reset_admission,
}
use cesspace_arc.Admission.Grants.{live_holds}
use cesspace_arc.Admission.Invariant.{
  new_admission-IsAdmissionSound, arrives, ends, settles, AdmissionSteps, nothing, next,
  Steps-IsAdmissionSound,
}

-- The three maxima and the options of the table.
abbrev limits_of : AdmissionLimiter → ℕ × ℕ × ℕ × LimiterOptions
limits_of s = (s.max_live_global, s.max_live_per_peer, s.max_in_flight_handshakes, s.peers.options)

decided-limits :
    (d : ConsumeDecision) (s : AdmissionLimiter) → limits_of (admit_decided d s).1 ≡ limits_of s
unfolding admit_decided admit_on take_slot
decided-limits (granted n) s = ground arith
decided-limits table_saturated s = refl
decided-limits rate_limit s = refl

admit-limits :
    (now : ℕ) (key : Text) (s : AdmissionLimiter) → limits_of (admit now key s).1 ≡ limits_of s
unfolding admit
admit-limits now key s =
    decided-limits (consume now key s.peers).0 (record s { peers = (consume now key s.peers).1 })
    ∙ ap (λ o. (s.max_live_global, s.max_live_per_peer, s.max_in_flight_handshakes, o))
        (consume-options now key s.peers)

release_connection-limits :
    (h : ℕ) (s : AdmissionLimiter) → limits_of (release_connection h s) ≡ limits_of s
unfolding release_connection
release_connection-limits h s = ground (arith, release-options h s.peers)

release_handshake-limits : (s : AdmissionLimiter) → limits_of (release_handshake s) ≡ limits_of s
unfolding release_handshake
release_handshake-limits s = ground arith

Steps-limits : {s t : AdmissionLimiter} → AdmissionSteps s t → limits_of t ≡ limits_of s
Steps-limits nothing = refl
Steps-limits (next {t} r (arrives now key e)) =
    ap limits_of e ∙ admit-limits now key t ∙ Steps-limits r
Steps-limits (next {t} r (ends h e)) =
    ap limits_of e ∙ release_connection-limits h t ∙ Steps-limits r
Steps-limits (next {t} r (settles e)) = ap limits_of e ∙ release_handshake-limits t ∙ Steps-limits r

-- Whatever connections arrive and end and whatever handshakes settle at a new admission limiter,
-- without a reset: its count of live connections is the number of admitted connections that have
-- not ended, and is at most the global maximum of its options, 512 by default; the holders of each
-- peer bucket are its admitted connections that have not ended, and at most the maximum for a peer,
-- 32 by default; the handshakes in flight are at most their maximum, 64 by default, and the table of
-- peers has at most its maximum of keys.
pub admission_bounds :
    (keys : ℕ) (o : AdmissionOptions) (t : AdmissionLimiter)
    → AdmissionSteps (new_admission keys o) t
    → (t.live_added ≡ t.live_removed + live_holds t.peers.holds)
      × (live_holds t.peers.holds ≤ or_else o.max_live_global 512)
      × ((n : ℕ) (b : RateBucket)
          → get_elem? t.peers.buckets n ≡ some b
          → (b.holders ≡ live_on n t.peers.holds) × (b.holders ≤ or_else o.max_live_per_peer 32))
      × (t.in_flight_handshakes ≤ or_else o.max_in_flight_handshakes 64)
      × (length t.peers.entries ≤ or_else o.max_peer_keys keys)
unfolding new_admission new_limiter
admission_bounds keys o t run =
    let w = Steps-IsAdmissionSound run (new_admission-IsAdmissionSound keys o) in
    let same = Steps-limits run in
    let g : t.max_live_global ≡ or_else o.max_live_global 512 = ap (λ l. l.0) same in
    let p : t.max_live_per_peer ≡ or_else o.max_live_per_peer 32 = ap (λ l. l.1) same in
    let f : t.max_in_flight_handshakes ≡ or_else o.max_in_flight_handshakes 64 =
      ap (λ l. l.2) same in
    let k : t.peers.options.max_keys ≡ or_else o.max_peer_keys keys = ap (λ l. l.3.max_keys) same in
    (
      w.live,
      omega (arith, w.global, g),
      λ n b h.
          let own = (w.table.buckets n b h).holders in (own, omega (arith, own, w.per_peer n, p)),
      omega (arith, w.handshakes, f),
      omega (arith, w.table.size, k),
    )

-- A connection that is still admitted when the limiter is reset takes the count of live connections
-- below zero when it ends: there is one more decrement than there are increments.
pub end_after_reset :
    (h : ℕ) (hold : Hold) (s : AdmissionLimiter)
    → get_elem? s.peers.holds h ≡ some hold
    → hold.released ≡ false
    → (release_connection h (reset_admission s)).live_removed
      ≡ (release_connection h (reset_admission s)).live_added + 1
unfolding release_connection reset_admission reset
end_after_reset h hold s found live = ground (arith, found, live)
