-- ===== src/Admission/Slots.antt =====
-- `AdmissionLimiter` of apps/mcp-server/src/admission-limiter.ts. The closures `release` that it
-- returns are the `holds` of its table of peers. `liveGlobal` may go below zero, so it is kept as
-- the difference of its increments and its decrements since the last reset.
use cesspace_arc.Base.{
  ℕ, ◌+◌, ◌-◌, false, Option, none, some, List, [], ◌∷◌, ◌++◌, Text, length, get_elem?, or_else,
  ltb, if◌then◌else◌,
}
use cesspace_arc.Limiter.Store.{update}
use cesspace_arc.Limiter.Buckets.{
  RateBucket, Limiter, new_limiter, ConsumeDecision, granted, table_saturated, rate_limit, consume,
  release, reset,
}

pub record AdmissionOptions : Type 0 where
  pub attempts_per_minute : Option ℕ
  pub burst : Option ℕ
  pub max_live_per_peer : Option ℕ
  pub max_live_global : Option ℕ
  pub max_in_flight_handshakes : Option ℕ
  pub max_peer_keys : Option ℕ
  pub idle_eviction_ms : Option ℕ

pub record AdmissionLimiter : Type 0 where
  pub peers : Limiter
  pub max_live_per_peer : ℕ
  pub max_live_global : ℕ
  pub max_in_flight_handshakes : ℕ
  pub live_added : ℕ
  pub live_removed : ℕ
  pub in_flight_handshakes : ℕ

-- `max_layer_a_keys` is the constant of the request limiter's module.
unfoldable pub new_admission : (max_layer_a_keys : ℕ) → AdmissionOptions → AdmissionLimiter
new_admission max_layer_a_keys o = record {
  peers = new_limiter (record {
    requests_per_minute = or_else o.attempts_per_minute 60;
    burst = or_else o.burst 20;
    max_keys = or_else o.max_peer_keys max_layer_a_keys;
    idle_eviction_ms = or_else o.idle_eviction_ms 60000;
    max_outstanding_per_key = none;
  });
  max_live_per_peer = or_else o.max_live_per_peer 32;
  max_live_global = or_else o.max_live_global 512;
  max_in_flight_handshakes = or_else o.max_in_flight_handshakes 64;
  live_added = 0;
  live_removed = 0;
  in_flight_handshakes = 0;
}

pub data AdmissionDecision : Type 0 where
  admitted : ℕ → AdmissionDecision
  refused_rate refused_table global_connection_cap handshake_cap : AdmissionDecision
  peer_connection_cap peer_key_invalid : AdmissionDecision

-- `bucket.holders`, of a bucket that is there.
unfoldable pub holders_of : ℕ → List RateBucket → ℕ
holders_of n buckets = elim (get_elem? buckets n) [ none ↦ 0 | some b ↦ b.holders ]

-- The writes of an admission.
unfoldable pub take_slot : ℕ → AdmissionLimiter → AdmissionLimiter
take_slot n s = record s {
  peers = record (s.peers) {
    buckets = update n (λ b. record b { holders = b.holders + 1 }) s.peers.buckets;
    holds = s.peers.holds ++ record { bucket = n; released = false } ∷ [];
  };
  live_added = s.live_added + 1;
  in_flight_handshakes = s.in_flight_handshakes + 1;
}

-- The concurrency bounds, after the rate accounting.
unfoldable pub admit_on : ℕ → AdmissionLimiter → AdmissionDecision × AdmissionLimiter
admit_on n s =
    if ltb (s.max_live_global + s.live_removed) (s.live_added + 1)
    then (global_connection_cap, s)
    else if ltb s.max_in_flight_handshakes (s.in_flight_handshakes + 1)
    then (handshake_cap, s)
    else if ltb s.max_live_per_peer (holders_of n s.peers.buckets + 1)
    then (peer_connection_cap, s)
    else (admitted (length s.peers.holds), take_slot n s)

unfoldable pub admit_decided :
    ConsumeDecision → AdmissionLimiter → AdmissionDecision × AdmissionLimiter
admit_decided rate_limit s = (refused_rate, s)
admit_decided table_saturated s = (refused_table, s)
admit_decided (granted n) s = admit_on n s

unfoldable pub admit : ℕ → Text → AdmissionLimiter → AdmissionDecision × AdmissionLimiter
admit now peer_key s =
    let (decision, peers) = consume now peer_key s.peers in
    admit_decided decision (record s { peers = peers })

-- A call of the closure `release`.
unfoldable pub release_connection : ℕ → AdmissionLimiter → AdmissionLimiter
release_connection h s = elim (get_elem? s.peers.holds h) [
  | none ↦ s
  | some hold ↦
      if hold.released
      then s
      else record s { peers = release h s.peers; live_removed = s.live_removed + 1 }
]

unfoldable pub release_handshake : AdmissionLimiter → AdmissionLimiter
release_handshake s =
    if ltb 0 s.in_flight_handshakes
    then record s { in_flight_handshakes = s.in_flight_handshakes - 1 }
    else s

unfoldable pub reset_admission : AdmissionLimiter → AdmissionLimiter
reset_admission s = record s {
  peers = reset s.peers;
  live_added = 0;
  live_removed = 0;
  in_flight_handshakes = 0;
}
