-- ===== src/Limiter/Tests.antt =====
-- Runs of `BoundedRequestLimiter` (apps/mcp-server/src/remote-resource-limits.ts) and its theorems
-- at a limiter with one key, a burst of two and one outstanding request.
use cesspace_arc.Base.{
  ℕ, ◌*◌, ◌≤◌, ◌≡◌, refl, true, false, none, some, Text, text, text_eq, length, get_elem?,
}
use cesspace_arc.Limiter.Buckets.{
  RateBucket, LimiterOptions, Limiter, token_unit, new_limiter, find_entry, remove_entry, is_idle,
  evict_idle, create_bucket, touched, granted, table_saturated, rate_limit, take_token, consume,
  try_hold, release,
}
use cesspace_arc.Limiter.Invariant.{live_on, WithinCap, IsSound, new_limiter-IsSound}
use cesspace_arc.Limiter.Steps.{Steps, no_step, and_then, consumes, holds_one}
use cesspace_arc.Limiter.Decisions.{limiter_bounds, listed, busy_entry_stays}

limiter : Unit {0}
unfolding text_eq new_limiter find_entry remove_entry is_idle evict_idle create_bucket touched
    take_token consume try_hold release listed
limiter = tt

abbrev options : LimiterOptions
options = record {
  requests_per_minute = 120;
  burst = 2;
  max_keys = 1;
  idle_eviction_ms = 60000;
  max_outstanding_per_key = some 1;
}

abbrev key_a : Text
key_a = text "a"

abbrev key_b : Text
key_b = text "b"

abbrev started : Limiter
started = new_limiter options

abbrev one_key : Limiter
one_key = (consume 1000 key_a started).1

abbrev one_held : Limiter
one_held = (try_hold 0 one_key).1

first_granted : (consume 1000 key_a started).0 ≡ granted 0
unfolding limiter
first_granted = refl

second_key_refused : (consume 1001 key_b one_held).0 ≡ table_saturated
unfolding limiter
second_key_refused = refl

second_hold_refused : (try_hold 0 one_held).0 ≡ none
unfolding limiter
second_hold_refused = refl

third_request_limited : (consume 1003 key_a (consume 1002 key_a one_key).1).0 ≡ rate_limit
unfolding limiter
third_request_limited = refl

abbrev bucket_a : RateBucket
bucket_a = record { tokens = 60000; last_refill_ms = 1000; last_seen_ms = 1000; holders = 0 }

run_to_held : Steps started one_held
run_to_held = and_then (and_then no_step (consumes 1000 key_a refl)) (holds_one 0 refl)

started-IsSound : IsSound started
started-IsSound = new_limiter-IsSound options

held_entry : listed key_a 0 one_held.entries ≡ true
unfolding limiter
held_entry = refl

held_busy : is_idle 900000 one_held.options.idle_eviction_ms one_held.buckets 0 ≡ false
unfolding limiter
held_busy = refl

abbrev repeated : Steps one_key (consume 1600 key_a one_key).1
repeated = and_then no_step (consumes 1600 key_a refl)

limiter_bounds_example :
    (length one_held.entries ≤ 1)
    × ((n : ℕ) (b : RateBucket)
        → get_elem? one_held.buckets n ≡ some b
        → (b.tokens ≤ 2 * token_unit)
          × (b.holders ≡ live_on n one_held.holds)
          × WithinCap (some 1) b.holders)
limiter_bounds_example = limiter_bounds options one_held run_to_held

busy_entry_stays_example : listed key_a 0 (consume 900000 key_b one_held).1.entries ≡ true
busy_entry_stays_example = busy_entry_stays 900000 key_a key_b 0 one_held held_entry held_busy
