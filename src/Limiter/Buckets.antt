-- ===== src/Limiter/Buckets.antt =====
-- `BoundedRequestLimiter` of apps/mcp-server/src/remote-resource-limits.ts. Buckets are objects:
-- the table, a decision and the closure of a holder refer to them by their position in `buckets`,
-- and a bucket that has left the table is still there for its holders. `holds` are the closures
-- that `tryHold` has returned, with their flag `released`.
-- Tokens are counted in units of which 60000 are one token, so that a millisecond is worth
-- `requests_per_minute` units and nothing is rounded. The clock reads milliseconds.
use cesspace_arc.Base.{
  ℕ, ◌+◌, ◌-◌, ◌*◌, min, Bool, true, false, not, ◌&&◌, Option, none, some, List, [], ◌∷◌, ◌++◌,
  Text, text_eq, length, get_elem?, keep, ltb, leb, ◌==◌, if◌then◌else◌,
}
use cesspace_arc.Limiter.Store.{update}

pub record RateBucket : Type 0 where
  pub tokens : ℕ
  pub last_refill_ms : ℕ
  pub last_seen_ms : ℕ
  pub holders : ℕ

pub record Hold : Type 0 where
  pub bucket : ℕ
  pub released : Bool

pub record LimiterOptions : Type 0 where
  pub requests_per_minute : ℕ
  pub burst : ℕ
  pub max_keys : ℕ
  pub idle_eviction_ms : ℕ
  pub max_outstanding_per_key : Option ℕ

-- `entries` is in access order, the oldest first.
pub record Limiter : Type 0 where
  pub options : LimiterOptions
  pub entries : List (Text × ℕ)
  pub buckets : List RateBucket
  pub holds : List Hold

abbrev pub token_unit : ℕ
token_unit = 60000

unfoldable pub new_limiter : LimiterOptions → Limiter
new_limiter options = record { options = options; entries = []; buckets = []; holds = [] }

-- `this.entries.get(key)`
unfoldable pub find_entry : Text → List (Text × ℕ) → Option ℕ
find_entry key [] = none
find_entry key ((k, b) ∷ rest) = if text_eq k key then some b else find_entry key rest

-- `this.entries.delete(key)`
unfoldable pub remove_entry : Text → List (Text × ℕ) → List (Text × ℕ)
remove_entry key [] = []
remove_entry key ((k, b) ∷ rest) = if text_eq k key then rest else (k, b) ∷ remove_entry key rest

-- The test of `evictIdle`. A reference that leads to no bucket does not occur.
unfoldable pub is_idle : ℕ → ℕ → List RateBucket → ℕ → Bool
is_idle now idle_eviction_ms buckets n = elim (get_elem? buckets n) [
  | none ↦ false
  | some b ↦ b.holders == 0 && leb (b.last_seen_ms + idle_eviction_ms) now
]

unfoldable pub evict_idle : ℕ → Limiter → Limiter
evict_idle now s = record s {
  entries = keep (λ e. not (is_idle now s.options.idle_eviction_ms s.buckets e.1)) s.entries;
}

-- A fresh key starts with a full burst.
abbrev pub new_bucket : ℕ → LimiterOptions → RateBucket
new_bucket now options = record {
  tokens = options.burst * token_unit;
  last_refill_ms = now;
  last_seen_ms = now;
  holders = 0;
}

unfoldable pub create_bucket : Text → ℕ → Limiter → Limiter
create_bucket key now s = record s {
  entries = s.entries ++ (key, length s.buckets) ∷ [];
  buckets = s.buckets ++ new_bucket now s.options ∷ [];
}

-- The accrual of tokens at an access.
unfoldable pub touched : ℕ → LimiterOptions → RateBucket → RateBucket
touched now options b =
    if ltb b.last_refill_ms now
    then record b {
      last_seen_ms = now;
      tokens =
          min (options.burst * token_unit)
            (b.tokens + (now - b.last_refill_ms) * options.requests_per_minute);
      last_refill_ms = now;
    }
    else record b { last_seen_ms = now }

pub data ConsumeDecision : Type 0 where
  granted : ℕ → ConsumeDecision
  table_saturated rate_limit : ConsumeDecision

abbrev pub enough : Option RateBucket → Bool
enough none = false
enough (some b) = leb token_unit b.tokens

-- The rest of `consume` once the bucket is in the table.
unfoldable pub take_token : ℕ → ℕ → Limiter → ConsumeDecision × Limiter
take_token now n s =
    let buckets = update n (touched now s.options) s.buckets in
    if enough (get_elem? buckets n)
    then (
      granted n,
      record s { buckets = update n (λ b. record b { tokens = b.tokens - token_unit }) buckets },
    )
    else (rate_limit, record s { buckets = buckets })

unfoldable pub consume : ℕ → Text → Limiter → ConsumeDecision × Limiter
consume now key s =
    let s' = evict_idle now s in
    elim (find_entry key s'.entries) [
      | some n ↦
          take_token now n (record s' { entries = remove_entry key s'.entries ++ (key, n) ∷ [] })
      | none ↦
          if leb s'.options.max_keys (length s'.entries)
          then (table_saturated, s')
          else take_token now (length s'.buckets) (create_bucket key now s')
    ]

-- `holders + 1 > maxOutstandingPerKey`
abbrev pub at_cap : Option ℕ → ℕ → Bool
at_cap none holders = false
at_cap (some most) holders = ltb most (holders + 1)

-- `none` is the refusal CONCURRENCY_LIMIT; otherwise the position of the closure in `holds`.
unfoldable pub try_hold : ℕ → Limiter → Option ℕ × Limiter
try_hold n s = elim (get_elem? s.buckets n) [
  | none ↦ (none, s)
  | some b ↦ if at_cap s.options.max_outstanding_per_key b.holders then (none, s) else (
    some (length s.holds),
    record s {
      buckets = update n (λ b. record b { holders = b.holders + 1 }) s.buckets;
      holds = s.holds ++ record { bucket = n; released = false } ∷ [];
    },
  )
]

-- A call of the closure `release`. `holders` is positive here, see the invariant.
unfoldable pub release : ℕ → Limiter → Limiter
release h s = elim (get_elem? s.holds h) [
  | none ↦ s
  | some hold ↦ if hold.released then s else record s {
    buckets = update hold.bucket (λ b. record b { holders = b.holders - 1 }) s.buckets;
    holds = update h (λ x. record x { released = true }) s.holds;
  }
]

unfoldable pub reset : Limiter → Limiter
reset s = record s { entries = [] }
