-- ===== src/Limiter/Rates.antt =====
-- How many tokens one bucket of `BoundedRequestLimiter`
-- (apps/mcp-server/src/remote-resource-limits.ts) gives out.
use cesspace_arc.Base.{
  ℕ, ◌+◌, ◌*◌, ◌≤◌, ◌≡◌, refl, ap, ◌∙◌, inl, inr, some, Text, length, get_elem?, leb, ◌==◌,
  if◌then◌else◌, Bool-cases, Option-cases, arith,
}
use cesspace_arc.Limiter.Buckets.{
  RateBucket, Limiter, token_unit, find_entry, evict_idle, create_bucket, ConsumeDecision, granted,
  take_token, consume, try_hold, release, reset,
}
use cesspace_arc.Limiter.Steps.{
  Step, consumes, holds_one, releases, resets, Steps, no_step, and_then,
}

-- `given` tokens were taken from a bucket between two of its states: the tokens that it has left
-- with those that it gave are at most those that it had with those that accrued at the rate.
abbrev pub IsPaid : (rate given : ℕ) → RateBucket → RateBucket → Type 0
IsPaid rate given b c =
    given * token_unit + c.tokens + b.last_refill_ms * rate ≤ b.tokens + c.last_refill_ms * rate

-- The tokens that a decision takes from a bucket.
abbrev pub grants : ℕ → ConsumeDecision → ℕ
grants n (granted m) = if m == n then 1 else 0
grants n _ = 0

-- A bucket after an operation.
abbrev After : (rate given n : ℕ) → RateBucket → Limiter → Type 0
After rate given n b t = (c : RateBucket) × (get_elem? t.buckets n ≡ some c) × IsPaid rate given b c

take_token-options : (now m : ℕ) (s : Limiter) → (take_token now m s).1.options ≡ s.options
unfolding take_token
take_token-options now m s = ground arith

pub consume-options :
    (now : ℕ) (key : Text) (s : Limiter) → (consume now key s).1.options ≡ s.options
unfolding consume evict_idle create_bucket
consume-options now key s =
    let s' = evict_idle now s in
    elim (Option-cases (find_entry key s'.entries)) [
      | inr (m, found) ↦ rw (consume, found) (take_token-options now m _)
      | inl missing ↦ elim (Bool-cases (leb s'.options.max_keys (length s'.entries))) [
        | inl full ↦ rw (consume, missing, full)
        | inr room ↦
            rw (consume, missing, room)
              (take_token-options now (length s'.buckets) (create_bucket key now s'))
      ]
    ]

try_hold-options : (n : ℕ) (s : Limiter) → (try_hold n s).1.options ≡ s.options
unfolding try_hold
try_hold-options n s = ground arith

pub release-options : (i : ℕ) (s : Limiter) → (release i s).options ≡ s.options
unfolding release
release-options i s = ground arith

-- The options of a limiter never change.
Step-options : {s t : Limiter} → Step s t → t.options ≡ s.options
unfolding reset
Step-options {s} (consumes now key e) =
    ap (λ (u : Limiter). u.options) e ∙ consume-options now key s
Step-options {s} (holds_one n e) = ap (λ (u : Limiter). u.options) e ∙ try_hold-options n s
Step-options {s} (releases i e) = ap (λ (u : Limiter). u.options) e ∙ release-options i s
Step-options {s} (resets e) = ap (λ (u : Limiter). u.options) e

pub Steps-options : {s t : Limiter} → Steps s t → t.options ≡ s.options
Steps-options no_step = refl
Steps-options (and_then r x) = Step-options x ∙ Steps-options r

-- The tokens that a step takes from a bucket.
abbrev pub step_grants : ℕ → {s t : Limiter} → Step s t → ℕ
step_grants n {s} (consumes now key e) = grants n (consume now key s).0
step_grants n _ = 0

abbrev pub run_grants : ℕ → {s t : Limiter} → Steps s t → ℕ
run_grants n no_step = 0
run_grants n (and_then r x) = run_grants n r + step_grants n x
