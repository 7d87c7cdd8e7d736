-- ===== src/Limiter/Decisions.antt =====
-- What the decisions of `BoundedRequestLimiter` (apps/mcp-server/src/remote-resource-limits.ts)
-- leave of its table.
use cesspace_arc.Base.{
  ℕ, ◌*◌, ◌≤◌, ◌≡◌, refl, subst, ap, inl, inr, Bool, true, false, not, ◌&&◌, ◌||◌, some, List, [],
  ◌∷◌, ◌++◌, Text, text_eq, text_eq_iff, length, get_elem?, keep, leb, ◌==◌, Bool-cases,
  Option-cases, arith,
}
use cesspace_arc.Limiter.Buckets.{
  RateBucket, LimiterOptions, Limiter, token_unit, new_limiter, find_entry, remove_entry, is_idle,
  evict_idle, create_bucket, table_saturated, take_token, consume,
}
use cesspace_arc.Limiter.Invariant.{live_on, WithinCap, IsSound, new_limiter-IsSound, length-keep}
use cesspace_arc.Limiter.Steps.{Steps, Steps-IsSound}
use cesspace_arc.Limiter.Rates.{Steps-options}

-- Whatever is called on a new limiter, its table never has more entries than the ceiling, and no
-- bucket has more tokens than the burst, more holders than the cap, or a number of holders other
-- than that of its closures that have not been called.
pub limiter_bounds :
    (options : LimiterOptions) (t : Limiter)
    → Steps (new_limiter options) t
    → (length t.entries ≤ options.max_keys)
      × ((n : ℕ) (b : RateBucket)
          → get_elem? t.buckets n ≡ some b
          → (b.tokens ≤ options.burst * token_unit)
            × (b.holders ≡ live_on n t.holds)
            × WithinCap options.max_outstanding_per_key b.holders)
unfolding new_limiter
limiter_bounds options t run =
    let w = Steps-IsSound run (new_limiter-IsSound options) in
    let same : t.options ≡ options = Steps-options run in
    (
      subst (λ (o : LimiterOptions). length t.entries ≤ o.max_keys) same w.size,
      λ n b h.
          let x = w.buckets n b h in
          (
            subst (λ (o : LimiterOptions). b.tokens ≤ o.burst * token_unit) same x.tokens,
            x.holders,
            subst (λ (o : LimiterOptions). WithinCap o.max_outstanding_per_key b.holders) same
                x.capped,
          ),
    )

keep_whole : {A : Type 0} (p : A → Bool) (l : List A) → length l ≤ length (keep p l) → keep p l ≡ l
keep_whole p [] h = refl
keep_whole p (x ∷ l) h = elim (Bool-cases (p x)) [
  | inl stays ↦ rw stays (ap (λ m. x ∷ m) (keep_whole p l (ground arith)))
  | inr goes ↦ absurd (ground (arith, length-keep p l))
]

take_token_decides : (now n : ℕ) (s : Limiter) → (take_token now n s).0 ≡ table_saturated → ⊥
unfolding take_token
take_token_decides now n s h = ground arith

-- A refusal for saturation leaves the limiter as it was: nothing was evicted, no bucket was made,
-- and no access was recorded.
pub saturated_unchanged :
    (now : ℕ) (key : Text) (s : Limiter)
    → IsSound s
    → (consume now key s).0 ≡ table_saturated
    → (consume now key s).1 ≡ s
unfolding consume evict_idle
saturated_unchanged now key s w h =
    let s' = evict_idle now s in
    elim (Option-cases (find_entry key s'.entries)) [
      | inr (n, found) ↦ absurd (take_token_decides now n _ (rw (consume, found) at h))
      | inl missing ↦ elim (Bool-cases (leb s'.options.max_keys (length s'.entries))) [
        | inr room ↦ absurd (
            take_token_decides now (length s'.buckets) (create_bucket key now s')
              (rw (consume, missing, room) at h))
        | inl full ↦
            rw (consume, missing, full)
              (ap (λ es. record s { entries = es })
                (keep_whole
                  (λ (e : Text × ℕ). not (is_idle now s.options.idle_eviction_ms s.buckets e.1))
                  s.entries (ground (arith, w.size))))
      ]
    ]

-- The entry is in the table.
unfoldable pub listed : Text → ℕ → List (Text × ℕ) → Bool
listed key n [] = false
listed key n ((k, m) ∷ rest) = (text_eq k key && m == n) || listed key n rest

listed-keep :
    (key : Text) (n : ℕ) (p : Text × ℕ → Bool) (l : List (Text × ℕ))
    → listed key n l ≡ true
    → ((k : Text) → p (k, n) ≡ true)
    → listed key n (keep p l) ≡ true
unfolding listed
listed-keep key n p [] h q = h
listed-keep key n p ((k, m) ∷ l) h q = elim (Bool-cases (m == n)) [
  | inl same ↦
      let e : p (k, m) ≡ true = subst (λ x. p (k, x) ≡ true) (ground arith) (q k) in
      ground (arith, listed-keep key n p l)
  | inr other ↦ ground (arith, listed-keep key n p l)
]

listed-append :
    (key : Text) (n : ℕ) (l r : List (Text × ℕ))
    → listed key n (l ++ r) ≡ (listed key n l || listed key n r)
unfolding listed
listed-append key n [] r = refl
listed-append key n ((k, m) ∷ l) r = ground (arith, listed-append key n l r)

-- An entry that is moved to the end is still there, and so are all others.
listed-moved :
    (key key' : Text) (n m : ℕ) (l : List (Text × ℕ))
    → find_entry key' l ≡ some m
    → listed key n l ≡ true
    → listed key n (remove_entry key' l ++ (key', m) ∷ []) ≡ true
unfolding listed find_entry remove_entry
listed-moved key key' n m [] f h = absurd (cc)
listed-moved key key' n m ((k, x) ∷ l) f h = ground (
  arith,
  listed-moved key key' n m l,
  listed-append key n l ((key', m) ∷ []),
  text_eq_iff k key',
  text_eq_iff k key,
  text_eq_iff key' key,
)

take_token-entries : (now n : ℕ) (s : Limiter) → (take_token now n s).1.entries ≡ s.entries
unfolding take_token
take_token-entries now n s = ground arith

-- A request with any key never drops an entry that has a live holder or was used less than the
-- idle time ago: it stays in the table with its bucket.
pub busy_entry_stays :
    (now : ℕ) (key key' : Text) (n : ℕ) (s : Limiter)
    → listed key n s.entries ≡ true
    → is_idle now s.options.idle_eviction_ms s.buckets n ≡ false
    → listed key n (consume now key' s).1.entries ≡ true
unfolding consume evict_idle create_bucket listed
busy_entry_stays now key key' n s h busy =
    let s' = evict_idle now s in
    let kept : listed key n s'.entries ≡ true =
      listed-keep key n (λ e. not (is_idle now s.options.idle_eviction_ms s.buckets e.1)) s.entries
        h (λ k. rw busy) in
    elim (Option-cases (find_entry key' s'.entries)) [
      | inr (m, found) ↦
          rw (consume, found, take_token-entries now m _)
            (listed-moved key key' n m s'.entries found kept)
      | inl missing ↦ elim (Bool-cases (leb s'.options.max_keys (length s'.entries))) [
        | inl full ↦ rw (consume, missing, full) kept
        | inr room ↦
            rw
              (
                consume,
                missing,
                room,
                take_token-entries now (length s'.buckets) (create_bucket key' now s'),
              )
              (rw (listed-append key n s'.entries ((key', length s'.buckets) ∷ []), kept))
      ]
    ]
