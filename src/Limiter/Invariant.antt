-- ===== src/Limiter/Invariant.antt =====
-- The invariant of `BoundedRequestLimiter` (apps/mcp-server/src/remote-resource-limits.ts), and that
-- every operation keeps it.
use cesspace_arc.Base.{
  ℕ, suc, ◌-◌, ◌*◌, ◌≤◌, ◌≡◌, refl, subst, inl, inr, Bool, not, ◌&&◌, Option, none, some, List, [],
  ◌∷◌, Text, length, get_elem?, keep, ◌==◌, if◌then◌else◌, Bool-cases, arith,
}
use cesspace_arc.Limiter.Store.{update, update-read, get_elem?-update-none}
use cesspace_arc.Limiter.Buckets.{
  RateBucket, Hold, LimiterOptions, Limiter, token_unit, new_limiter, is_idle, evict_idle, touched,
  take_token,
}

-- The closures on a bucket that have not been called.
unfoldable pub live_on : ℕ → List Hold → ℕ
live_on n [] = 0
live_on n (h ∷ hs) = if h.bucket == n && not h.released then suc (live_on n hs) else live_on n hs

abbrev pub WithinCap : Option ℕ → ℕ → Type 0
WithinCap none holders = Unit
WithinCap (some most) holders = holders ≤ most

pub record IsBucketSound (s : Limiter) (n : ℕ) (b : RateBucket) : Type 0 where
  pub tokens : b.tokens ≤ s.options.burst * token_unit
  pub holders : b.holders ≡ live_on n s.holds
  pub capped : WithinCap s.options.max_outstanding_per_key b.holders

pub record IsSound (s : Limiter) : Type 0 where
  pub size : length s.entries ≤ s.options.max_keys
  pub buckets : (n : ℕ) (b : RateBucket) → get_elem? s.buckets n ≡ some b → IsBucketSound s n b
  pub fresh : (n : ℕ) → get_elem? s.buckets n ≡ none → live_on n s.holds ≡ 0

pub new_limiter-IsSound : (options : LimiterOptions) → IsSound (new_limiter options)
unfolding new_limiter live_on
new_limiter-IsSound options = record {
  size = omega arith;
  buckets = λ n b h. absurd (cc);
  fresh = λ n h. refl;
}

pub length-keep : {A : Type 0} (p : A → Bool) (l : List A) → length (keep p l) ≤ length l
length-keep p [] = omega arith
length-keep p (x ∷ l) = ground (arith, length-keep p l)

pub evict_idle-IsSound : (now : ℕ) (s : Limiter) → IsSound s → IsSound (evict_idle now s)
unfolding evict_idle
evict_idle-IsSound now s w = record {
  size = omega (
    arith,
    length-keep (λ (e : Text × ℕ). not (is_idle now s.options.idle_eviction_ms s.buckets e.1))
        s.entries,
    w.size,
  );
  buckets = λ n b h.
      let x = w.buckets n b h in
      record { tokens = x.tokens; holders = x.holders; capped = x.capped };
  fresh = w.fresh;
}

-- A write to one bucket that keeps its holders and its bound on tokens.
write-IsSound :
    (n : ℕ) (f : RateBucket → RateBucket) (s : Limiter)
    → ((b : RateBucket)
        → b.tokens ≤ s.options.burst * token_unit
        → ((f b).tokens ≤ s.options.burst * token_unit) × ((f b).holders ≡ b.holders))
    → IsSound s
    → IsSound (record s { buckets = update n f s.buckets })
write-IsSound n f s keeps w = record {
  size = w.size;
  buckets = λ k y h.
      let (b, found, (here, there)) = update-read n f s.buckets k y h in
      let x = w.buckets k b found in
      let (t, o) = keeps b x.tokens in
      elim (Bool-cases (n == k)) [
        | inl at ↦
            let e : y ≡ f b = here (ground arith) in
            record {
              tokens = ground arith;
              holders = ground (arith, x.holders);
              capped =
                  subst (WithinCap s.options.max_outstanding_per_key) (ground (arith, x.holders))
                    x.capped;
            }
        | inr off ↦
            let e : y ≡ b = there (ground arith) in
            record {
              tokens = ground (arith, x.tokens);
              holders = ground (arith, x.holders);
              capped =
                  subst (WithinCap s.options.max_outstanding_per_key) (ground (arith, x.holders))
                    x.capped;
            }
      ];
  fresh = λ k h. w.fresh k (get_elem?-update-none n f s.buckets k h);
}

pub take_token-IsSound : (now n : ℕ) (s : Limiter) → IsSound s → IsSound (take_token now n s).1
unfolding take_token
take_token-IsSound now n s w =
    let t = write-IsSound n (touched now s.options) s (λ b h. unfold touched in ground arith) w in
    ground (
      arith,
      write-IsSound n (λ b. record b { tokens = b.tokens - token_unit }) _ (λ b h. ground arith) t,
    )
