-- ===== src/Admission/Grants.antt =====
-- What a call of `consume` (apps/mcp-server/src/remote-resource-limits.ts) gives to an admission.
use cesspace_arc.Base.{
  ℕ, zero, suc, ◌+◌, ◌-◌, ◌≡◌, refl, inl, inr, true, false, Option, none, some, List, [], ◌∷◌, ◌++◌,
  Text, length, get_elem?, leb, if◌then◌else◌, Bool-cases, Option-cases, arith,
}
use cesspace_arc.Limiter.Store.{update, get_elem?-update}
use cesspace_arc.Limiter.Buckets.{
  RateBucket, Hold, Limiter, token_unit, find_entry, evict_idle, create_bucket, touched,
  ConsumeDecision, granted, enough, take_token, consume, release,
}

take_token-holds : (now n : ℕ) (s : Limiter) → (take_token now n s).1.holds ≡ s.holds
unfolding take_token
take_token-holds now n s = ground arith

-- The bucket that is granted is there.
abbrev pub IsThere : ConsumeDecision → Limiter → Type 0
IsThere (granted n) s = (b : RateBucket) × (get_elem? s.buckets n ≡ some b)
IsThere _ s = Unit

enough-some : (o : Option RateBucket) → enough o ≡ true → (b : RateBucket) × (o ≡ some b)
enough-some none h = absurd (cc)
enough-some (some b) h = (b, refl)

take_token-IsThere :
    (now n : ℕ) (s : Limiter) → IsThere (take_token now n s).0 (take_token now n s).1
unfolding take_token
take_token-IsThere now n s =
    let l = update n (touched now s.options) s.buckets in
    elim (Bool-cases (enough (get_elem? l n))) [
      | inr poor ↦ rw (take_token, poor) tt
      | inl rich ↦
          let (b, found) = enough-some (get_elem? l n) rich in
          rw (take_token, rich)
            (
              _,
              get_elem?-update n (λ (x : RateBucket). record x { tokens = x.tokens - token_unit }) l
                  n b found,
            )
    ]

pub consume-holds : (now : ℕ) (key : Text) (s : Limiter) → (consume now key s).1.holds ≡ s.holds
unfolding consume evict_idle create_bucket
consume-holds now key s =
    let s' = evict_idle now s in
    elim (Option-cases (find_entry key s'.entries)) [
      | inr (m, found) ↦ rw (consume, found) (take_token-holds now m _)
      | inl missing ↦ elim (Bool-cases (leb s'.options.max_keys (length s'.entries))) [
        | inl full ↦ rw (consume, missing, full)
        | inr room ↦
            rw (consume, missing, room)
              (take_token-holds now (length s'.buckets) (create_bucket key now s'))
      ]
    ]

pub consume-IsThere :
    (now : ℕ) (key : Text) (s : Limiter) → IsThere (consume now key s).0 (consume now key s).1
unfolding consume evict_idle create_bucket
consume-IsThere now key s =
    let s' = evict_idle now s in
    elim (Option-cases (find_entry key s'.entries)) [
      | inr (m, found) ↦ rw (consume, found) (take_token-IsThere now m _)
      | inl missing ↦ elim (Bool-cases (leb s'.options.max_keys (length s'.entries))) [
        | inl full ↦ rw (consume, missing, full) tt
        | inr room ↦
            rw (consume, missing, room)
              (take_token-IsThere now (length s'.buckets) (create_bucket key now s'))
      ]
    ]

-- The closures that have not been called.
unfoldable pub live_holds : List Hold → ℕ
live_holds [] = 0
live_holds (h ∷ hs) = if h.released then live_holds hs else suc (live_holds hs)

pub live_holds-append :
    (hs : List Hold) (n : ℕ)
    → live_holds (hs ++ record { bucket = n; released = false } ∷ []) ≡ live_holds hs + 1
unfolding live_holds
live_holds-append [] n = refl
live_holds-append (h ∷ hs) n = ground (arith, live_holds-append hs n)

pub live_holds-update :
    (i : ℕ) (hs : List Hold) (h : Hold)
    → get_elem? hs i ≡ some h
    → h.released ≡ false
    → live_holds hs ≡ live_holds (update i (λ x. record x { released = true }) hs) + 1
unfolding live_holds
live_holds-update i [] h e r = absurd (cc)
live_holds-update zero (x ∷ hs) h e r = ground arith
live_holds-update (suc i) (x ∷ hs) h e r = ground (arith, live_holds-update i hs h e r)

pub release-holds :
    (i : ℕ) (s : Limiter) (hold : Hold)
    → get_elem? s.holds i ≡ some hold
    → hold.released ≡ false
    → (release i s).holds ≡ update i (λ x. record x { released = true }) s.holds
unfolding release
release-holds i s hold found live = rw (release, found, live)
