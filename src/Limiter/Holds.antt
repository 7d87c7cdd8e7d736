-- ===== src/Limiter/Holds.antt =====
-- `tryHold` and the closures that it returns (apps/mcp-server/src/remote-resource-limits.ts) keep the
-- invariant of the table.
use cesspace_arc.Base.{
  ℕ, zero, suc, ◌+◌, ◌-◌, ◌≡◌, subst, inl, inr, true, false, Option, none, some, List, [], ◌∷◌,
  ◌++◌, get_elem?, ◌==◌, if◌then◌else◌, Bool-cases, Option-cases, arith,
}
use cesspace_arc.Limiter.Store.{update, update-read, get_elem?-update-none}
use cesspace_arc.Limiter.Buckets.{RateBucket, Hold, Limiter, at_cap, try_hold, release}
use cesspace_arc.Limiter.Invariant.{live_on, WithinCap, IsSound}

pub live_on-append :
    (n : ℕ) (hs : List Hold) (h : Hold)
    → live_on n (hs ++ h ∷ []) ≡ live_on n hs + live_on n (h ∷ [])
unfolding live_on
live_on-append n [] h = ground arith
live_on-append n (x ∷ hs) h = ground (arith, live_on-append n hs h)

-- A closure that is called for the first time.
pub live_on-update :
    (n i : ℕ) (hs : List Hold) (h : Hold)
    → get_elem? hs i ≡ some h
    → h.released ≡ false
    → live_on n hs
      ≡ live_on n (update i (λ x. record x { released = true }) hs)
        + (if h.bucket == n then 1 else 0)
unfolding live_on
live_on-update n i [] h e r = absurd (cc)
live_on-update n zero (x ∷ hs) h e r = ground arith
live_on-update n (suc i) (x ∷ hs) h e r = ground (arith, live_on-update n i hs h e r)

pub live_on_one :
    (k n : ℕ) → live_on k (record { bucket = n; released = false } ∷ []) ≡ (if n == k then 1 else 0)
unfolding live_on
live_on_one k n = ground arith

cap_room : (cap : Option ℕ) (holders : ℕ) → at_cap cap holders ≡ false → WithinCap cap (holders + 1)
cap_room none holders h = tt
cap_room (some most) holders h = ground arith

cap_less : (cap : Option ℕ) (holders : ℕ) → WithinCap cap holders → WithinCap cap (holders - 1)
cap_less none holders h = tt
cap_less (some most) holders h = omega (arith, h)

pub held-IsSound :
    (n : ℕ) (b : RateBucket) (s : Limiter)
    → get_elem? s.buckets n ≡ some b
    → at_cap s.options.max_outstanding_per_key b.holders ≡ false
    → IsSound s
    → IsSound (record s {
      buckets = update n (λ b. record b { holders = b.holders + 1 }) s.buckets;
      holds = s.holds ++ record { bucket = n; released = false } ∷ [];
    })
held-IsSound n b s at room w = record {
  size = w.size;
  buckets = λ k y h.
      let (x, found, (here, there)) =
        update-read n (λ b. record b { holders = b.holders + 1 }) s.buckets k y h in
      let o = w.buckets k x found in
      let l = live_on-append k s.holds (record { bucket = n; released = false }) in
      elim (Bool-cases (n == k)) [
        | inl same ↦
            let e : y ≡ record x { holders = x.holders + 1 } = here (ground arith) in
            let read : x ≡ b = ground arith in
            record {
              tokens = ground (arith, o.tokens);
              holders = ground (arith, o.holders, l, live_on_one k n);
              capped =
                  subst (WithinCap s.options.max_outstanding_per_key) (ground arith)
                    (cap_room s.options.max_outstanding_per_key b.holders room);
            }
        | inr other ↦
            let e : y ≡ x = there (ground arith) in
            record {
              tokens = ground (arith, o.tokens);
              holders = ground (arith, o.holders, l, live_on_one k n);
              capped = subst (WithinCap s.options.max_outstanding_per_key) (ground arith) o.capped;
            }
      ];
  fresh = λ k h.
      let gone =
        get_elem?-update-none n (λ (b : RateBucket). record b { holders = b.holders + 1 }) s.buckets
          k h in
      ground (
        arith,
        w.fresh k gone,
        live_on-append k s.holds (record { bucket = n; released = false }),
        live_on_one k n,
      );
}

pub try_hold-IsSound : (n : ℕ) (s : Limiter) → IsSound s → IsSound (try_hold n s).1
unfolding try_hold
try_hold-IsSound n s w = elim (Option-cases (get_elem? s.buckets n)) [
  | inl missing ↦ rw (try_hold, missing) w
  | inr (b, found) ↦ elim (Bool-cases (at_cap s.options.max_outstanding_per_key b.holders)) [
    | inl full ↦ rw (try_hold, found, full) w
    | inr room ↦ rw (try_hold, found, room) (held-IsSound n b s found room w)
  ]
]

released-IsSound :
    (i : ℕ) (hold : Hold) (s : Limiter)
    → get_elem? s.holds i ≡ some hold
    → hold.released ≡ false
    → IsSound s
    → IsSound (record s {
      buckets = update hold.bucket (λ b. record b { holders = b.holders - 1 }) s.buckets;
      holds = update i (λ x. record x { released = true }) s.holds;
    })
released-IsSound i hold s at live w = record {
  size = w.size;
  buckets = λ k y h.
      let (x, found, (here, there)) =
        update-read hold.bucket (λ b. record b { holders = b.holders - 1 }) s.buckets k y h in
      let o = w.buckets k x found in
      let l = live_on-update k i s.holds hold at live in
      elim (Bool-cases (hold.bucket == k)) [
        | inl same ↦
            let e : y ≡ record x { holders = x.holders - 1 } = here (ground arith) in
            record {
              tokens = ground (arith, o.tokens);
              holders = ground (arith, o.holders, l);
              capped =
                  subst (WithinCap s.options.max_outstanding_per_key) (ground arith)
                    (cap_less s.options.max_outstanding_per_key x.holders o.capped);
            }
        | inr other ↦
            let e : y ≡ x = there (ground arith) in
            record {
              tokens = ground (arith, o.tokens);
              holders = ground (arith, o.holders, l);
              capped = subst (WithinCap s.options.max_outstanding_per_key) (ground arith) o.capped;
            }
      ];
  fresh = λ k h.
      let gone =
        get_elem?-update-none hold.bucket (λ (b : RateBucket). record b { holders = b.holders - 1 })
          s.buckets k h in
      ground (arith, w.fresh k gone, live_on-update k i s.holds hold at live);
}

pub release-IsSound : (i : ℕ) (s : Limiter) → IsSound s → IsSound (release i s)
unfolding release
release-IsSound i s w = elim (Option-cases (get_elem? s.holds i)) [
  | inl missing ↦ rw (release, missing) w
  | inr (hold, found) ↦ elim (Bool-cases hold.released) [
    | inl before ↦ rw (release, found, before) w
    | inr live ↦ rw (release, found, live) (released-IsSound i hold s found live w)
  ]
]
