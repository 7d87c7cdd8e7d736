-- ===== src/Limiter/Steps.antt =====
-- The operations of `BoundedRequestLimiter` (apps/mcp-server/src/remote-resource-limits.ts) as
-- steps, and that they keep the invariant.
use cesspace_arc.Base.{
  ℕ, suc, ◌<◌, ◌≡◌, sym, subst, inl, inr, Option, none, some, List, [], ◌∷◌, ◌++◌, Text, length,
  length-append, get_elem?, leb, Bool-cases, Option-cases, arith,
}
use cesspace_arc.Limiter.Store.{added-read, read_beyond, added_none}
use cesspace_arc.Limiter.Buckets.{
  RateBucket, Limiter, find_entry, remove_entry, evict_idle, new_bucket, create_bucket, consume,
  try_hold, release, reset,
}
use cesspace_arc.Limiter.Invariant.{WithinCap, IsSound, evict_idle-IsSound, take_token-IsSound}
use cesspace_arc.Limiter.Holds.{try_hold-IsSound, release-IsSound}

zero_within : (cap : Option ℕ) → WithinCap cap 0
zero_within none = tt
zero_within (some most) = omega arith

create_bucket-IsSound :
    (key : Text) (now : ℕ) (s : Limiter)
    → length s.entries < s.options.max_keys
    → IsSound s
    → IsSound (create_bucket key now s)
unfolding create_bucket
create_bucket-IsSound key now s room w = record {
  size = omega (arith, length-append s.entries ((key, length s.buckets) ∷ []));
  buckets = λ n b h. elim (added-read s.buckets (new_bucket now s.options) n b h) [
    | inl (old, _) ↦
        let x = w.buckets n b old in
        record { tokens = x.tokens; holders = x.holders; capped = x.capped }
    | inr (at, is_new) ↦ record {
      tokens = ground arith;
      holders = ground (
        arith,
        w.fresh n (subst (λ k. get_elem? s.buckets k ≡ none) (sym at) (read_beyond s.buckets)),
      );
      capped =
          subst (λ (y : RateBucket). WithinCap s.options.max_outstanding_per_key y.holders)
            (sym is_new) (zero_within s.options.max_outstanding_per_key);
    }
  ];
  fresh = λ n h. w.fresh n (added_none s.buckets (new_bucket now s.options) n h);
}

length-remove_entry :
    (key : Text) (l : List (Text × ℕ)) (n : ℕ)
    → find_entry key l ≡ some n
    → length l ≡ suc (length (remove_entry key l))
unfolding find_entry remove_entry
length-remove_entry key [] n h = absurd (cc)
length-remove_entry key ((k, b) ∷ l) n h = ground (arith, length-remove_entry key l n)

moved-IsSound :
    (key : Text) (n : ℕ) (s : Limiter)
    → find_entry key s.entries ≡ some n
    → IsSound s
    → IsSound (record s { entries = remove_entry key s.entries ++ (key, n) ∷ [] })
moved-IsSound key n s found w = record {
  size = omega (
    arith,
    length-append (remove_entry key s.entries) ((key, n) ∷ []),
    length-remove_entry key s.entries n found,
    w.size,
  );
  buckets = λ k b h.
      let x = w.buckets k b h in
      record { tokens = x.tokens; holders = x.holders; capped = x.capped };
  fresh = w.fresh;
}

pub consume-IsSound :
    (now : ℕ) (key : Text) (s : Limiter) → IsSound s → IsSound (consume now key s).1
unfolding consume
consume-IsSound now key s w =
    let s' = evict_idle now s in
    let w' = evict_idle-IsSound now s w in
    elim (Option-cases (find_entry key s'.entries)) [
      | inr (n, found) ↦
          rw (consume, found) (take_token-IsSound now n _ (moved-IsSound key n s' found w'))
      | inl missing ↦ elim (Bool-cases (leb s'.options.max_keys (length s'.entries))) [
        | inl full ↦ rw (consume, missing, full) w'
        | inr room ↦
            rw (consume, missing, room)
              (take_token-IsSound now (length s'.buckets) (create_bucket key now s')
                (create_bucket-IsSound key now s' (ground arith) w'))
      ]
    ]

reset-IsSound : (s : Limiter) → IsSound s → IsSound (reset s)
unfolding reset
reset-IsSound s w = record {
  size = omega arith;
  buckets = λ k b h.
      let x = w.buckets k b h in
      record { tokens = x.tokens; holders = x.holders; capped = x.capped };
  fresh = w.fresh;
}

-- One call of the limiter, or of a closure that it has returned.
pub data Step (s s' : Limiter) : Type 0 where
  consumes : (now : ℕ) (key : Text) → s' ≡ (consume now key s).1 → Step s s'
  holds_one : (n : ℕ) → s' ≡ (try_hold n s).1 → Step s s'
  releases : (i : ℕ) → s' ≡ release i s → Step s s'
  resets : s' ≡ reset s → Step s s'

pub data Steps (s : Limiter) : Limiter → Type 0 where
  no_step : Steps s s
  and_then : {t u : Limiter} → Steps s t → Step t u → Steps s u

pub Steps-IsSound : {s t : Limiter} → Steps s t → IsSound s → IsSound t
Steps-IsSound no_step w = w
Steps-IsSound (and_then {t} r (consumes now key e)) w =
    subst IsSound (sym e) (consume-IsSound now key t (Steps-IsSound r w))
Steps-IsSound (and_then {t} r (holds_one n e)) w =
    subst IsSound (sym e) (try_hold-IsSound n t (Steps-IsSound r w))
Steps-IsSound (and_then {t} r (releases i e)) w =
    subst IsSound (sym e) (release-IsSound i t (Steps-IsSound r w))
Steps-IsSound (and_then {t} r (resets e)) w =
    subst IsSound (sym e) (reset-IsSound t (Steps-IsSound r w))
