-- ===== src/Admission/Invariant.antt =====
-- The invariant of `AdmissionLimiter` (apps/mcp-server/src/admission-limiter.ts), and that every
-- operation keeps it.
use cesspace_arc.Base.{
  ℕ, ◌+◌, ◌≤◌, ◌≡◌, refl, sym, subst, ap, ◌∙◌, inl, inr, false, none, some, Text, get_elem?, ltb,
  Bool-cases, Option-cases, arith,
}
use cesspace_arc.Limiter.Buckets.{
  RateBucket, Hold, ConsumeDecision, granted, table_saturated, rate_limit, consume, release, at_cap,
  new_limiter,
}
use cesspace_arc.Limiter.Invariant.{live_on, IsSound, new_limiter-IsSound}
use cesspace_arc.Limiter.Steps.{consume-IsSound}
use cesspace_arc.Limiter.Holds.{
  held-IsSound, release-IsSound, live_on-append, live_on-update, live_on_one,
}
use cesspace_arc.Limiter.Rates.{consume-options, release-options}
use cesspace_arc.Admission.Slots.{
  AdmissionOptions, AdmissionLimiter, new_admission, holders_of, take_slot, admit_on, admit_decided,
  admit, release_connection, release_handshake,
}
use cesspace_arc.Admission.Grants.{
  IsThere, consume-holds, consume-IsThere, live_holds, live_holds-append, live_holds-update,
  release-holds,
}

pub record IsAdmissionSound (s : AdmissionLimiter) : Type 0 where
  pub table : IsSound s.peers
  pub uncapped : s.peers.options.max_outstanding_per_key ≡ none
  pub live : s.live_added ≡ s.live_removed + live_holds s.peers.holds
  pub global : live_holds s.peers.holds ≤ s.max_live_global
  pub per_peer : (n : ℕ) → live_on n s.peers.holds ≤ s.max_live_per_peer
  pub handshakes : s.in_flight_handshakes ≤ s.max_in_flight_handshakes

pub new_admission-IsAdmissionSound :
    (keys : ℕ) (o : AdmissionOptions) → IsAdmissionSound (new_admission keys o)
unfolding new_admission new_limiter live_holds live_on
new_admission-IsAdmissionSound keys o = record {
  table = new_limiter-IsSound _;
  uncapped = refl;
  live = refl;
  global = omega arith;
  per_peer = λ n. omega arith;
  handshakes = omega arith;
}

-- The table after a decision of its own, with the same closures.
consumed-IsAdmissionSound :
    (now : ℕ) (key : Text) (s : AdmissionLimiter)
    → IsAdmissionSound s
    → IsAdmissionSound (record s { peers = (consume now key s.peers).1 })
consumed-IsAdmissionSound now key s w =
    let e = consume-holds now key s.peers in
    record {
      table = consume-IsSound now key s.peers w.table;
      uncapped = ap (λ o. o.max_outstanding_per_key) (consume-options now key s.peers) ∙ w.uncapped;
      live = rw e w.live;
      global = rw e w.global;
      per_peer = λ n. rw e (w.per_peer n);
      handshakes = w.handshakes;
    }

taken-IsAdmissionSound :
    (n : ℕ) (b : RateBucket) (s : AdmissionLimiter)
    → get_elem? s.peers.buckets n ≡ some b
    → s.live_added + 1 ≤ s.max_live_global + s.live_removed
    → s.in_flight_handshakes + 1 ≤ s.max_in_flight_handshakes
    → holders_of n s.peers.buckets + 1 ≤ s.max_live_per_peer
    → IsAdmissionSound s
    → IsAdmissionSound (take_slot n s)
unfolding take_slot holders_of
taken-IsAdmissionSound n b s found room slots place w =
    let l = live_holds-append s.peers.holds n in
    let free : at_cap s.peers.options.max_outstanding_per_key b.holders ≡ false = rw w.uncapped in
    let own = (w.table.buckets n b found).holders in
    record {
      table = held-IsSound n b s.peers found free w.table;
      uncapped = w.uncapped;
      live = omega (arith, l, w.live);
      global = omega (arith, l, w.live, room);
      per_peer = λ k. ground (
        arith,
        live_on-append k s.peers.holds (record { bucket = n; released = false }),
        live_on_one k n,
        w.per_peer k,
        own,
        place,
      );
      handshakes = slots;
    }

admit_on-IsAdmissionSound :
    (n : ℕ) (b : RateBucket) (s : AdmissionLimiter)
    → get_elem? s.peers.buckets n ≡ some b
    → IsAdmissionSound s
    → IsAdmissionSound (admit_on n s).1
unfolding admit_on
admit_on-IsAdmissionSound n b s found w = ground (arith, taken-IsAdmissionSound n b s found)

decided-IsAdmissionSound :
    (d : ConsumeDecision) (s : AdmissionLimiter)
    → IsThere d s.peers
    → IsAdmissionSound s
    → IsAdmissionSound (admit_decided d s).1
unfolding admit_decided
decided-IsAdmissionSound (granted n) s (b, found) w = admit_on-IsAdmissionSound n b s found w
decided-IsAdmissionSound table_saturated s there w = w
decided-IsAdmissionSound rate_limit s there w = w

admit-IsAdmissionSound :
    (now : ℕ) (key : Text) (s : AdmissionLimiter)
    → IsAdmissionSound s
    → IsAdmissionSound (admit now key s).1
unfolding admit
admit-IsAdmissionSound now key s w =
    decided-IsAdmissionSound (consume now key s.peers).0
      (record s { peers = (consume now key s.peers).1 }) (consume-IsThere now key s.peers)
      (consumed-IsAdmissionSound now key s w)

closed-IsAdmissionSound :
    (h : ℕ) (hold : Hold) (s : AdmissionLimiter)
    → get_elem? s.peers.holds h ≡ some hold
    → hold.released ≡ false
    → IsAdmissionSound s
    → IsAdmissionSound (record s { peers = release h s.peers; live_removed = s.live_removed + 1 })
closed-IsAdmissionSound h hold s found live w =
    let e = release-holds h s.peers hold found live in
    let l = live_holds-update h s.peers.holds hold found live in
    record {
      table = release-IsSound h s.peers w.table;
      uncapped = ap (λ o. o.max_outstanding_per_key) (release-options h s.peers) ∙ w.uncapped;
      live = rw e (omega (arith, l, w.live));
      global = rw e (omega (arith, l, w.global));
      per_peer = λ n.
          rw e (ground (arith, live_on-update n h s.peers.holds hold found live, w.per_peer n));
      handshakes = w.handshakes;
    }

release_connection-IsAdmissionSound :
    (h : ℕ) (s : AdmissionLimiter) → IsAdmissionSound s → IsAdmissionSound (release_connection h s)
unfolding release_connection
release_connection-IsAdmissionSound h s w = elim (Option-cases (get_elem? s.peers.holds h)) [
  | inl missing ↦ rw (release_connection, missing) w
  | inr (hold, found) ↦ elim (Bool-cases hold.released) [
    | inl before ↦ rw (release_connection, found, before) w
    | inr live ↦
        rw (release_connection, found, live) (closed-IsAdmissionSound h hold s found live w)
  ]
]

release_handshake-IsAdmissionSound :
    (s : AdmissionLimiter) → IsAdmissionSound s → IsAdmissionSound (release_handshake s)
unfolding release_handshake
release_handshake-IsAdmissionSound s w = elim (Bool-cases (ltb 0 s.in_flight_handshakes)) [
  | inl some_left ↦
      rw (release_handshake, some_left)
        (record {
          table = w.table;
          uncapped = w.uncapped;
          live = w.live;
          global = w.global;
          per_peer = w.per_peer;
          handshakes = omega (arith, w.handshakes);
        })
  | inr empty ↦ rw (release_handshake, empty) w
]

-- A connection that is decided on, the end of one, or the end of a handshake.
pub data AdmissionStep (s s' : AdmissionLimiter) : Type 0 where
  arrives : (now : ℕ) (key : Text) → s' ≡ (admit now key s).1 → AdmissionStep s s'
  ends : (h : ℕ) → s' ≡ release_connection h s → AdmissionStep s s'
  settles : s' ≡ release_handshake s → AdmissionStep s s'

pub data AdmissionSteps (s : AdmissionLimiter) : AdmissionLimiter → Type 0 where
  nothing : AdmissionSteps s s
  next : {t u : AdmissionLimiter} → AdmissionSteps s t → AdmissionStep t u → AdmissionSteps s u

pub Steps-IsAdmissionSound :
    {s t : AdmissionLimiter} → AdmissionSteps s t → IsAdmissionSound s → IsAdmissionSound t
Steps-IsAdmissionSound nothing w = w
Steps-IsAdmissionSound (next {t} r (arrives now key e)) w =
    subst IsAdmissionSound (sym e) (admit-IsAdmissionSound now key t (Steps-IsAdmissionSound r w))
Steps-IsAdmissionSound (next {t} r (ends h e)) w =
    subst IsAdmissionSound (sym e)
      (release_connection-IsAdmissionSound h t (Steps-IsAdmissionSound r w))
Steps-IsAdmissionSound (next {t} r (settles e)) w =
    subst IsAdmissionSound (sym e)
      (release_handshake-IsAdmissionSound t (Steps-IsAdmissionSound r w))
