-- ===== src/Session/Invariant.antt =====
-- The invariant of `SessionManager` (packages/auth/src/session.ts) and the changes of its two maps
-- that keep it.
use cesspace_arc.Base.{
  ℕ, suc, ◌+◌, ◌≤◌, ◌≡◌, refl, sym, subst, ap, ◌∙◌, Bool, false, none, some, Text, text_eq,
  text_eq_iff, length, if◌then◌else◌, Dict, lookup, insert, lookup-insert, IsDistinct,
  insert-IsDistinct, length-insert, Within, total, measure_of, total-insert, Bool-cases, inl, inr,
  arith,
}
use cesspace_arc.Session.Data.{SessionRecord, SessionManager}
use cesspace_arc.Session.Manager.{empty_manager, count_sessions, of_device, of_client}

pub record IsSessionSound (s : SessionManager) : Type 0 where
  pub distinct : IsDistinct s.sessions
  pub distinct_reserved : IsDistinct s.reserved
  pub keyed : (k : Text) (r : SessionRecord) → lookup k s.sessions ≡ some r → r.session_id ≡ k
  pub unrevoked : (k : Text) (r : SessionRecord) → lookup k s.sessions ≡ some r → r.revoked ≡ false
  pub apart :
      (k : Text) (r : SessionRecord) → lookup k s.sessions ≡ some r → lookup k s.reserved ≡ none
  pub size : length s.sessions + length s.reserved ≤ 1024
  pub devices : (d : Text) → count_sessions (of_device d) s ≤ 8
  pub clients : (c : Text) → count_sessions (of_client c) s ≤ 64

pub empty-IsSessionSound : IsSessionSound empty_manager
unfolding count_sessions total lookup
empty-IsSessionSound = record {
  distinct = tt;
  distinct_reserved = tt;
  keyed = λ k r h. absurd (cc);
  unrevoked = λ k r h. absurd (cc);
  apart = λ k r h. refl;
  size = omega arith;
  devices = λ d. omega arith;
  clients = λ c. omega arith;
}

module _ (s : SessionManager) where
  -- Some entries of either map are left out.
  pub fewer-IsSessionSound :
      (sessions : Dict SessionRecord) (reserved : Dict ℕ)
      → Within sessions s.sessions
      → Within reserved s.reserved
      → IsSessionSound s
      → IsSessionSound (record { sessions = sessions; reserved = reserved })
  unfolding count_sessions
  fewer-IsSessionSound sessions reserved a b w = record {
    distinct = a.distinct w.distinct;
    distinct_reserved = b.distinct w.distinct_reserved;
    keyed = λ k r h. w.keyed k r (a.found k r w.distinct h);
    unrevoked = λ k r h. w.unrevoked k r (a.found k r w.distinct h);
    apart = λ k r h. b.absent k (w.apart k r (a.found k r w.distinct h));
    size = omega (arith, w.size, a.size, b.size);
    devices = λ d. omega (arith, w.devices d, a.totals (λ r. if of_device d r then 1 else 0));
    clients = λ c. omega (arith, w.clients c, a.totals (λ r. if of_client c r then 1 else 0));
  }

  -- A fresh identifier is reserved.
  pub reserve-IsSessionSound :
      (id : Text) (at : ℕ)
      → lookup id s.sessions ≡ none
      → lookup id s.reserved ≡ none
      → suc (length s.sessions + length s.reserved) ≤ 1024
      → IsSessionSound s
      → IsSessionSound (record s { reserved = insert id at s.reserved })
  unfolding count_sessions
  reserve-IsSessionSound id at free unreserved room w = record {
    distinct = w.distinct;
    distinct_reserved = insert-IsDistinct id at s.reserved w.distinct_reserved;
    keyed = w.keyed;
    unrevoked = w.unrevoked;
    apart = λ k r h. elim (Bool-cases (text_eq id k)) [
      | inl same ↦
          let there =
            subst (λ j. lookup j s.sessions ≡ some r) (sym ((text_eq_iff id k).0 same)) h in
          absurd (cc)
      | inr other ↦ ground (arith, lookup-insert id k at s.reserved, w.apart k r h)
    ];
    size = ground (arith, length-insert id at s.reserved, unreserved);
    devices = w.devices;
    clients = w.clients;
  }

  -- The counts after a write of one session.
  count-insert :
      (p : SessionRecord → Bool) (id : Text) (r : SessionRecord)
      → count_sessions p (record s { sessions = insert id r s.sessions })
          + measure_of (λ r. if p r then 1 else 0) (lookup id s.sessions)
        ≡ count_sessions p s + (if p r then 1 else 0)
  unfolding count_sessions
  count-insert p id r = total-insert (λ r. if p r then 1 else 0) id r s.sessions

  -- A session that is no longer reserved is written, within the quotas.
  write-IsSessionSound :
      (id : Text) (r : SessionRecord)
      → r.session_id ≡ id
      → r.revoked ≡ false
      → lookup id s.reserved ≡ none
      → length (insert id r s.sessions) + length s.reserved ≤ 1024
      → ((d : Text)
          → count_sessions (of_device d) (record s { sessions = insert id r s.sessions }) ≤ 8)
      → ((c : Text)
          → count_sessions (of_client c) (record s { sessions = insert id r s.sessions }) ≤ 64)
      → IsSessionSound s
      → IsSessionSound (record s { sessions = insert id r s.sessions })
  write-IsSessionSound id r own live unreserved room devices clients w = record {
    distinct = insert-IsDistinct id r s.sessions w.distinct;
    distinct_reserved = w.distinct_reserved;
    keyed = λ k x h. elim (Bool-cases (text_eq id k)) [
      | inl same ↦
          let e : r ≡ x = ground (arith, lookup-insert id k r s.sessions) in
          let here = (text_eq_iff id k).0 same in
          ap (λ (y : SessionRecord). y.session_id) (sym e) ∙ own ∙ here
      | inr other ↦ w.keyed k x (ground (arith, lookup-insert id k r s.sessions))
    ];
    unrevoked = λ k x h. elim (Bool-cases (text_eq id k)) [
      | inl same ↦
          let e : r ≡ x = ground (arith, lookup-insert id k r s.sessions) in
          ap (λ (y : SessionRecord). y.revoked) (sym e) ∙ live
      | inr other ↦ w.unrevoked k x (ground (arith, lookup-insert id k r s.sessions))
    ];
    apart = λ k x h. elim (Bool-cases (text_eq id k)) [
      | inl same ↦ subst (λ j. lookup j s.reserved ≡ none) ((text_eq_iff id k).0 same) unreserved
      | inr other ↦ w.apart k x (ground (arith, lookup-insert id k r s.sessions))
    ];
    size = room;
    devices = devices;
    clients = clients;
  }

  -- A new session.
  pub new-IsSessionSound :
      (id : Text) (r : SessionRecord)
      → r.session_id ≡ id
      → r.revoked ≡ false
      → lookup id s.sessions ≡ none
      → lookup id s.reserved ≡ none
      → suc (length s.sessions + length s.reserved) ≤ 1024
      → suc (count_sessions (of_device r.device_id) s) ≤ 8
      → suc (count_sessions (of_client r.client_id) s) ≤ 64
      → IsSessionSound s
      → IsSessionSound (record s { sessions = insert id r s.sessions })
  new-IsSessionSound id r own live free unreserved room device client w =
      write-IsSessionSound id r own live unreserved
        (ground (arith, length-insert id r s.sessions, free))
        (λ d. ground (
          arith,
          count-insert (of_device d) id r,
          free,
          w.devices d,
          text_eq_iff r.device_id d,
          device,
        ))
        (λ c. ground (
          arith,
          count-insert (of_client c) id r,
          free,
          w.clients c,
          text_eq_iff r.client_id c,
          client,
        ))
        w

  -- A session that is there, with other times.
  pub refresh-IsSessionSound :
      (id : Text) (old r : SessionRecord)
      → lookup id s.sessions ≡ some old
      → r.session_id ≡ old.session_id
      → r.device_id ≡ old.device_id
      → r.client_id ≡ old.client_id
      → r.revoked ≡ old.revoked
      → IsSessionSound s
      → IsSessionSound (record s { sessions = insert id r s.sessions })
  refresh-IsSessionSound id old r found own device client mark w =
      write-IsSessionSound id r (own ∙ w.keyed id old found) (mark ∙ w.unrevoked id old found)
        (w.apart id old found) (ground (arith, length-insert id r s.sessions, found, w.size))
        (λ d. ground (
          arith,
          count-insert (of_device d) id r,
          found,
          w.devices d,
          ap (λ x. text_eq x d) device,
        ))
        (λ c. ground (
          arith,
          count-insert (of_client c) id r,
          found,
          w.clients c,
          ap (λ x. text_eq x c) client,
        ))
        w
