-- ===== src/Trust/Invariant.antt =====
-- The invariant of `DeviceTrustStore` (packages/auth/src/trust-store.ts): a pin belongs to at most
-- one device, and a device has one or two pins.
use cesspace_arc.Base.{
  ◌≤◌, ◌≡◌, sym, ◌∙◌, true, false, some, List, [], ◌∷◌, Text, text_eq, text_eq_iff, length, has,
  lookup, insert, lookup-insert, IsDistinct, insert-IsDistinct, length-insert, Bool-cases, inl, inr,
  arith,
}
use cesspace_arc.Trust.Devices.{EnrolledDevice}
use cesspace_arc.Trust.Store.{Devices}

-- No pin stands twice in the list.
abbrev pub AllDifferent : List Text → Type 0
AllDifferent [] = Unit
AllDifferent (x ∷ xs) = (has x xs ≡ false) × AllDifferent xs

abbrev pub HasPins : List Text → Type 0
HasPins ps = (1 ≤ length ps) × (length ps ≤ 2) × AllDifferent ps

pub record IsTrusted (m : Devices) : Type 0 where
  pub distinct : IsDistinct m
  pub keyed : (k : Text) (d : EnrolledDevice) → lookup k m ≡ some d → d.device_id ≡ k
  pub pinned : (k : Text) (d : EnrolledDevice) → lookup k m ≡ some d → HasPins d.pins
  pub exclusive :
      (p j k : Text) (d e : EnrolledDevice)
      → lookup j m ≡ some d
      → lookup k m ≡ some e
      → has p d.pins ≡ true
      → has p e.pins ≡ true
      → j ≡ k
  pub size : length m ≤ 256

pub empty-IsTrusted : IsTrusted []
unfolding lookup
empty-IsTrusted = record {
  distinct = tt;
  keyed = λ k d h. absurd (cc);
  pinned = λ k d h. absurd (cc);
  exclusive = λ p j k d e h. absurd (cc);
  size = omega arith;
}

module _ (id : Text) (dev : EnrolledDevice) (m : Devices) where
  lookup-insert_other :
      (k : Text) (d : EnrolledDevice)
      → text_eq id k ≡ false
      → lookup k (insert id dev m) ≡ some d
      → lookup k m ≡ some d
  lookup-insert_other k d other h = ground (arith, lookup-insert id k dev m)

  lookup-insert_same :
      (k : Text) (d : EnrolledDevice)
      → text_eq id k ≡ true
      → lookup k (insert id dev m) ≡ some d
      → dev ≡ d
  lookup-insert_same k d same h = ground (arith, lookup-insert id k dev m)

  -- A record whose pins no other device has can be written.
  pub insert-IsTrusted :
      dev.device_id ≡ id
      → HasPins dev.pins
      → ((p k : Text) (e : EnrolledDevice)
          → has p dev.pins ≡ true
          → lookup k m ≡ some e
          → has p e.pins ≡ true
          → k ≡ id)
      → length (insert id dev m) ≤ 256
      → IsTrusted m
      → IsTrusted (insert id dev m)
  insert-IsTrusted own pins alone room w = record {
    distinct = insert-IsDistinct id dev m w.distinct;
    keyed = λ k d h. elim (Bool-cases (text_eq id k)) [
      | inl same ↦
          let e = lookup-insert_same k d same h in let here = (text_eq_iff id k).0 same in cc
      | inr other ↦ w.keyed k d (lookup-insert_other k d other h)
    ];
    pinned = λ k d h. elim (Bool-cases (text_eq id k)) [
      | inl same ↦ rw (← lookup-insert_same k d same h) pins
      | inr other ↦ w.pinned k d (lookup-insert_other k d other h)
    ];
    exclusive = λ p j k d e hj hk pd pe. elim (Bool-cases (text_eq id j)) [
      | inl same_j ↦
          let pj : has p dev.pins ≡ true = rw (lookup-insert_same j d same_j hj) pd in
          elim (Bool-cases (text_eq id k)) [
            | inl same_k ↦ sym ((text_eq_iff id j).0 same_j) ∙ (text_eq_iff id k).0 same_k
            | inr other_k ↦
                sym ((text_eq_iff id j).0 same_j)
                ∙ sym (alone p k e pj (lookup-insert_other k e other_k hk) pe)
          ]
      | inr other_j ↦
          let fj = lookup-insert_other j d other_j hj in
          elim (Bool-cases (text_eq id k)) [
            | inl same_k ↦
                let pk : has p dev.pins ≡ true = rw (lookup-insert_same k e same_k hk) pe in
                alone p j d pk fj pd ∙ (text_eq_iff id k).0 same_k
            | inr other_k ↦ w.exclusive p j k d e fj (lookup-insert_other k e other_k hk) pd pe
          ]
    ];
    size = room;
  }

  -- So can a record of a device that is there, under its key.
  pub length-insert_present :
      (d : EnrolledDevice) → lookup id m ≡ some d → length (insert id dev m) ≡ length m
  length-insert_present d h = ground (arith, length-insert id dev m, h)

  pub length-insert_below : length m ≤ 255 → length (insert id dev m) ≤ 256
  length-insert_below room = ground (arith, length-insert id dev m)
