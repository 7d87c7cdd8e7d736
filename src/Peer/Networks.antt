-- ===== src/Peer/Networks.antt =====
-- The keys that `normalizePeerNetwork` (apps/mcp-server/src/remote-resource-limits.ts) gives to
-- IPv6 addresses.
use cesspace_arc.Base.{
  ℕ, zero, suc, ◌+◌, ◌-◌, ◌*◌, ◌/◌, ◌%◌, ◌<◌, ◌≡◌, refl, sym, ap, ◌∙◌, inl, inr, Bool, true, false,
  none, some, ◌>>=◌, >>=-eq-some, eq_of_some, List, [], ◌∷◌, ◌++◌, Text, length, length-append,
  replicate, ltb, ◌==◌, if◌then◌else◌, Bool-cases, Option-cases, ltb-false→le, arith,
}
use cesspace_arc.Peer.Addresses.{
  cut_zone, cut_compression, has_compression, parse_hextet_run, fill_groups, parse_ipv6_groups,
  parse_ipv4_octets, octet_groups,
}
use cesspace_arc.Peer.Digits.{dotted_quad-parse_ipv4_octets}
use cesspace_arc.Peer.Keys.{
  dotted_quad, is_ipv4_mapped, mapped_ipv4, ipv6_key, normalize_peer_network,
}

length-replicate : (n m : ℕ) → length (replicate n m) ≡ n
length-replicate zero m = refl
length-replicate (suc n) m = omega (arith, length-replicate n m)

length_filled :
    (head tail : List ℕ) (n : ℕ)
    → length (head ++ replicate n 0 ++ tail) ≡ length head + n + length tail
length_filled head tail n = omega (
  arith,
  length-append (head ++ replicate n 0) tail,
  length-append head (replicate n 0),
  length-replicate n 0,
)

length-fill_groups :
    (head tail groups : List ℕ) → fill_groups head tail ≡ some groups → length groups ≡ 8
unfolding fill_groups
length-fill_groups head tail groups h = elim (Bool-cases (ltb 7 (length head + length tail))) [
  | inl full ↦ absurd (cc (rw full at h))
  | inr room ↦
      ap length (sym (eq_of_some (rw room at h)))
      ∙ length_filled head tail (8 - (length head + length tail))
      ∙ omega (arith, ltb-false→le 7 (length head + length tail) room)
]

-- An IPv6 literal that is parsed has eight groups.
pub length-parse_ipv6_groups :
    (address : Text) (groups : List ℕ) → parse_ipv6_groups address ≡ some groups → length groups ≡ 8
unfolding parse_ipv6_groups
length-parse_ipv6_groups address groups h =
    let (t, _, h1) = >>=-eq-some (cut_zone address) _ h in
    elim (Option-cases (cut_compression t)) [
      | inl plain ↦
          let (head, _, h2) = >>=-eq-some (parse_hextet_run t) _ (rw plain at h1) in
          elim (Bool-cases (length head == 8)) [
            | inl eight ↦ ground (arith, (rw eight at h2))
            | inr other ↦ absurd (cc (rw other at h2))
          ]
      | inr ((before, after), cut) ↦
          let h2 : (if has_compression (cut_compression (58 ∷ after))
                then none
                else (parse_hextet_run before >>= λ head.
                    (parse_hextet_run after >>= λ tail. fill_groups head tail)))
              ≡ some groups =
            rw cut at h1 in
          elim (Bool-cases (has_compression (cut_compression (58 ∷ after)))) [
            | inl twice ↦ absurd (cc (rw twice at h2))
            | inr once ↦
                let (head, _, h3) = >>=-eq-some (parse_hextet_run before) _ (rw once at h2) in
                let (tail, _, h4) = >>=-eq-some (parse_hextet_run after) _ h3 in
                length-fill_groups head tail groups h4
          ]
    ]

module _ (is_ipv4 is_ipv6 : Text → Bool) where
  -- The key of an IPv4 peer is its address as it stands.
  pub ipv4_key_is_address :
      (address key : Text)
      → (length address == 0) ≡ false
      → is_ipv4 address ≡ true
      → normalize_peer_network is_ipv4 is_ipv6 (some address) ≡ some key
      → key ≡ address
  unfolding normalize_peer_network
  ipv4_key_is_address address key given four h =
      let (octets, e, h1) = >>=-eq-some (parse_ipv4_octets address) _ (rw (given, four) at h) in
      sym (eq_of_some h1) ∙ dotted_quad-parse_ipv4_octets address octets e

  ipv6_key_of :
      (address : Text) (groups : List ℕ)
      → (length address == 0) ≡ false
      → is_ipv4 address ≡ false
      → is_ipv6 address ≡ true
      → parse_ipv6_groups address ≡ some groups
      → normalize_peer_network is_ipv4 is_ipv6 (some address) ≡ some (ipv6_key groups)
  unfolding normalize_peer_network
  ipv6_key_of address groups given four six parsed =
      rw (normalize_peer_network, given, four, six, parsed)

-- A mapped IPv4 address gets the key of the IPv4 address with its octets, in whichever way its last
-- two groups are spelled.
pub mapped_key_is_ipv4_key :
    (is_ipv4 is_ipv6 : Text → Bool) (mapped address : Text) (a b c d : ℕ)
    → (length mapped == 0) ≡ false
    → (length address == 0) ≡ false
    → is_ipv4 mapped ≡ false
    → is_ipv6 mapped ≡ true
    → is_ipv4 address ≡ true
    → b < 256
    → d < 256
    → parse_ipv6_groups mapped
      ≡ some (0 ∷ 0 ∷ 0 ∷ 0 ∷ 0 ∷ 65535 ∷ octet_groups (a ∷ b ∷ c ∷ d ∷ []))
    → parse_ipv4_octets address ≡ some (a ∷ b ∷ c ∷ d ∷ [])
    → normalize_peer_network is_ipv4 is_ipv6 (some mapped)
      ≡ normalize_peer_network is_ipv4 is_ipv6 (some address)
unfolding ipv6_key is_ipv4_mapped mapped_ipv4 octet_groups normalize_peer_network
mapped_key_is_ipv4_key is_ipv4 is_ipv6 mapped address a b c d gm ga fm sm fa hb hd pm pa =
    let ea : (a * 256 + b) / 256 ≡ a = omega (arith, hb) in
    let eb : (a * 256 + b) % 256 ≡ b = omega (arith, hb) in
    let ec : (c * 256 + d) / 256 ≡ c = omega (arith, hd) in
    let ed : (c * 256 + d) % 256 ≡ d = omega (arith, hd) in
    let key : mapped_ipv4 (0 ∷ 0 ∷ 0 ∷ 0 ∷ 0 ∷ 65535 ∷ octet_groups (a ∷ b ∷ c ∷ d ∷ []))
        ≡ dotted_quad (a ∷ b ∷ c ∷ d ∷ []) =
      rw (ea, eb, ec, ed) in
    let direct : normalize_peer_network is_ipv4 is_ipv6 (some address)
        ≡ some (dotted_quad (a ∷ b ∷ c ∷ d ∷ [])) =
      rw (normalize_peer_network, ga, fa, pa) in
    ipv6_key_of is_ipv4 is_ipv6 mapped _ gm fm sm pm ∙ ap some key ∙ sym direct
