-- ===== src/Peer/Digits.antt =====
-- An IPv4 literal that is parsed (apps/mcp-server/src/remote-resource-limits.ts) is the one text of
-- its octets.
use cesspace_arc.Base.{
  ℕ, ◌-◌, ◌≤◌, ◌≡◌, refl, sym, inl, inr, true, ◌&&◌, some, >>=-eq-some, eq_of_some, List, [], ◌∷◌,
  Text, length, map, leb, ◌==◌, Bool-cases, and→both, arith,
}
use cesspace_arc.Peer.Addresses.{
  split_on, is_octet_text, decimal_value, parse_octets, parse_ipv4_octets,
}
use cesspace_arc.Peer.Keys.{show_octet, join_with, dotted_quad}

one_digit : (c : ℕ) → 48 ≤ c → c ≤ 57 → show_octet (c - 48) ≡ c ∷ []
unfolding show_octet
one_digit c h k = ground arith

show_octet-decimal_value : (p : Text) → is_octet_text p ≡ true → show_octet (decimal_value 0 p) ≡ p
unfolding is_octet_text decimal_value show_octet
show_octet-decimal_value [] h = absurd (cc)
show_octet-decimal_value (c ∷ []) h = ground arith
show_octet-decimal_value (c ∷ d ∷ []) h = ground arith
show_octet-decimal_value (c ∷ d ∷ e ∷ []) h = ground arith
show_octet-decimal_value (c ∷ d ∷ e ∷ f ∷ t) h = absurd (ground arith)

split_on-nonempty : (c : ℕ) (t : Text) → (s : Text) × (ss : List Text) × (split_on c t ≡ s ∷ ss)
unfolding split_on
split_on-nonempty c [] = ([], [], refl)
split_on-nonempty c (x ∷ t) =
    let (s, ss, e) = split_on-nonempty c t in
    elim (Bool-cases (x == c)) [
      | inl here ↦ ([], split_on c t, rw here)
      | inr other ↦ (x ∷ s, ss, rw (other, e))
    ]

join_with-front :
    (c x : ℕ) (s : Text) (ss : List Text) → join_with c ((x ∷ s) ∷ ss) ≡ x ∷ join_with c (s ∷ ss)
unfolding join_with
join_with-front c x s [] = refl
join_with-front c x s (t ∷ ss) = refl

join_with-split_on : (c : ℕ) (t : Text) → join_with c (split_on c t) ≡ t
unfolding split_on join_with
join_with-split_on c [] = refl
join_with-split_on c (x ∷ t) =
    let (s, ss, e) = split_on-nonempty c t in
    let back = join_with-split_on c t in
    elim (Bool-cases (x == c)) [
      | inl here ↦ rw (here, e) (ground (arith, (rw e at back)))
      | inr other ↦ rw (other, e, join_with-front c x s ss) (ground (arith, (rw e at back)))
    ]

-- The texts of the octets are the parts that they were read from.
parse_octets-shown :
    (parts : List Text) (octets : List ℕ)
    → parse_octets parts ≡ some octets
    → map show_octet octets ≡ parts
unfolding parse_octets
parse_octets-shown [] octets h = rw (sym (eq_of_some h))
parse_octets-shown (p ∷ parts) octets h =
    elim (Bool-cases (is_octet_text p && leb (decimal_value 0 p) 255)) [
      | inr bad ↦ absurd (cc (rw bad at h))
      | inl good ↦
          let (rest, e, h1) = >>=-eq-some (parse_octets parts) _ (rw good at h) in
          let (octet, _) = and→both (is_octet_text p) (leb (decimal_value 0 p) 255) good in
          rw
            (sym (eq_of_some h1), show_octet-decimal_value p octet, parse_octets-shown parts rest e)
    ]

-- An IPv4 literal that is parsed is the dotted quad of its octets, so that two spellings of one
-- address are never both accepted.
pub dotted_quad-parse_ipv4_octets :
    (t : Text) (octets : List ℕ) → parse_ipv4_octets t ≡ some octets → dotted_quad octets ≡ t
unfolding parse_ipv4_octets dotted_quad
dotted_quad-parse_ipv4_octets t octets h = elim (Bool-cases (length (split_on 46 t) == 4)) [
  | inr bad ↦ absurd (cc (rw bad at h))
  | inl good ↦
      rw (parse_octets-shown (split_on 46 t) octets (rw good at h)) (join_with-split_on 46 t)
]
