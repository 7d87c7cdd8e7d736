-- ===== src/Peer/Tests.antt =====
-- Runs of `normalizePeerNetwork` (apps/mcp-server/src/remote-resource-limits.ts) and its theorems at
-- concrete addresses. The tests of Node are taken to look for a colon.
use cesspace_arc.Base.{arith, ℕ, ◌≡◌, refl, Bool, not, none, some, List, [], ◌∷◌, Text, text}
use cesspace_arc.Glob.Matcher.{contains, starts_with}
use cesspace_arc.Peer.Addresses.{
  split_on, is_octet_text, decimal_value, parse_octets, parse_ipv4_octets, is_group_text, hex_value,
  octet_groups, parse_components, parse_hextet_run, cut_zone, cut_compression, fill_groups,
  parse_ipv6_groups,
}
use cesspace_arc.Peer.Keys.{
  show_octet, join_with, dotted_quad, show_group, scan_group, scan_groups, longest_zero_run,
  show_groups, format_ipv6_groups, is_ipv4_mapped, mapped_ipv4, ipv6_key, normalize_peer_network,
}
use cesspace_arc.Peer.Digits.{dotted_quad-parse_ipv4_octets}
use cesspace_arc.Peer.Networks.{mapped_key_is_ipv4_key}

reading : Unit {0}
unfolding contains starts_with split_on is_octet_text decimal_value parse_octets parse_ipv4_octets
    is_group_text hex_value octet_groups parse_components parse_hextet_run cut_zone cut_compression
    fill_groups parse_ipv6_groups show_octet join_with dotted_quad show_group scan_group scan_groups
    longest_zero_run show_groups format_ipv6_groups is_ipv4_mapped mapped_ipv4 ipv6_key
    normalize_peer_network
reading = tt

abbrev four : Text → Bool
four t = not (contains 58 t)

abbrev six : Text → Bool
six t = contains 58 t

abbrev quad : Text
quad = text "192.0.2.1"

abbrev host_one : Text
host_one = text "2001:0db8:ABCD:0012::1"

abbrev host_two : Text
host_two = text "2001:db8:abcd:12:0:0:0:ff%eth0"

abbrev mapped_text : Text
mapped_text = text "::ffff:c000:201"

network_key : normalize_peer_network four six (some host_one) ≡ some (text "2001:db8:abcd:12::/64")
unfolding reading
network_key = refl

leading_zero_refused : normalize_peer_network four six (some (text "192.000.2.1")) ≡ none
unfolding reading
leading_zero_refused = refl

abbrev octets : List ℕ
octets = 192 ∷ 0 ∷ 2 ∷ 1 ∷ []

quad_parsed : parse_ipv4_octets quad ≡ some octets
unfolding reading
quad_parsed = refl

abbrev groups_one : List ℕ
groups_one = 8193 ∷ 3512 ∷ 43981 ∷ 18 ∷ 0 ∷ 0 ∷ 0 ∷ 1 ∷ []

abbrev groups_two : List ℕ
groups_two = 8193 ∷ 3512 ∷ 43981 ∷ 18 ∷ 0 ∷ 0 ∷ 0 ∷ 255 ∷ []

mapped_parsed :
    parse_ipv6_groups mapped_text ≡ some (0 ∷ 0 ∷ 0 ∷ 0 ∷ 0 ∷ 65535 ∷ octet_groups octets)
unfolding reading
mapped_parsed = refl

dotted_quad-parse_ipv4_octets_example : dotted_quad octets ≡ quad
dotted_quad-parse_ipv4_octets_example = dotted_quad-parse_ipv4_octets quad octets quad_parsed

mapped_key_is_ipv4_key_example :
    normalize_peer_network four six (some mapped_text) ≡ normalize_peer_network four six (some quad)
unfolding reading
mapped_key_is_ipv4_key_example =
    mapped_key_is_ipv4_key four six mapped_text quad 192 0 2 1 refl refl refl refl refl
      (omega arith) (omega arith) mapped_parsed quad_parsed
