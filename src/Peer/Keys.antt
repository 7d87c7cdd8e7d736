-- ===== src/Peer/Keys.antt =====
-- `formatIpv6Groups` and `normalizePeerNetwork` of apps/mcp-server/src/remote-resource-limits.ts.
-- Octets and groups are below 256 and 65536, so that they have at most three decimal and four
-- hexadecimal digits. `is_ipv4` and `is_ipv6` are `net.isIPv4` and `net.isIPv6` of Node.
use cesspace_arc.Base.{
  ℕ, suc, ◌+◌, ◌/◌, ◌%◌, Bool, false, ◌&&◌, Option, none, some, ◌>>=◌, List, [], ◌∷◌, ◌++◌, Text,
  text, length, take, drop, map, ltb, leb, ◌==◌, if◌then◌else◌,
}
use cesspace_arc.Peer.Addresses.{parse_ipv4_octets, parse_ipv6_groups}

-- `${octet}`
unfoldable pub show_octet : ℕ → Text
show_octet n =
    if ltb n 10
    then (48 + n) ∷ []
    else if ltb n 100
    then (48 + n / 10) ∷ (48 + n % 10) ∷ []
    else (48 + n / 100) ∷ (48 + n / 10 % 10) ∷ (48 + n % 10) ∷ []

-- `texts.join(separator)` for one character.
unfoldable pub join_with : ℕ → List Text → Text
join_with c [] = []
join_with c (t ∷ []) = t
join_with c (t ∷ u ∷ ts) = t ++ c ∷ join_with c (u ∷ ts)

unfoldable pub dotted_quad : List ℕ → Text
dotted_quad octets = join_with 46 (map show_octet octets)

abbrev show_hex_digit : ℕ → ℕ
show_hex_digit d = if ltb d 10 then 48 + d else 87 + d

-- `group.toString(16)`
unfoldable pub show_group : ℕ → Text
show_group n =
    if ltb n 16
    then show_hex_digit n ∷ []
    else if ltb n 256
    then show_hex_digit (n / 16) ∷ show_hex_digit (n % 16) ∷ []
    else if ltb n 4096
    then show_hex_digit (n / 256) ∷ show_hex_digit (n / 16 % 16) ∷ show_hex_digit (n % 16) ∷ []
    else show_hex_digit (n / 4096)
      ∷ show_hex_digit (n / 256 % 16)
      ∷ show_hex_digit (n / 16 % 16)
      ∷ show_hex_digit (n % 16)
      ∷ []

-- The variables of the loop of `longestZeroRun`; while the run is empty its start is not read.
pub record RunScan : Type 0 where
  pub best_start : ℕ
  pub best_length : ℕ
  pub run_start : ℕ
  pub run_length : ℕ

unfoldable pub scan_group : ℕ → ℕ → RunScan → RunScan
scan_group index group s =
    if group == 0
    then (let start = if s.run_length == 0 then index else s.run_start in
        let longer = ltb s.best_length (s.run_length + 1) in
        record {
          best_start = if longer then start else s.best_start;
          best_length = if longer then s.run_length + 1 else s.best_length;
          run_start = start;
          run_length = s.run_length + 1;
        })
    else record s { run_length = 0 }

unfoldable pub scan_groups : ℕ → List ℕ → RunScan → RunScan
scan_groups index [] s = s
scan_groups index (group ∷ groups) s = scan_groups (suc index) groups (scan_group index group s)

-- A run of fewer than two groups is not compressed.
unfoldable pub longest_zero_run : List ℕ → Option (ℕ × ℕ)
longest_zero_run groups =
    let s =
      scan_groups 0 groups
        (record { best_start = 0; best_length = 0; run_start = 0; run_length = 0 }) in
    if leb 2 s.best_length then some (s.best_start, s.best_length) else none

unfoldable pub show_groups : List ℕ → Text
show_groups groups = join_with 58 (map show_group groups)

unfoldable pub format_ipv6_groups : List ℕ → Text
format_ipv6_groups groups = elim (longest_zero_run groups) [
  | none ↦ show_groups groups
  | some (start, count) ↦
      show_groups (take start groups) ++ 58 ∷ 58 ∷ show_groups (drop (start + count) groups)
]

unfoldable pub is_ipv4_mapped : List ℕ → Bool
is_ipv4_mapped (a ∷ b ∷ c ∷ d ∷ e ∷ f ∷ rest) =
    a == 0 && b == 0 && c == 0 && d == 0 && e == 0 && f == 65535
is_ipv4_mapped _ = false

-- `high >> 8`, `high & 0xff`, `low >> 8`, `low & 0xff`.
unfoldable pub mapped_ipv4 : List ℕ → Text
mapped_ipv4 (a ∷ b ∷ c ∷ d ∷ e ∷ f ∷ high ∷ low ∷ rest) =
    dotted_quad (high / 256 ∷ high % 256 ∷ low / 256 ∷ low % 256 ∷ [])
mapped_ipv4 _ = []

abbrev pub unknown_peer_key : Text
unknown_peer_key = text "unknown-peer"

-- The key of the groups of an IPv6 address.
unfoldable pub ipv6_key : List ℕ → Text
ipv6_key groups =
    if is_ipv4_mapped groups
    then mapped_ipv4 groups
    else format_ipv6_groups (take 4 groups ++ 0 ∷ 0 ∷ 0 ∷ 0 ∷ []) ++ text "/64"

unfoldable pub normalize_peer_network : (is_ipv4 is_ipv6 : Text → Bool) → Option Text → Option Text
normalize_peer_network is_ipv4 is_ipv6 none = some unknown_peer_key
normalize_peer_network is_ipv4 is_ipv6 (some address) =
    if length address == 0
    then some unknown_peer_key
    else if is_ipv4 address
    then (parse_ipv4_octets address >>= λ octets. some (dotted_quad octets))
    else if is_ipv6 address
    then (parse_ipv6_groups address >>= λ groups. some (ipv6_key groups))
    else none
