-- ===== src/Peer/Addresses.antt =====
-- The parsers of IPv4 and IPv6 literals in apps/mcp-server/src/remote-resource-limits.ts.
-- `none` is the code's null.
use cesspace_arc.Base.{
  ℕ, ◌+◌, ◌-◌, ◌*◌, Bool, true, false, ◌&&◌, ◌||◌, Option, none, some, ◌>>=◌, List, [], ◌∷◌, ◌++◌,
  Text, length, all, replicate, ltb, leb, ◌==◌, if◌then◌else◌,
}
use cesspace_arc.Glob.Matcher.{contains, starts_with, push_front}

-- `t.split(c)` for one character.
unfoldable pub split_on : ℕ → Text → List Text
split_on c [] = [] ∷ []
split_on c (x ∷ t) = if x == c then [] ∷ split_on c t else push_front x (split_on c t)

abbrev pub is_digit : ℕ → Bool
is_digit c = leb 48 c && leb c 57

abbrev pub is_empty : Text → Bool
is_empty [] = true
is_empty (_ ∷ _) = false

-- `/^(?:0|[1-9][0-9]{0,2})$/`
unfoldable pub is_octet_text : Text → Bool
is_octet_text [] = false
is_octet_text (c ∷ t) =
    (c == 48 && is_empty t) || (leb 49 c && leb c 57 && all is_digit t && leb (length t) 2)

-- `Number(part)` of decimal digits.
unfoldable pub decimal_value : ℕ → Text → ℕ
decimal_value value [] = value
decimal_value value (c ∷ t) = decimal_value (value * 10 + (c - 48)) t

unfoldable pub parse_octets : List Text → Option (List ℕ)
parse_octets [] = some []
parse_octets (part ∷ parts) =
    let rest = parse_octets parts in
    if is_octet_text part && leb (decimal_value 0 part) 255
    then (rest >>= λ octets. some (decimal_value 0 part ∷ octets))
    else none

unfoldable pub parse_ipv4_octets : Text → Option (List ℕ)
parse_ipv4_octets t =
    let parts = split_on 46 t in if length parts == 4 then parse_octets parts else none

-- `[0-9A-Fa-f]` and its value.
abbrev is_hex_digit : ℕ → Bool
is_hex_digit c = is_digit c || (leb 65 c && leb c 70) || (leb 97 c && leb c 102)

abbrev hex_digit : ℕ → ℕ
hex_digit c = if leb c 57 then c - 48 else if leb c 70 then c - 55 else c - 87

unfoldable pub is_group_text : Text → Bool
is_group_text t = leb 1 (length t) && leb (length t) 4 && all is_hex_digit t

unfoldable pub hex_value : ℕ → Text → ℕ
hex_value value [] = value
hex_value value (c ∷ t) = hex_value (value * 16 + hex_digit c) t

-- `(octets[0] << 8) | octets[1]` and the same of the other two.
unfoldable pub octet_groups : List ℕ → List ℕ
octet_groups (a ∷ b ∷ c ∷ d ∷ []) = (a * 256 + b) ∷ (c * 256 + d) ∷ []
octet_groups _ = []

abbrev is_last : List Text → Bool
is_last [] = true
is_last (_ ∷ _) = false

-- The loop over the components.
unfoldable pub parse_components : List Text → Option (List ℕ)
parse_components [] = some []
parse_components (part ∷ parts) =
    let rest = parse_components parts in
    if length part == 0
    then none
    else if contains 46 part
    then (if is_last parts
        then (parse_ipv4_octets part >>= λ octets. some (octet_groups octets))
        else none)
    else if is_group_text part
    then (rest >>= λ groups. some (hex_value 0 part ∷ groups))
    else none

unfoldable pub parse_hextet_run : Text → Option (List ℕ)
parse_hextet_run [] = some []
parse_hextet_run (c ∷ t) = parse_components (split_on 58 (c ∷ t))

-- The text before a zone index; a zone index at the front is refused.
abbrev until : ℕ → Text → Text
until c [] = []
until c (x ∷ t) = if x == c then [] else x ∷ until c t

unfoldable pub cut_zone : Text → Option Text
cut_zone t = if starts_with 37 t then none else some (until 37 t)

-- The texts around the first `::`.
unfoldable pub cut_compression : Text → Option (Text × Text)
cut_compression [] = none
cut_compression (x ∷ []) = none
cut_compression (x ∷ y ∷ t) =
    let later = cut_compression (y ∷ t) in
    if x == 58 && y == 58 then some ([], t) else later >>= λ parts. some (x ∷ parts.0, parts.1)

abbrev pub has_compression : Option (Text × Text) → Bool
has_compression none = false
has_compression (some _) = true

-- `::` must stand for at least one group.
unfoldable pub fill_groups : List ℕ → List ℕ → Option (List ℕ)
fill_groups head tail =
    if ltb 7 (length head + length tail)
    then none
    else some (head ++ replicate (8 - (length head + length tail)) 0 ++ tail)

unfoldable pub parse_ipv6_groups : Text → Option (List ℕ)
parse_ipv6_groups address = cut_zone address >>= λ t. elim (cut_compression t) [
  | none ↦ parse_hextet_run t >>= λ head. if length head == 8 then some head else none
  | some (before, after) ↦
      if has_compression (cut_compression (58 ∷ after))
      then none
      else parse_hextet_run before >>= λ head.
          (parse_hextet_run after >>= λ tail. fill_groups head tail)
]
