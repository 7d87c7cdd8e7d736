-- ===== src/Session/Bearer.antt =====
-- `parseBearerCredential` of packages/auth/src/session.ts.
use cesspace_arc.Base.{
  ℕ, ◌+◌, Bool, false, not, Option, none, some, map, Text, text, text_eq, length, get_elem?, take,
  drop, lower_ascii, any, ltb, ◌==◌, if◌then◌else◌, byte_length,
}

abbrev pub session_auth_scheme : Text
session_auth_scheme = text "Bearer"

abbrev pub max_session_authorization_header_bytes : ℕ
max_session_authorization_header_bytes = 6 + 1 + 128

unfoldable pub includes_unit : ℕ → Text → Bool
includes_unit c s = any (λ d. d == c) s

unfoldable pub has_separator : Text → Bool
has_separator s = elim (get_elem? s 6) [ none ↦ false | some c ↦ c == 32 ]

-- Lower case of the scheme's part of the header, compared with that of the scheme. Outside ASCII only
-- the Kelvin sign and the dotted capital I have a Latin letter in their lower case, and the scheme has
-- neither letter.
unfoldable pub has_scheme : Text → Bool
unfolding lower_ascii text_eq
has_scheme header = text_eq (map lower_ascii (take 6 header)) (map lower_ascii session_auth_scheme)

unfoldable pub accept_token : Text → Option Text
unfolding includes_unit
accept_token token =
    if length token == 0
    then none
    else if includes_unit 32 token
    then none
    else if includes_unit 44 token
    then none
    else some token

unfoldable pub parse_bearer_credential : Option Text → Option Text
unfolding byte_length has_separator has_scheme accept_token
parse_bearer_credential none = none
parse_bearer_credential (some header) =
    if ltb max_session_authorization_header_bytes (length header)
    then none
    else if ltb max_session_authorization_header_bytes (byte_length header)
    then none
    else if ltb (length header) (6 + 2)
    then none
    else if not (has_separator header)
    then none
    else if not (has_scheme header)
    then none
    else accept_token (drop 7 header)
