-- ===== src/Session/BearerLaws.antt =====
-- Exactly which headers `parseBearerCredential` of packages/auth/src/session.ts accepts.
use cesspace_arc.Base.{
  ℕ, zero, suc, ◌+◌, ◌≤◌, ◌≡◌, ◌↔◌, refl, ap, subst, ◌∙◌, Bool, true, false, not, none, some, [],
  ◌∷◌, ◌++◌, map, Text, text_eq, text_eq_iff, length, length-append, get_elem?, take, drop,
  lower_ascii, ltb, ltb-false→le, le→ltb-false, not-false, ◌==◌, byte_length, Option-cases, inl,
  inr, eq_of_some, if◌then◌else◌, Option, arith,
}
use cesspace_arc.Session.Bearer.{
  session_auth_scheme, includes_unit, has_separator, has_scheme, accept_token,
  parse_bearer_credential,
}

pub length-le-byte_length : (s : Text) → length s ≤ byte_length s
unfolding byte_length
length-le-byte_length [] = omega arith
length-le-byte_length (c ∷ []) = ground arith
length-le-byte_length (c ∷ d ∷ s) =
    ground (arith, length-le-byte_length s, length-le-byte_length (d ∷ s))

-- A text around one of its units.
around :
    (n c : ℕ) (h : Text)
    → get_elem? h n ≡ some c
    → (h ≡ take n h ++ c ∷ drop (suc n) h) × (length (take n h) ≡ n)
around n c [] found = absurd (cc)
around zero c (d ∷ h) found = (ground arith, refl)
around (suc n) c (d ∷ h) found = let (e, l) = around n c h found in (ap (λ t. d ∷ t) e, ap suc l)

joined :
    (s : Text) (c : ℕ) (t : Text)
    → (get_elem? (s ++ c ∷ t) (length s) ≡ some c)
      × (take (length s) (s ++ c ∷ t) ≡ s)
      × (drop (suc (length s)) (s ++ c ∷ t) ≡ t)
joined [] c t = (refl, refl, refl)
joined (d ∷ s) c t = let (g, k, r) = joined s c t in (g, ap (λ u. d ∷ u) k, r)

joined_at :
    (s : Text) (c : ℕ) (t : Text) (n : ℕ)
    → length s ≡ n
    → (get_elem? (s ++ c ∷ t) n ≡ some c)
      × (take n (s ++ c ∷ t) ≡ s)
      × (drop (suc n) (s ++ c ∷ t) ≡ t)
joined_at s c t n e =
    subst
      (λ (k : ℕ).
        (get_elem? (s ++ c ∷ t) k ≡ some c)
        × (take k (s ++ c ∷ t) ≡ s)
        × (drop (suc k) (s ++ c ∷ t) ≡ t))
      e (joined s c t)

-- `Bearer` in any letter case, one space, and a token with no space and no comma.
pub record IsBearer (header token : Text) : Type 0 where
  pub scheme : Text
  pub split : header ≡ scheme ++ 32 ∷ token
  pub six : length scheme ≡ 6
  pub bearer : map lower_ascii scheme ≡ map lower_ascii session_auth_scheme
  pub not_empty : 1 ≤ length token
  pub no_space : includes_unit 32 token ≡ false
  pub no_comma : includes_unit 44 token ≡ false
  pub bounded : byte_length header ≤ 135

-- A check that returned nothing was passed.
past :
    (refused : Bool) (rest : Option Text) {t : Text}
    → (if refused then none else rest) ≡ some t
    → (refused ≡ false) × (rest ≡ some t)
past true rest h = absurd (cc)
past false rest h = (refl, h)

separator_32 : (h : Text) → has_separator h ≡ true → get_elem? h 6 ≡ some 32
unfolding has_separator
separator_32 h e = elim (Option-cases (get_elem? h 6)) [
  | inl missing ↦ absurd (ground (arith, missing))
  | inr (c, found) ↦ ground (arith, found)
]

accepted-IsBearer :
    (h t : Text)
    → byte_length h ≤ 135
    → has_separator h ≡ true
    → has_scheme h ≡ true
    → accept_token (drop 7 h) ≡ some t
    → IsBearer h t
unfolding has_scheme accept_token
accepted-IsBearer h t bounded sep scheme e =
    let (split, six) = around 6 32 h (separator_32 h sep) in
    let (full, e1) = past (length (drop 7 h) == 0) _ e in
    let (no_space, e2) = past (includes_unit 32 (drop 7 h)) _ e1 in
    let (no_comma, e3) = past (includes_unit 44 (drop 7 h)) _ e2 in
    subst (IsBearer h) (eq_of_some e3) (record {
      scheme = take 6 h;
      split = split;
      six = six;
      bearer = (text_eq_iff _ _).0 scheme;
      not_empty = ground (arith, full);
      no_space = no_space;
      no_comma = no_comma;
      bounded = bounded;
    })

parsed-IsBearer : (h t : Text) → parse_bearer_credential (some h) ≡ some t → IsBearer h t
unfolding parse_bearer_credential
parsed-IsBearer h t e =
    let (short, e1) = past (ltb 135 (length h)) _ e in
    let (bounded, e2) = past (ltb 135 (byte_length h)) _ e1 in
    let (long, e3) = past (ltb (length h) 8) _ e2 in
    let (sep, e4) = past (not (has_separator h)) _ e3 in
    let (scheme, e5) = past (not (has_scheme h)) _ e4 in
    accepted-IsBearer h t (ltb-false→le 135 _ bounded) (not-false _ sep) (not-false _ scheme) e5

IsBearer-parsed : (h t : Text) → IsBearer h t → parse_bearer_credential (some h) ≡ some t
unfolding parse_bearer_credential has_separator has_scheme accept_token
IsBearer-parsed h t w =
    let (sep, prefix, rest) = joined_at w.scheme 32 t 6 w.six in
    let sep6 : get_elem? h 6 ≡ some 32 = rw w.split sep in
    let prefix6 : take 6 h ≡ w.scheme = rw w.split prefix in
    let rest6 : drop 7 h ≡ t = rw w.split rest in
    let same : text_eq (map lower_ascii w.scheme) (map lower_ascii session_auth_scheme) ≡ true =
      (text_eq_iff _ _).1 w.bearer in
    let size : length h ≡ 7 + length t =
      ap length w.split ∙ omega (arith, length-append w.scheme (32 ∷ t), w.six) in
    let long = le→ltb-false (length h) 8 (omega (arith, size, w.not_empty)) in
    let few = le→ltb-false 135 (length h) (omega (arith, length-le-byte_length h, w.bounded)) in
    let small = le→ltb-false 135 (byte_length h) w.bounded in
    let full : (length t == 0) ≡ false = ground (arith, w.not_empty) in
    rw (few, small, long, has_separator, sep6, prefix6, same, rest6, full, w.no_space, w.no_comma)

-- A header is accepted exactly when it is `Bearer`, in any letter case, one space and a token, which
-- is not empty and has no space and no comma, in 135 bytes at most; and the token is what is
-- returned. An absent header gives none.
pub parse_bearer_credential_iff :
    (h t : Text)
    → ((parse_bearer_credential (some h) ≡ some t) ↔ IsBearer h t)
      × (parse_bearer_credential none ≡ none)
unfolding parse_bearer_credential
parse_bearer_credential_iff h t = ((parsed-IsBearer h t, IsBearer-parsed h t), refl)
