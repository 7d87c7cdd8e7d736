-- ===== src/Base/Strings.antt =====
-- A JavaScript string is the list of its UTF-16 code units, so `length`, indexing and equality
-- are those of the list. `text` reads a literal, whose characters lie in the basic plane.
use Prim.Native.Nat.{ℕ, ◌+◌}
use Prim.Native.Char.{code}
use Prim.Native.String.{String}
use mathlib.Core.Path.{◌≡◌, refl, ap₂}
use mathlib.Core.Logic.{◌↔◌}
use mathlib.Core.Bool.{Bool, true, false, ◌&&◌, ◌||◌}
use mathlib.Core.List.{List, [], ◌∷◌, ◌++◌, reverse}
use native.Mathlib.Omega.{arith}
use cesspace_arc.Base.Tests.{ltb, leb, ◌==◌, if◌then◌else◌, ==_iff, ==_refl, and→both}
use cesspace_arc.Base.Lists.{length, all}

abbrev pub Text : Type 0
Text = List ℕ

abbrev pub text : String → Text
text String.[] = []
text (String.◌∷◌ c s) = code c ∷ text s

-- `a === b`
unfoldable pub text_eq : Text → Text → Bool
text_eq [] [] = true
text_eq (x ∷ xs) (y ∷ ys) = x == y && text_eq xs ys
text_eq _ _ = false

pub text_eq→eq : (a b : Text) → text_eq a b ≡ true → a ≡ b
unfolding text_eq
text_eq→eq [] [] h = refl
text_eq→eq (x ∷ xs) (y ∷ ys) h =
    let (p, q) = and→both (x == y) (text_eq xs ys) h in
    ap₂ ◌∷◌ ((==_iff x y).0 p) (text_eq→eq xs ys q)
text_eq→eq [] (y ∷ ys) h = cc
text_eq→eq (x ∷ xs) [] h = cc

pub text_eq_refl : (a : Text) → text_eq a a ≡ true
unfolding text_eq
text_eq_refl [] = refl
text_eq_refl (x ∷ xs) = ground (arith, ==_refl x, text_eq_refl xs)

pub text_eq_iff : (a b : Text) → (text_eq a b ≡ true) ↔ (a ≡ b)
text_eq_iff a b = (text_eq→eq a b, λ e. rw e (text_eq_refl b))

-- A `Set` of strings, or an array of them, under `has` and `includes`.
unfoldable pub has : Text → List Text → Bool
has k [] = false
has k (x ∷ xs) = text_eq x k || has k xs

-- White space as `trim` strips it.
unfoldable pub is_space : ℕ → Bool
is_space c =
    leb 9 c && leb c 13
    || c == 32
    || c == 160
    || c == 5760
    || leb 8192 c && leb c 8202
    || c == 8232
    || c == 8233
    || c == 8239
    || c == 8287
    || c == 12288
    || c == 65279

-- `s.trim().length === 0`, which holds of the empty string too.
unfoldable pub is_blank : Text → Bool
unfolding is_space
is_blank s = all is_space s

drop_spaces : Text → Text
unfolding is_space
drop_spaces [] = []
drop_spaces (c ∷ s) = if is_space c then drop_spaces s else c ∷ s

-- `s.trim()`
unfoldable pub trim : Text → Text
unfolding drop_spaces
trim s = reverse (drop_spaces (reverse (drop_spaces s)))

-- `s.startsWith(prefix)`
unfoldable pub starts_with : (prefix s : Text) → Bool
starts_with [] s = true
starts_with (c ∷ p) [] = false
starts_with (c ∷ p) (d ∷ s) = c == d && starts_with p s

-- The lower case of an ASCII letter.
unfoldable pub lower_ascii : ℕ → ℕ
lower_ascii c = if leb 65 c && leb c 90 then c + 32 else c

-- `/^[0-9a-f]{n}$/`
unfoldable pub is_hex_char : ℕ → Bool
is_hex_char c = leb 48 c && leb c 57 || leb 97 c && leb c 102

unfoldable pub is_hex : ℕ → Text → Bool
unfolding is_hex_char
is_hex n s = length s == n && all is_hex_char s

unfoldable pub is_high_surrogate : ℕ → Bool
is_high_surrogate c = leb 55296 c && ltb c 56320

unfoldable pub is_low_surrogate : ℕ → Bool
is_low_surrogate c = leb 56320 c && ltb c 57344

-- The bytes of one code unit outside a pair; a lone surrogate is written as U+FFFD.
unit_bytes : ℕ → ℕ
unit_bytes c = if ltb c 128 then 1 else if ltb c 2048 then 2 else 3

-- `Buffer.byteLength(s, 'utf8')`
unfoldable pub byte_length : Text → ℕ
unfolding is_high_surrogate is_low_surrogate unit_bytes
byte_length [] = 0
byte_length (c ∷ []) = unit_bytes c
byte_length (c ∷ d ∷ s) =
    let pair = 4 + byte_length s in
    let single = unit_bytes c + byte_length (d ∷ s) in
    if is_high_surrogate c && is_low_surrogate d then pair else single

-- `set.delete(k)`
unfoldable pub remove : Text → List Text → List Text
remove k [] = []
remove k (x ∷ xs) = if text_eq x k then remove k xs else x ∷ remove k xs

-- `set.add(k)`: a new element goes to the end.
unfoldable pub add : Text → List Text → List Text
unfolding has
add k xs = if has k xs then xs else xs ++ k ∷ []

pub has-append : (j : Text) (xs ys : List Text) → has j (xs ++ ys) ≡ (has j xs || has j ys)
unfolding has
has-append j [] ys = refl
has-append j (x ∷ xs) ys = ground (arith, has-append j xs ys)

pub has-remove :
    (k j : Text) (xs : List Text) → has j (remove k xs) ≡ (if text_eq k j then false else has j xs)
unfolding has remove
has-remove k j [] = ground arith
has-remove k j (x ∷ xs) =
    ground (arith, text_eq_iff x k, text_eq_iff x j, text_eq_iff k j, has-remove k j xs)

pub has-add :
    (k j : Text) (xs : List Text) → has j (add k xs) ≡ (if text_eq k j then true else has j xs)
unfolding add has
has-add k j xs = ground (arith, text_eq_iff k j, has-append j xs (k ∷ []))
