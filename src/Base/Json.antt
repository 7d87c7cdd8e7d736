-- ===== src/Base/Json.antt =====
-- `JSON.stringify` of an array of strings and nulls, as the standard library writes it: control
-- characters, quotes, backslashes and lone surrogates are escaped.
use Prim.Native.Nat.{ℕ, ◌+◌, ◌/◌, ◌%◌}
use mathlib.Core.Bool.{◌&&◌, ◌||◌}
use mathlib.Core.Option.{Option, none, some}
use mathlib.Core.List.{List, [], ◌∷◌, ◌++◌}
use cesspace_arc.Base.Tests.{ltb, ◌==◌, if◌then◌else◌}
use cesspace_arc.Base.Strings.{Text, text, is_high_surrogate, is_low_surrogate}

hex_digit : ℕ → ℕ
hex_digit n = if ltb n 10 then 48 + n else 87 + n

unicode_escape : ℕ → Text
unicode_escape c =
    92
    ∷ 117
    ∷ hex_digit (c / 4096)
    ∷ hex_digit (c / 256 % 16)
    ∷ hex_digit (c / 16 % 16)
    ∷ hex_digit (c % 16)
    ∷ []

-- One code unit that is no half of a surrogate pair.
escape_unit : ℕ → Text
unfolding unicode_escape hex_digit
escape_unit c =
    if c == 8
    then text "\\b"
    else if c == 9
    then text "\\t"
    else if c == 10
    then text "\\n"
    else if c == 12
    then text "\\f"
    else if c == 13
    then text "\\r"
    else if c == 34
    then 92 ∷ 34 ∷ []
    else if c == 92
    then 92 ∷ 92 ∷ []
    else if ltb c 32 || is_high_surrogate c || is_low_surrogate c
    then unicode_escape c
    else c ∷ []

escape : Text → Text
unfolding escape_unit is_high_surrogate is_low_surrogate
escape [] = []
escape (c ∷ []) = escape_unit c
escape (c ∷ d ∷ s) =
    let pair = c ∷ d ∷ escape s in
    let single = escape_unit c ++ escape (d ∷ s) in
    if is_high_surrogate c && is_low_surrogate d then pair else single

unfoldable pub json_string : Text → Text
unfolding escape
json_string s = 34 ∷ (escape s ++ 34 ∷ [])

unfoldable pub json_item : Option Text → Text
unfolding json_string
json_item none = text "null"
json_item (some s) = json_string s

json_items : List (Option Text) → Text
unfolding json_item
json_items [] = []
json_items (x ∷ []) = json_item x
json_items (x ∷ y ∷ ys) = json_item x ++ (44 ∷ json_items (y ∷ ys))

unfoldable pub json_array : List (Option Text) → Text
unfolding json_items
json_array xs = 91 ∷ (json_items xs ++ 93 ∷ [])
