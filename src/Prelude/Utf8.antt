-- ===== src/Prelude/Utf8.antt =====
-- What the program uses of UTF-8: `bytes.TrimSpace`, and the JSON string of a text.
pub mod Trim
use Prim.Native.Nat.{ℕ, zero, suc, ◌+◌, ◌-◌, ◌/◌, ◌%◌}
use mathlib.Core.Bool.{Bool, true, false, not, ◌&&◌, ◌||◌}
use mathlib.Core.List.{[], ◌∷◌, ◌++◌, reverse}
use mathlib.Core.Option.{Option, none, some}
use ollame.Prelude.Tests.{leb, ltb, ◌==◌, if◌then◌else◌}
use ollame.Prelude.Texts.{Bytes, codes}

within : ℕ → ℕ → ℕ → Bool
within low high c = leb low c && leb c high

-- The number of bytes of the space that the text begins with, and 0 where it begins with none:
-- the runes of `unicode.IsSpace`.
space_width : Bytes → ℕ
unfolding within
space_width [] = 0
space_width (a ∷ []) = if within 9 13 a || a == 32 then 1 else 0
space_width (a ∷ b ∷ []) =
    if within 9 13 a || a == 32 then 1 else if a == 194 && (b == 133 || b == 160) then 2 else 0
space_width (a ∷ b ∷ c ∷ _) =
    if within 9 13 a || a == 32
    then 1
    else if a == 194 && (b == 133 || b == 160)
    then 2
    else if (a == 225 && b == 154 && c == 128)
        || (a == 226 && b == 128 && (within 128 138 c || c == 168 || c == 169 || c == 175))
        || (a == 226 && b == 129 && c == 159)
        || (a == 227 && b == 128 && c == 128)
    then 3
    else 0

-- The same from the end, on the bytes in reverse order.
space_width_back : Bytes → ℕ
space_width_back [] = 0
space_width_back (a ∷ []) = space_width (a ∷ [])
space_width_back (b ∷ a ∷ []) =
    if leb b 127 then space_width (b ∷ []) else if space_width (a ∷ b ∷ []) == 2 then 2 else 0
space_width_back (c ∷ b ∷ a ∷ _) =
    if leb c 127
    then space_width (c ∷ [])
    else if space_width (b ∷ c ∷ []) == 2
    then 2
    else if space_width (a ∷ b ∷ c ∷ []) == 3
    then 3
    else 0

-- The number is how many bytes of a space are still to drop.
drop_spaces : (Bytes → ℕ) → ℕ → Bytes → Bytes
drop_spaces width n [] = []
drop_spaces width zero (c ∷ s) = elim (width (c ∷ s)) [
  | zero ↦ c ∷ s
  | suc n ↦ drop_spaces width n s
]
drop_spaces width (suc n) (c ∷ s) = drop_spaces width n s

-- `bytes.TrimSpace`, `strings.TrimSpace`
unfoldable pub trim_space : Bytes → Bytes
unfolding drop_spaces space_width space_width_back
trim_space s = reverse (drop_spaces space_width_back 0 (reverse (drop_spaces space_width 0 s)))

-- `strings.ContainsFunc (s, unicode.IsSpace)`
unfoldable pub has_space : Bytes → Bool
unfolding space_width
has_space [] = false
has_space (c ∷ s) = not (space_width (c ∷ s) == 0) || has_space s

is_tail : ℕ → Bool
unfolding within
is_tail c = within 128 191 c

-- The bytes of the rune that the text begins with, and 1 for a byte that is part of none.
rune_width : Bytes → ℕ
unfolding within is_tail
rune_width (a ∷ b ∷ c ∷ d ∷ _) =
    if within 194 223 a && is_tail b
    then 2
    else if within 224 239 a
        && within (if a == 224 then 160 else 128) (if a == 237 then 159 else 191) b
        && is_tail c
    then 3
    else if within 240 244 a
        && within (if a == 240 then 144 else 128) (if a == 244 then 143 else 191) b
        && is_tail c
        && is_tail d
    then 4
    else 1
rune_width (a ∷ b ∷ c ∷ []) =
    if within 194 223 a && is_tail b
    then 2
    else if within 224 239 a
        && within (if a == 224 then 160 else 128) (if a == 237 then 159 else 191) b
        && is_tail c
    then 3
    else 1
rune_width (a ∷ b ∷ []) = if within 194 223 a && is_tail b then 2 else 1
rune_width _ = 1

hex_digit : ℕ → ℕ
hex_digit n = if ltb n 10 then n + 48 else n + 87

-- An ASCII byte of a JSON string, with the escapes for HTML.
quote_byte : ℕ → Bytes
unfolding hex_digit
quote_byte c =
    if c == b'"' || c == b'\\'
    then b'\\' ∷ c ∷ []
    else if c == 8
    then codes "\\b"
    else if c == 12
    then codes "\\f"
    else if c == 10
    then codes "\\n"
    else if c == 13
    then codes "\\r"
    else if c == 9
    then codes "\\t"
    else if ltb c 32 || c == b'<' || c == b'>' || c == b'&'
    then codes "\\u00" ++ (hex_digit (c / 16) ∷ hex_digit (c % 16) ∷ [])
    else c ∷ []

-- U+2028 and U+2029 are escaped too.
quote_wide : Bytes → Option Bytes
quote_wide (a ∷ b ∷ c ∷ _) =
    if a == 226 && b == 128 && (c == 168 || c == 169)
    then some (codes "\\u202" ++ (c - 112) ∷ [])
    else none
quote_wide _ = none

-- The number is how many bytes of a rune are still to come, the flag whether they are copied.
quote_from : Bool → ℕ → Bytes → Bytes
unfolding quote_byte quote_wide rune_width
quote_from copied n [] = []
quote_from copied (suc n) (c ∷ s) =
    let rest = quote_from copied n s in if copied then c ∷ rest else rest
quote_from copied zero (c ∷ s) = elim (rune_width (c ∷ s)) [
  | suc (suc n) ↦ elim (quote_wide (c ∷ s)) [
    | some escape ↦ escape ++ quote_from false (n + 1) s
    | none ↦ c ∷ quote_from true (n + 1) s
  ]
  | _ ↦
      let rest = quote_from true 0 s in
      if ltb c 128 then quote_byte c ++ rest else codes "\\ufffd" ++ rest
]

-- `json.Marshal` of a string
unfoldable pub quote : Bytes → Bytes
unfolding quote_from
quote s = b'"' ∷ (quote_from true 0 s ++ b'"' ∷ [])
