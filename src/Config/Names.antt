-- ===== src/Config/Names.antt =====
-- internal/config/validate.go: the names of aliases (`NormalizeAlias`), header names (`validHeader`)
-- and the smaller checks of values. Letters are ASCII letters where their case is changed.
pub mod Shape
use ollame.Prelude.{
  ℕ, ◌+◌, Bool, true, false, not, ◌&&◌, ◌||◌, List, [], ◌∷◌, ◌++◌, some, none, Bytes, codes,
  bytes_eq, leb, ltb, ◌==◌, length, count, cut, to_lower, contains, Result, ok, err, if◌then◌else◌,
}
use ollame.Prelude.Utf8.{trim_space, has_space}
use ollame.Config.Value.{Value}
use mathlib.Core.List.{reverse}

pub data NameError : Type 0 where
  invalid_alias_name invalid_model_tag : NameError

-- `strings.ContainsAny (s, chars)`, the characters first, which are ASCII
abbrev pub byte_in : Bytes → ℕ → Bool
byte_in [] c = false
byte_in (x ∷ chars) c = x == c || byte_in chars c

abbrev pub contains_any : Bytes → Bytes → Bool
contains_any chars [] = false
contains_any chars (c ∷ s) = byte_in chars c || contains_any chars s

abbrev control_tail : Bytes → Bool
control_tail [] = false
control_tail (d ∷ _) = leb 128 d && leb d 159

-- `strings.ContainsFunc (s, unicode.IsControl)`: the runes up to U+001F and U+007F to U+009F
abbrev pub has_control : Bytes → Bool
has_control [] = false
has_control (c ∷ s) = ltb c 32 || c == 127 || (c == 194 && control_tail s) || has_control s

drop_byte : ℕ → Bytes → Bytes
drop_byte x [] = []
drop_byte x (c ∷ s) = if c == x then drop_byte x s else c ∷ s

-- `strings.Trim (s, "/")`
pub trim_byte : ℕ → Bytes → Bytes
unfolding drop_byte
trim_byte x s = reverse (drop_byte x (reverse (drop_byte x s)))

abbrev colon : Bytes
colon = b':' ∷ []

-- The base and the tag, checked: the end of `NormalizeAlias`.
join_tag : Bytes → Bytes → Result NameError Bytes
join_tag base suffix =
    if bytes_eq suffix [] || contains_any (codes ":/ \\?#") suffix || has_control suffix
    then err invalid_model_tag
    else ok (base ++ colon ++ to_lower suffix)

with_base : Bytes → Bytes → Result NameError Bytes
unfolding trim_byte join_tag
with_base base suffix =
    if bytes_eq base [] || bytes_eq (trim_byte b'/' base) []
    then err invalid_alias_name
    else join_tag base suffix

-- `strings.Cut (name, ":")`, and the default tag where there is no colon.
split_name : Bytes → Bytes → Result NameError Bytes
unfolding with_base cut
split_name name tag = elim (cut colon name) [
  | none ↦ with_base name tag
  | some (base, suffix) ↦ with_base base suffix
]

bad_name : Bytes → Bool
bad_name name =
    bytes_eq name []
    || ltb 1 (count b':' name)
    || contains_any (codes "?#\\") name
    || has_space name
    || has_control name

checked_name : Bytes → Bytes → Result NameError Bytes
unfolding bad_name split_name
checked_name name tag = if bad_name name then err invalid_alias_name else split_name name tag

-- `NormalizeAlias`
unfoldable pub normalize_alias : Bytes → Bytes → Result NameError Bytes
unfolding checked_name trim_space
normalize_alias name tag = checked_name (to_lower (trim_space name)) tag

-- `ValidThink`
unfoldable pub valid_think : Value → Bool
valid_think Value.null = true
valid_think (Value.boolean _) = true
valid_think (Value.text v) =
    contains (codes "low" ∷ codes "medium" ∷ codes "high" ∷ codes "max" ∷ []) v
valid_think _ = false

abbrev all_capabilities : List Bytes
all_capabilities =
    codes "completion"
    ∷ codes "tools"
    ∷ codes "insert"
    ∷ codes "vision"
    ∷ codes "embedding"
    ∷ codes "thinking"
    ∷ codes "image"
    ∷ codes "audio"
    ∷ []

-- `validCapability`
unfoldable pub valid_capability : Bytes → Bool
valid_capability value = contains all_capabilities value

header_byte : ℕ → Bool
header_byte c =
    (leb b'a' c && leb c b'z')
    || (leb b'A' c && leb c b'Z')
    || (leb b'0' c && leb c b'9')
    || byte_in (codes "!#$%&'*+-.^_`|~") c

header_bytes : Bytes → Bool
header_bytes [] = true
header_bytes (c ∷ name) = header_byte c && header_bytes name

-- `validHeader`. The bytes of a rune beyond ASCII are refused as the rune is.
unfoldable pub valid_header : Bytes → Bool
unfolding header_byte header_bytes
valid_header name = if bytes_eq name [] then false else header_bytes name
