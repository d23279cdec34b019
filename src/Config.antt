-- ===== src/Config.antt =====
-- internal/config: the check of token names, which internal/auth calls too; the rest in the children.
pub mod Value
pub mod Types
pub mod Names
pub mod Size
pub mod Load
mod Tests
pub mod Validate
use ollame.Prelude.{
  ℕ, Bool, true, false, ◌&&◌, ◌||◌, [], ◌∷◌, Bytes, length, ltb, leb, ◌==◌, if◌then◌else◌,
}

-- A lower case letter or a digit; with the flag, which says `i > 0`, also one of `.`, `_`, `-`.
token_char : Bool → ℕ → Bool
token_char later c =
    (leb b'a' c && leb c b'z')
    || (leb b'0' c && leb c b'9')
    || (later && (c == b'.' || c == b'_' || c == b'-'))

-- The loop of `ValidTokenName`. A rune beyond ASCII has bytes of 128 and more, which are refused
-- as the rune is.
token_chars : Bool → Bytes → Bool
token_chars later [] = true
token_chars later (c ∷ name) = token_char later c && token_chars true name

unfoldable pub valid_token_name : Bytes → Bool
unfolding token_chars token_char
valid_token_name name =
    if ltb (length name) 1 || ltb 63 (length name) then false else token_chars false name
