-- ===== src/Glob.antt =====
-- internal/glob/glob.go: the translation of a glob into a regular expression. The package regexp is
-- an argument: the text of an expression gives the function that matches it, or none. A pattern
-- is taken byte by byte: a rune beyond ASCII, which is copied, is copied in its bytes.
pub mod Classes
mod Tests
use ollame.Prelude.{
  ℕ, Bool, true, false, ◌||◌, List, [], ◌∷◌, ◌++◌, Option, none, some, Bytes, codes, ◌==◌, Result,
  ok, err, ◌>>=◌, if◌then◌else◌,
}

pub data GlobError : Type 0 where
  trailing_escape trailing_class_escape bad_class bad_expression : GlobError

-- Where the loops of `Compile` stand: outside a class, behind its bracket, and in it, where the flag
-- says whether a member was read; an escape is open behind a backslash.
pub data Mode : Type 0 where
  outside escaped class_open class_escaped : Mode
  in_class : Bool → Mode

byte_among : Bytes → ℕ → Bool
byte_among [] c = false
byte_among (x ∷ xs) c = c == x || byte_among xs c

-- `regexp.QuoteMeta` of one byte
unfoldable pub quote_meta : ℕ → Bytes
unfolding byte_among
quote_meta c = if byte_among (codes "\\.+*?()|[]{}^$") c then b'\\' ∷ c ∷ [] else c ∷ []

-- The text that a byte adds, and the mode behind it.
abbrev Step : Type 0
Step = Result GlobError (Bytes × Mode)

class_step : Bool → ℕ → Step
class_step read c =
    if c == b']'
    then (if read then ok (codes "]", outside) else err bad_class)
    else if c == b'\\'
    then ok ([], class_escaped)
    else if c == b'['
    then ok (codes "\\[", in_class true)
    else ok (c ∷ [], in_class true)

unfoldable pub step : Mode → ℕ → Step
unfolding class_step quote_meta
step outside c =
    if c == b'*'
    then ok (codes ".*", outside)
    else if c == b'?'
    then ok (codes ".", outside)
    else if c == b'\\'
    then ok ([], escaped)
    else if c == b'['
    then ok (codes "[", class_open)
    else ok (quote_meta c, outside)
step escaped c = ok (quote_meta c, outside)
step class_open c =
    if c == b'!' || c == b'^' then ok (codes "^", in_class false) else class_step false c
step (in_class read) c = class_step read c
step class_escaped c = ok (quote_meta c, in_class true)

-- The end of the pattern
unfoldable pub at_end : Mode → Result GlobError Bytes
at_end outside = ok []
at_end escaped = err trailing_escape
at_end class_escaped = err trailing_class_escape
at_end _ = err bad_class

unfoldable pub translate : Mode → Bytes → Result GlobError Bytes
unfolding step at_end
translate mode [] = at_end mode
translate mode (c ∷ pattern) =
    step mode c >>= λ (out, mode'). translate mode' pattern >>= λ rest. ok (out ++ rest)

-- The text that `Compile` gives to `regexp.Compile`.
unfoldable pub expression : Bytes → Result GlobError Bytes
unfolding translate
expression pattern =
    translate outside pattern >>= λ body. ok (codes "(?s)\\A" ++ (body ++ codes "\\z"))

abbrev pub Pattern : Type 0
Pattern = Bytes → Bool

module _ (regexp : Bytes → Option Pattern) where
  abbrev compiled : Bytes → Result GlobError Pattern
  compiled text = elim (regexp text) [ none ↦ err bad_expression | some p ↦ ok p ]

  -- `Compile`; a pattern that it returns has an expression, so `Match` is the function.
  unfoldable pub compile : Bytes → Result GlobError Pattern
  unfolding expression
  compile pattern = expression pattern >>= compiled

  -- `CompileAll`
  unfoldable pub compile_all : List Bytes → Result GlobError (List Pattern)
  unfolding compile
  compile_all [] = ok []
  compile_all (text ∷ patterns) =
      compile text >>= λ p. compile_all patterns >>= λ rest. ok (p ∷ rest)

-- `Any`
unfoldable pub any : List Pattern → Bytes → Bool
any [] value = false
any (p ∷ patterns) value = p value || any patterns value
