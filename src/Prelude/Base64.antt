-- ===== src/Prelude/Base64.antt =====
-- `base64.StdEncoding.DecodeString`: groups of four digits, line breaks skipped, padding at the end
-- only, the bits behind the last byte ignored.
use Prim.Native.Nat.{ℕ, ◌+◌, ◌-◌, ◌*◌, ◌/◌, ◌%◌}
use mathlib.Core.Bool.{◌&&◌, ◌||◌}
use mathlib.Core.List.{[], ◌∷◌, ◌++◌}
use mathlib.Core.Option.{Option, none, some}
use ollame.Prelude.Tests.{leb, ◌==◌, if◌then◌else◌}
use ollame.Prelude.Texts.{Bytes}

sextet : ℕ → Option ℕ
sextet c =
    if leb b'A' c && leb c b'Z'
    then some (c - 65)
    else if leb b'a' c && leb c b'z'
    then some (c - 71)
    else if leb b'0' c && leb c b'9'
    then some (c + 4)
    else if c == b'+'
    then some 62
    else if c == b'/'
    then some 63
    else none

infixl 5 ◌>>=◌
abbrev ◌>>=◌ : {A B : Type 0} → Option A → (A → Option B) → Option B
none >>= f = none
some a >>= f = f a

one_byte : ℕ → ℕ → Option Bytes
one_byte a b = do x ← sextet a; y ← sextet b; some ((x * 4 + y / 16) ∷ [])

two_bytes : ℕ → ℕ → ℕ → Option Bytes
two_bytes a b c = do
  x ← sextet a
  y ← sextet b
  z ← sextet c
  some ((x * 4 + y / 16) ∷ ((y % 16) * 16 + z / 4) ∷ [])

three_bytes : ℕ → ℕ → ℕ → ℕ → Option Bytes
three_bytes a b c d = do
  x ← sextet a
  y ← sextet b
  z ← sextet c
  u ← sextet d
  some ((x * 4 + y / 16) ∷ ((y % 16) * 16 + z / 4) ∷ ((z % 4) * 64 + u) ∷ [])

-- A group at the end of the text: one or two `=` stand for missing digits.
last_group : ℕ → ℕ → ℕ → ℕ → Option Bytes
last_group a b c d =
    if c == b'=' && d == b'='
    then one_byte a b
    else if d == b'='
    then two_bytes a b c
    else three_bytes a b c d

groups : Bytes → Option Bytes
groups [] = some []
groups (a ∷ b ∷ c ∷ d ∷ []) = last_group a b c d
groups (a ∷ b ∷ c ∷ d ∷ e ∷ rest) = do
  first ← three_bytes a b c d
  more ← groups (e ∷ rest)
  some (first ++ more)
groups _ = none

without_breaks : Bytes → Bytes
without_breaks [] = []
without_breaks (c ∷ s) = if c == b'\n' || c == b'\r' then without_breaks s else c ∷ without_breaks s

unfoldable pub decode : Bytes → Option Bytes
unfolding groups last_group one_byte two_bytes three_bytes sextet without_breaks
decode s = groups (without_breaks s)
