-- ===== src/Prelude/Texts.antt =====
-- Go's strings and byte slices as lists of numbers, with the functions of `strings` and `bytes`
-- that the program calls.
use Prim.Native.Nat.{ℕ, suc, ◌+◌, ◌-◌}
use Prim.Native.Char.{code}
use Prim.Native.String.{String}
use mathlib.Core.Path.{◌≡◌}
use mathlib.Core.Logic.{◌↔◌}
use mathlib.Core.Bool.{Bool, true, false, ◌&&◌}
use mathlib.Core.List.{List, [], ◌∷◌, map}
use mathlib.Core.Option
use mathlib.Core.Option.{Option, none, some}
use native.Mathlib.Omega.{arith}
use ollame.Prelude.Tests.{◌==◌, leb, if◌then◌else◌}
use ollame.Prelude.Lists.{length, drop}

abbrev pub Bytes : Type 0
Bytes = List ℕ

-- The bytes of an ASCII text.
abbrev pub codes : String → Bytes
codes String.[] = []
codes (String.◌∷◌ c s) = code c ∷ codes s

-- `==` on strings, `bytes.Equal`
unfoldable pub bytes_eq : Bytes → Bytes → Bool
bytes_eq [] [] = true
bytes_eq (x ∷ xs) (y ∷ ys) = x == y && bytes_eq xs ys
bytes_eq _ _ = false

pub bytes_eq_iff : (a b : Bytes) → (bytes_eq a b ≡ true) ↔ (a ≡ b)
unfolding bytes_eq
bytes_eq_iff (x ∷ a) (y ∷ b) = ground (arith, bytes_eq_iff a b)
bytes_eq_iff _ _ = ground arith

-- `strings.HasPrefix (s, prefix)`, the prefix first
unfoldable pub starts_with : Bytes → Bytes → Bool
starts_with [] s = true
starts_with (x ∷ p) [] = false
starts_with (x ∷ p) (y ∷ s) = x == y && starts_with p s

-- `strings.HasSuffix (s, suffix)`, the suffix first
unfoldable pub ends_with : Bytes → Bytes → Bool
unfolding bytes_eq
ends_with p s = leb (length p) (length s) && bytes_eq (drop (length s - length p) s) p

-- `strings.Index (s, sep)`, the separator first; Go's -1 is `none`
unfoldable pub index : Bytes → Bytes → Option ℕ
unfolding starts_with
index sep [] = if starts_with sep [] then some 0 else none
index sep (c ∷ s) = if starts_with sep (c ∷ s) then some 0 else Option.map suc (index sep s)

-- `strings.Cut (s, sep)`, the separator first; `none` where it is not found
unfoldable pub cut : Bytes → Bytes → Option (Bytes × Bytes)
unfolding starts_with
cut sep [] = if starts_with sep [] then some ([], []) else none
cut sep (c ∷ s) =
    if starts_with sep (c ∷ s)
    then some ([], drop (length sep) (c ∷ s))
    else Option.map (λ (u, v). (c ∷ u, v)) (cut sep s)

-- `strings.Count (s, sep)` at a separator of one ASCII byte
abbrev pub count : ℕ → Bytes → ℕ
count x [] = 0
count x (c ∷ s) = (if c == x then 1 else 0) + count x s

-- `strings.ToLower` on ASCII
abbrev pub lower : ℕ → ℕ
lower c = if leb b'A' c && leb c b'Z' then c + 32 else c

abbrev pub to_lower : Bytes → Bytes
to_lower = map lower

-- `strings.EqualFold` on ASCII
abbrev pub equal_fold : Bytes → Bytes → Bool
equal_fold a b = bytes_eq (to_lower a) (to_lower b)
