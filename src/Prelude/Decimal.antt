-- ===== src/Prelude/Decimal.antt =====
-- `strconv.FormatInt` and `strconv.ParseInt` in base 10, with 64 bits.
use Prim.Native.Nat.{ℕ, zero, suc, ◌+◌, ◌-◌, ◌*◌, ◌/◌, ◌%◌, ◌^◌, ◌<◌}
use mathlib.Core.Path.{◌≡◌, refl, ap, ◌∙◌}
use mathlib.Core.Bool.{Bool, true, false, ◌&&◌}
use mathlib.Core.Logic.{inl, inr}
use mathlib.Core.List.{[], ◌∷◌, ◌++◌}
use mathlib.Core.Option.{Option, none, some}
use native.Mathlib.Omega.{arith}
use ollame.Prelude.Tests.{ltb, leb, ◌==◌, if◌then◌else◌, Bool-cases, Option-cases}
use ollame.Prelude.Int.{ℤ, pos, negsuc}
use ollame.Prelude.Texts.{Bytes}

unfoldable pub is_digit : ℕ → Bool
is_digit c = leb b'0' c && leb c b'9'

-- The fuel is more than the number, which each round divides by ten.
to_digits : ℕ → ℕ → Bytes
to_digits zero n = []
to_digits (suc fuel) n =
    let rest = to_digits fuel (n / 10) ++ (b'0' + n % 10) ∷ [] in
    if ltb n 10 then (b'0' + n) ∷ [] else rest

unfoldable pub format_nat : ℕ → Bytes
unfolding to_digits
format_nat n = to_digits (suc n) n

unfoldable pub format_int : ℤ → Bytes
unfolding format_nat
format_int (pos n) = format_nat n
format_int (negsuc n) = b'-' ∷ format_nat (n + 1)

-- The value of the digits behind those read; at the end, at least one was read.
unfoldable pub read_digits : Bool → ℕ → Bytes → Option ℕ
unfolding is_digit
read_digits some_read n [] = if some_read then some n else none
read_digits some_read n (c ∷ s) =
    let rest = read_digits true (n * 10 + (c - b'0')) s in if is_digit c then rest else none

-- The range of an `int64`
in_range : Bool → ℕ → Option ℤ
in_range true zero = some (pos 0)
in_range true (suc n) = if leb (suc n) (2 ^ 63) then some (negsuc n) else none
in_range false n = if ltb n (2 ^ 63) then some (pos n) else none

unfoldable pub parse_signed : Bool → Bytes → Option ℤ
unfolding in_range read_digits
parse_signed minus s = elim (read_digits false 0 s) [ none ↦ none | some n ↦ in_range minus n ]

-- `strconv.ParseInt (s, 10, 64)`
unfoldable pub parse_int : Bytes → Option ℤ
unfolding parse_signed
parse_int [] = none
parse_int (c ∷ s) =
    if c == b'-'
    then parse_signed true s
    else if c == b'+'
    then parse_signed false s
    else parse_signed false (c ∷ s)

abbrev pub all_digits : Bytes → Bool
all_digits [] = true
all_digits (c ∷ s) = is_digit c && all_digits s

pub all_digits-append : (s t : Bytes) → all_digits (s ++ t) ≡ (all_digits s && all_digits t)
all_digits-append [] t = refl
all_digits-append (c ∷ s) t = ground (arith, all_digits-append s t)

to_digits-all_digits : (fuel n : ℕ) → all_digits (to_digits fuel n) ≡ true
unfolding to_digits is_digit
to_digits-all_digits zero n = refl
to_digits-all_digits (suc fuel) n = ground (
  arith,
  to_digits-all_digits fuel (n / 10),
  all_digits-append (to_digits fuel (n / 10)) ((b'0' + n % 10) ∷ []),
)

pub format_nat-all_digits : (n : ℕ) → all_digits (format_nat n) ≡ true
unfolding format_nat
format_nat-all_digits n = to_digits-all_digits (suc n) n

-- One more digit at the end.
read_digits_snoc :
    (r : Bool) (a n d : ℕ) (s : Bytes)
    → read_digits r a s ≡ some n
    → d < 10
    → read_digits r a (s ++ (b'0' + d) ∷ []) ≡ some (n * 10 + d)
unfolding read_digits is_digit
read_digits_snoc r a n d [] h l = ground arith
read_digits_snoc r a n d (c ∷ s) h l = elim (Bool-cases (is_digit c)) [
  | inl e ↦ rw e (read_digits_snoc true (a * 10 + (c - b'0')) n d s (rw e at h) l)
  | inr e ↦ absurd (ground arith)
]

read-to_digits : (fuel n : ℕ) → n < fuel → read_digits false 0 (to_digits fuel n) ≡ some n
unfolding read_digits to_digits is_digit
read-to_digits zero n h = elim h [ ]
read-to_digits (suc fuel) n h = elim (Bool-cases (ltb n 10)) [
  | inl e ↦ rw e (ground arith)
  | inr e ↦ rw e (
      read_digits_snoc false 0 (n / 10) (n % 10) (to_digits fuel (n / 10))
        (read-to_digits fuel (n / 10) (ground arith)) (omega arith)
      ∙ ap some (omega arith))
]

pub read-format_nat : (n : ℕ) → read_digits false 0 (format_nat n) ≡ some n
unfolding format_nat
read-format_nat n = read-to_digits (suc n) n (omega arith)

-- Digits do not begin with a sign.
parse_unsigned : (s : Bytes) → all_digits s ≡ true → parse_int s ≡ parse_signed false s
unfolding parse_int parse_signed read_digits is_digit
parse_unsigned [] h = refl
parse_unsigned (c ∷ s) h = ground arith

pub parse-format_nat : (n : ℕ) → n < 2 ^ 63 → parse_int (format_nat n) ≡ some (pos n)
unfolding parse_signed
parse-format_nat n h =
    parse_unsigned (format_nat n) (format_nat-all_digits n)
    ∙ rw (parse_signed, read-format_nat n) (ground arith)

in_range-bound : (minus : Bool) (k n : ℕ) → in_range minus k ≡ some (pos n) → n < 2 ^ 63
unfolding in_range
in_range-bound true zero n h = ground arith
in_range-bound true (suc k) n h = ground arith
in_range-bound false k n h = ground arith

parse_signed-bound :
    (minus : Bool) (s : Bytes) (n : ℕ) → parse_signed minus s ≡ some (pos n) → n < 2 ^ 63
unfolding parse_signed
parse_signed-bound minus s n h = elim (Option-cases (read_digits false 0 s)) [
  | inl e ↦ absurd (ground arith)
  | inr (k, e) ↦ in_range-bound minus k n (rw (parse_signed, e) at h)
]

-- What is read lies in the range of an `int64`.
pub parse_int-bound : (s : Bytes) (n : ℕ) → parse_int s ≡ some (pos n) → n < 2 ^ 63
unfolding parse_int
parse_int-bound [] n h = absurd cc
parse_int-bound (c ∷ s) n h = ground (
  arith,
  parse_signed-bound true s n,
  parse_signed-bound false s n,
  parse_signed-bound false (c ∷ s) n,
)
