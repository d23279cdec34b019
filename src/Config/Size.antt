-- ===== src/Config/Size.antt =====
-- internal/config/types.go: `Size.UnmarshalText` and `Size.MarshalText`.
pub mod RoundTrip
use ollame.Prelude.{
  ℕ, ◌-◌, ◌*◌, ◌/◌, ◌%◌, ◌^◌, ℤ, pos, negsuc, max_int, List, [], ◌∷◌, ◌++◌, none, some, Bytes,
  codes, length, take, ends_with, ltb, Result, ok, err, if◌then◌else◌,
}
use ollame.Prelude.Decimal.{parse_int, format_int}
use ollame.Config.Types.{Size}

pub data SizeError : Type 0 where
  invalid_size unit_required : SizeError

abbrev pub units : List (Bytes × ℕ)
units =
    (codes "GiB", 2 ^ 30)
    ∷ (codes "MiB", 2 ^ 20)
    ∷ (codes "KiB", 2 ^ 10)
    ∷ (codes "GB", 1000000000)
    ∷ (codes "MB", 1000000)
    ∷ (codes "KB", 1000)
    ∷ (codes "B", 1)
    ∷ []

-- An `int64` product of two numbers that are not negative, as the machine has it.
unfoldable pub mul_int64 : ℕ → ℕ → ℤ
mul_int64 a b =
    let product : ℕ = (a * b) % 2 ^ 64 in
    if ltb product (2 ^ 63) then pos product else negsuc (2 ^ 64 - product - 1)

-- The body of the loop behind its `continue`, at the count that was read.
scaled : ℕ → ℤ → Result SizeError Size
unfolding mul_int64
scaled scale (negsuc count) = err invalid_size
scaled scale (pos count) =
    if ltb (max_int / scale) count then err invalid_size else ok (mul_int64 count scale)

with_unit : Bytes → Bytes → ℕ → Result SizeError Size
unfolding scaled
with_unit value name scale = elim (parse_int (take (length value - length name) value)) [
  | none ↦ err invalid_size
  | some count ↦ scaled scale count
]

try_units : Bytes → List (Bytes × ℕ) → Result SizeError Size
unfolding with_unit
try_units value [] = err unit_required
try_units value ((name, scale) ∷ rest) =
    if ends_with name value then with_unit value name scale else try_units value rest

-- `Size.UnmarshalText`
unfoldable pub unmarshal_size : Bytes → Result SizeError Size
unfolding try_units
unmarshal_size value = try_units value units

-- `Size.String`, `Size.MarshalText`
unfoldable pub marshal_size : Size → Bytes
unfolding format_int
marshal_size s = format_int s ++ codes "B"
