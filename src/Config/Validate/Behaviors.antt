-- ===== src/Config/Validate/Behaviors.antt =====
-- internal/config/validate.go: `validateBehavior`.
pub mod Styles
use ollame.Prelude.{
  ℕ, ℤ, pos, leb_ℤ, ltb_ℤ, Bool, true, false, not, ◌&&◌, ◌||◌, List, [], ◌∷◌, Option, none, some,
  Bytes, codes, bytes_eq, leb, ◌==◌, ok, err, ◌>>=◌, if◌then◌else◌,
}
use ollame.Config.Names.{valid_capability}
use ollame.Config.Types.{Behavior}
use ollame.Config.Value.{Fields, get}
use ollame.Config.Validate.Enums.{
  Check, validate_enum, bad_override_capability, bad_override_dimensions, protected_field,
  bad_parameter_size,
}

unfoldable pub all_capable : List Bytes → Bool
all_capable [] = true
all_capable (c ∷ caps) = valid_capability c && all_capable caps

-- The loop over a slice or a pointer that may be nil.
abbrev pub capable : Option (List Bytes) → Bool
capable none = true
capable (some caps) = all_capable caps

given_enum : Bytes → Option Bytes → Check
given_enum name none = ok tt
given_enum name (some value) = validate_enum name value

abbrev not_positive : Option ℤ → Bool
not_positive none = false
not_positive (some n) = leb_ℤ n (pos 0)

abbrev negative : Option ℤ → Bool
negative none = false
negative (some n) = ltb_ℤ n (pos 0)

abbrev pub protected_keys : List Bytes
protected_keys =
    codes "model"
    ∷ codes "messages"
    ∷ codes "prompt"
    ∷ codes "input"
    ∷ codes "stream"
    ∷ codes "stream_options"
    ∷ codes "n"
    ∷ codes "user"
    ∷ []

-- `_, ok := b.ExtraBody[key]`
unfoldable pub has_key : Option Fields → Bytes → Bool
unfolding get
has_key none key = false
has_key (some m) key = elim (get key m) [ none ↦ false | some _ ↦ true ]

unfoldable pub unprotected : Option Fields → List Bytes → Check
unfolding has_key
unprotected m [] = ok tt
unprotected m (key ∷ keys) = if has_key m key then err (protected_field key) else unprotected m keys

digit : ℕ → Bool
digit c = leb b'0' c && leb c b'9'

-- The states of `^[0-9]+(?:\.[0-9]+)?[KMBT]$`: before a digit that must come, with the flag that
-- says whether the point is still allowed; after one; at the end.
pub data ParameterSize : Type 0 where
  want have : Bool → ParameterSize
  unit : ParameterSize

parameter_step : ParameterSize → ℕ → Option ParameterSize
unfolding digit
parameter_step (want point) c = if digit c then some (have point) else none
parameter_step (have point) c =
    if digit c
    then some (have point)
    else if point && c == b'.'
    then some (want false)
    else if c == b'K' || c == b'M' || c == b'B' || c == b'T'
    then some unit
    else none
parameter_step unit c = none

parameter_match : ParameterSize → Bytes → Bool
unfolding parameter_step
parameter_match unit [] = true
parameter_match (want _) [] = false
parameter_match (have _) [] = false
parameter_match s (c ∷ rest) = elim (parameter_step s c) [
  | none ↦ false
  | some s' ↦ parameter_match s' rest
]

unfoldable pub valid_parameter_size : Option Bytes → Bool
unfolding parameter_match
valid_parameter_size none = true
valid_parameter_size (some s) = bytes_eq s [] || parameter_match (want true) s

unfoldable pub validate_behavior : Behavior → Check
unfolding given_enum
validate_behavior b =
    if not (capable b.add_capabilities && capable b.remove_capabilities && capable b.capabilities)
    then err bad_override_capability
    else given_enum (codes "compat.think_style") b.think_style >>= λ _.
        given_enum (codes "compat.think_off") b.think_off >>= λ _.
        given_enum (codes "upstream.max_tokens_field") b.max_tokens_field >>= λ _.
        given_enum (codes "generate.fim") b.fim >>= λ _.
        if not_positive b.context_length || negative b.embedding_length
        then err bad_override_dimensions
        else unprotected b.extra_body protected_keys >>= λ _.
            if valid_parameter_size b.parameter_size then ok tt else err bad_parameter_size
