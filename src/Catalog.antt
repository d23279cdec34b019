-- ===== src/Catalog.antt =====
-- internal/catalog/catalog.go: the types, and `Resolve`, `AllowsTarget`, `Len` and `Entries`. The
-- copies that `cloneEntry` makes are the entries themselves, as nothing here changes one in place. A
-- catalog that is nil is `none`.
pub mod Entries
pub mod Apply
pub mod Build
pub mod Listed
pub mod Legal
mod Tests
use ollame.Prelude.{
  ℕ, ℤ, pos, negsuc, Bool, true, false, not, ◌&&◌, ◌||◌, List, [], ◌∷◌, ◌++◌, map, Option, none,
  some, Bytes, codes, bytes_eq, contains, Dict, lookup, length, index, ends_with, take, ◌-◌,
  to_lower, ltb, Result, ok, err, if◌then◌else◌,
}
use ollame.Prelude.Utf8.{trim_space}
use ollame.Config.Types.{Behavior}
use ollame.Config.Value.{Value, Fields}
use ollame.Config.Load.{no_behavior}

pub data CatalogError : Type 0 where
  not_found model_required : CatalogError

pub data Knowledge : Type 0 where
  unknown denied known : Knowledge

-- A `time.Time` in seconds and nanoseconds
abbrev pub Time : Type 0
Time = ℤ × ℕ

pub record Info : Type 0 where
  pub mode : Bytes
  pub max_input_tokens : ℤ
  pub max_tokens : ℤ
  pub supports_tools : Option Bool
  pub supports_vision : Option Bool
  pub supports_reasoning : Option Bool
  pub output_vector_size : ℤ

pub record Model : Type 0 where
  pub id : Bytes
  pub created : ℤ
  pub info : Info

pub record Details : Type 0 where
  pub parent_model : Bytes
  pub format : Bytes
  pub family : Bytes
  pub families : List Bytes
  pub parameter_size : Bytes
  pub quantization_level : Bytes
  pub context_length : ℤ
  pub embedding_length : ℤ

pub record Entry : Type 0 where
  pub name : Bytes
  pub model : Bytes
  pub target : Bytes
  pub modified_at : Time
  pub size : ℤ
  pub digest : Bytes
  pub details : Details
  pub capabilities : List Bytes
  pub alias : Bool
  pub system : Bytes
  pub options : Option Fields
  pub think : Value
  pub behavior : Behavior
  pub knowledge : Dict Knowledge
  pub architecture : Bytes
  pub provenance : List Bytes
  pub explicit_insert : Bool

-- `targets` lists the keys of the map, whose values are all true.
pub record Catalog : Type 0 where
  pub by_name : Dict Entry
  pub raw : Dict Bytes
  pub targets : List Bytes
  pub default_tag : Bytes
  pub first_seen : Dict Time

-- `Len`
unfoldable pub len : Option Catalog → ℕ
len none = 0
len (some c) = length c.by_name

-- `AllowsTarget`
unfoldable pub allows_target : Option Catalog → Bytes → Bool
allows_target none target = false
allows_target (some c) target = contains c.targets target

-- `<` on strings
unfoldable pub bytes_lt : Bytes → Bytes → Bool
bytes_lt [] [] = false
bytes_lt [] (y ∷ ys) = true
bytes_lt (x ∷ xs) [] = false
bytes_lt (x ∷ xs) (y ∷ ys) =
    let rest = bytes_lt xs ys in if ltb x y then true else if ltb y x then false else rest

unfoldable pub insert_by : {A : Type 0} → (A → Bytes) → A → List A → List A
unfolding bytes_lt
insert_by key x [] = x ∷ []
insert_by key x (y ∷ ys) =
    let rest = insert_by key x ys in if bytes_lt (key y) (key x) then y ∷ rest else x ∷ y ∷ ys

-- `sort.Slice` by a key
unfoldable pub sort_by : {A : Type 0} → (A → Bytes) → List A → List A
unfolding insert_by
sort_by key [] = []
sort_by key (x ∷ xs) = insert_by key x (sort_by key xs)

-- `Entries`
unfoldable pub entries : Option Catalog → List Entry
unfolding sort_by
entries none = []
entries (some c) = sort_by (λ e. e.name) (map (λ (_, e). e) c.by_name)

-- `strings.CutSuffix (s, suffix)`, the suffix first
unfoldable pub cut_suffix : Bytes → Bytes → Option Bytes
unfolding ends_with
cut_suffix suffix s = if ends_with suffix s then some (take (length s - length suffix) s) else none

-- The zero time, the first of January of the year 1
abbrev pub zero_time : Time
zero_time = (negsuc 62135596799, 0)

abbrev pub no_details : Details
no_details = record {
  parent_model = [];
  format = [];
  family = [];
  families = [];
  parameter_size = [];
  quantization_level = [];
  context_length = pos 0;
  embedding_length = pos 0;
}

-- The entry of which every field is zero.
abbrev pub no_entry : Entry
no_entry = record {
  name = [];
  model = [];
  target = [];
  modified_at = zero_time;
  size = pos 0;
  digest = [];
  details = no_details;
  capabilities = [];
  alias = false;
  system = [];
  options = none;
  think = Value.null;
  behavior = no_behavior;
  knowledge = [];
  architecture = [];
  provenance = [];
  explicit_insert = false;
}

abbrev or_zero : Option Entry → Entry
or_zero none = no_entry
or_zero (some e) = e

-- `c.byName[name]` behind `name, ok := c.raw[id]`
raw_entry : Catalog → Option Bytes → Option Entry
unfolding lookup
raw_entry c none = none
raw_entry c (some name) = some (or_zero (lookup name c.by_name))

or_else : Option Entry → Option Entry → Option Entry
or_else none other = other
or_else (some e) other = some e

-- The four attempts of `Resolve`, in their order.
by_lower : Catalog → Bytes → Option Entry
unfolding lookup
by_lower c input = lookup (to_lower input) c.by_name

by_tagged : Catalog → Bytes → Option Entry
unfolding lookup index
by_tagged c input = elim (index (codes ":") input) [
  | some _ ↦ none
  | none ↦ lookup (to_lower (input ++ (codes ":" ++ c.default_tag))) c.by_name
]

by_raw_tagged : Catalog → Bytes → Option Entry
unfolding raw_entry cut_suffix
by_raw_tagged c input = elim (cut_suffix (codes ":" ++ c.default_tag) input) [
  | none ↦ none
  | some id ↦ raw_entry c (lookup id c.raw)
]

find_entry : Catalog → Bytes → Option Entry
unfolding by_lower by_tagged by_raw_tagged raw_entry or_else
find_entry c input = or_else (by_lower c input) (
    or_else (by_tagged c input)
      (or_else (by_raw_tagged c input) (raw_entry c (lookup input c.raw))))

found : Option Entry → Result CatalogError Entry
found none = err not_found
found (some e) = ok e

-- `Resolve`
unfoldable pub resolve : Option Catalog → Bytes → Result CatalogError Entry
unfolding find_entry found trim_space bytes_eq
resolve c requested =
    if bytes_eq (trim_space requested) []
    then err model_required
    else elim c [ none ↦ err not_found | some c' ↦ found (find_entry c' (trim_space requested)) ]
