-- ===== src/Config/Value.antt =====
-- The values of type `any` that TOML and JSON give to the configuration (`Alias.Options`,
-- `Alias.Think`, `Behavior.ExtraBody`), with the functions of internal/catalog on them.
pub mod Laws
use ollame.Prelude.{Bool, Bytes, Option, none, some, bytes_eq, if◌then◌else◌}

-- A number stands by its text; a map has no key twice.
mutual
  pub data Value : Type 0 where
    null : Value
    boolean : Bool → Value
    text number : Bytes → Value
    array : Values → Value
    object : Fields → Value

  pub data Values : Type 0 where
    nil : Values
    cons : Value → Values → Values

  pub data Fields : Type 0 where
    empty : Fields
    field : Bytes → Value → Fields → Fields

-- `value, ok := m[key]`
unfoldable pub get : Bytes → Fields → Option Value
get k empty = none
get k (field j v m) = if bytes_eq j k then some v else get k m

-- `m[key] = value`
unfoldable pub put : Bytes → Value → Fields → Fields
put k v empty = field k v empty
put k v (field j w m) = if bytes_eq j k then field k v m else field j w (put k v m)

-- `previous, wasMap := v.(map[string]any)`
abbrev pub as_map : Option Value → Option Fields
as_map (some (object m)) = some m
as_map _ = none

-- The body of the loop in `mergeMap`, and the loop. The copies of `cloneValue` are the values
-- themselves: nothing here changes a map in place.
unfoldable mutual
  unfolding get put

  pub merge_value : Option Fields → Value → Value
  merge_value (some previous) (object nested) = object (merge_map previous nested)
  merge_value _ v = v

  pub merge_map : Fields → Fields → Fields
  merge_map base empty = base
  merge_map base (field k v update) =
      merge_map (put k (merge_value (as_map (get k base)) v) base) update

-- `delete (m, key)`
unfoldable pub remove : Bytes → Fields → Fields
remove k empty = empty
remove k (field j v m) = let rest = remove k m in if bytes_eq j k then rest else field j v rest

-- A loop that deletes the keys of which the test holds.
unfoldable pub without : (Bytes → Bool) → Fields → Fields
without test empty = empty
without test (field j v m) = let rest = without test m in if test j then rest else field j v rest
