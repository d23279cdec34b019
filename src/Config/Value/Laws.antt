-- ===== src/Config/Value/Laws.antt =====
-- The laws of the maps of JSON values.
use ollame.Prelude.{
  ◌∙◌, ◌≡◌, refl, arith, Bool, Bytes, bytes_eq, bytes_eq_iff, none, some, Bool-cases, if◌then◌else◌,
  inl, inr, ap, ◌∙◌,
}
use ollame.Config.Value.{
  Value, Fields, empty, field, get, put, remove, without, as_map, merge_value, merge_map,
}

pub get-put :
    (k j : Bytes) (v : Value) (m : Fields)
    → get j (put k v m) ≡ (if bytes_eq k j then some v else get j m)
unfolding get put
get-put k j v empty = refl
get-put k j v (field i w m) =
    ground (arith, bytes_eq_iff k j, bytes_eq_iff i k, bytes_eq_iff i j, get-put k j v m)

pub get-remove :
    (k j : Bytes) (m : Fields) → get j (remove k m) ≡ (if bytes_eq k j then none else get j m)
unfolding get remove
get-remove k j empty = ground arith
get-remove k j (field i w m) =
    ground (arith, bytes_eq_iff k j, bytes_eq_iff i k, bytes_eq_iff i j, get-remove k j m)

pub get-without :
    (test : Bytes → Bool) (j : Bytes) (m : Fields)
    → get j (without test m) ≡ (if test j then none else get j m)
unfolding get without
get-without test j empty = ground arith
get-without test j (field i w m) = elim (Bool-cases (bytes_eq i j)) [
  | inl same ↦
      let e : i ≡ j = (bytes_eq_iff i j).0 same in ground (arith, ap test e, get-without test j m)
  | inr other ↦ ground (arith, get-without test j m)
]

-- A key that neither map has is not in the merged one.
pub get-merge_map :
    (k : Bytes) (base update : Fields)
    → get k base ≡ none
    → get k update ≡ none
    → get k (merge_map base update) ≡ none
unfolding merge_map get
get-merge_map k base empty absent h = absent
get-merge_map k base (field j v update) absent h = elim (Bool-cases (bytes_eq j k)) [
  | inl same ↦ absurd (cc (rw same at h))
  | inr other ↦
      let merged = merge_value (as_map (get j base)) v in
      let still : get k (put j merged base) ≡ none = get-put j k merged base ∙ rw other absent in
      get-merge_map k (put j merged base) update still (rw other at h)
]
