-- ===== src/Translate/Body/Merged.antt =====
-- What the body has in a field that is the client's, until the tags are added.
use ollame.Prelude.{
  ◌≡◌, refl, sym, ap, ◌∙◌, inl, inr, arith, Bool, true, false, List, [], ◌∷◌, Option, none, some,
  Bytes, codes, bytes_eq, bytes_eq_iff, contains, ok, ok_injective, Bool-cases, if◌then◌else◌,
}
use ollame.Config.Types.{Upstream}
use ollame.Config.Value.{Value, Fields, empty, field, text, get, put, remove, without}
use ollame.Config.Value.Laws.{get-put, get-remove, get-without}
use ollame.Catalog.{Entry}
use ollame.Translate.Body.{
  protected_key, is_owned, merge_json, add_extra, extra_of, drop_params, params_of, restore,
  set_own,
}
use ollame.Translate.Body.Keys.{get-set_count, get-set_user}

-- The value that an extra body makes of one field.
abbrev pub extended_at : Bytes → Option Value → Fields → Option Value
extended_at k o empty = o
extended_at k o (field j v extra) =
    extended_at k (if bytes_eq j k then some (merge_json o v) else o) extra

-- A field of the translated request with the extra body of the entry, unless it is dropped.
abbrev pub merged : Fields → Entry → Bytes → Option Value
merged translated entry k =
    if contains (params_of entry.behavior.drop_params) k
    then none
    else extended_at k (get k translated) (extra_of entry.behavior.extra_body)

get-add_extra :
    (encodes : Value → Bool) (k : Bytes) (extra body out : Fields)
    → add_extra encodes body extra ≡ ok out
    → get k out ≡ extended_at k (get k body) extra
unfolding add_extra
get-add_extra encodes k empty body out h = ap (get k) (sym (ok_injective h))
get-add_extra encodes k (field j v extra) body out h = elim (Bool-cases (protected_key j)) [
  | inl bad ↦ absurd (cc (rw bad at h))
  | inr good ↦ elim (Bool-cases (encodes v)) [
    | inr bad ↦ absurd (cc (rw (good, bad) at h))
    | inl fine ↦
        let value = merge_json (get j body) v in
        get-add_extra encodes k extra (put j value body) out (rw (good, fine) at h)
        ∙ ap (λ (o : Option Value). extended_at k o extra)
            (get-put j k value body ∙ at_key (bytes_eq_iff j k).0)
  ]
]
  where
    at_key :
        (bytes_eq j k ≡ true → j ≡ k)
        → (if bytes_eq j k then some (merge_json (get j body) v) else get k body)
          ≡ (if bytes_eq j k then some (merge_json (get k body) v) else get k body)
    at_key same = elim (Bool-cases (bytes_eq j k)) [
      | inl e ↦ rw e (ap (λ (i : Bytes). some (merge_json (get i body) v)) (same e))
      | inr e ↦ rw e refl
    ]

get-drop_params :
    (k : Bytes) (keys : List Bytes) (body : Fields)
    → get k (drop_params keys body) ≡ (if contains keys k then none else get k body)
unfolding drop_params contains
get-drop_params k [] body = refl
get-drop_params k (j ∷ keys) body =
    let first = get-remove j k body in
    let rest = get-drop_params k keys (remove j body) in ground arith

-- A field that is not protected is left alone.
get-restore_other :
    (j : Bytes) (protected body out : Fields)
    → restore body protected ≡ ok out
    → protected_key j ≡ false
    → get j out ≡ get j body
unfolding restore
get-restore_other j empty body out h n = ap (get j) (sym (ok_injective h))
get-restore_other j (field k v protected) body out h n = elim (Bool-cases (protected_key k)) [
  | inr bad ↦ absurd (cc (rw bad at h))
  | inl good ↦ elim (Bool-cases (bytes_eq k j)) [
    | inl same ↦
        let e = ap protected_key ((bytes_eq_iff k j).0 same) in absurd (cc (sym good ∙ e ∙ n))
    | inr other ↦
        get-restore_other j protected (put k v body) out (rw good at h) n
        ∙ get-put k j v body
        ∙ rw other refl
  ]
]

-- What `set_own` sets is owned.
other_than_own :
    (j : Bytes)
    → is_owned j ≡ false
    → (bytes_eq (codes "model") j ≡ false)
      × (bytes_eq (codes "n") j ≡ false)
      × (bytes_eq (codes "user") j ≡ false)
      × (protected_key j ≡ false)
unfolding is_owned protected_key contains
other_than_own j h = (ground arith, ground arith, ground arith, ground arith)

-- All that `Finalize` does before the tags leaves the merged value in a field that it does not own.
pub get-set_own :
    (encodes : Value → Bool) (translated : Fields) (entry : Entry) (protected : Fields)
    (cfg : Upstream) (token j : Bytes) (extended restored : Fields)
    → add_extra encodes translated (extra_of entry.behavior.extra_body) ≡ ok extended
    → restore
        (without is_owned (drop_params (params_of entry.behavior.drop_params) extended))
        protected
      ≡ ok restored
    → is_owned j ≡ false
    → get j (set_own cfg token entry.target protected restored) ≡ merged translated entry j
unfolding set_own
get-set_own encodes translated entry protected cfg token j extended restored added back free =
    let keys = params_of entry.behavior.drop_params in
    let (no_model, no_count, no_user, unprotected) = other_than_own j free in
    get-set_user cfg token j _ no_user
    ∙ get-set_count j (get (codes "n") protected) _ no_count
    ∙ get-put (codes "model") j (text entry.target) restored
    ∙ rw no_model (
        get-restore_other j protected _ restored back unprotected
        ∙ get-without is_owned j (drop_params keys extended)
        ∙ rw free (
            get-drop_params j keys extended
            ∙ ap (λ (o : Option Value). if contains keys j then none else o)
                (get-add_extra encodes j (extra_of entry.behavior.extra_body) translated extended
                  added)))
