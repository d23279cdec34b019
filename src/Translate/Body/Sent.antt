-- ===== src/Translate/Body/Sent.antt =====
-- What can stop a body from being sent, in a program that `Validate` and `Build` let start.
mod Tests
use ollame.Prelude.{
  starts_with, ◌≡◌, refl, ap, ◌∙◌, ◌⊎◌, inl, inr, arith, Bool, true, false, not, ◌&&◌, List, [],
  ◌∷◌, ◌++◌, Option, none, some, Bytes, codes, bytes_eq, bytes_eq_iff, contains, All,
  All-everywhere, ok, err, Result, Bool-cases, Option-cases, lookup-AllEntries,
}
use mathlib.Core.Path.{subst}
use ollame.Glob.{Pattern}
use ollame.Config.Types.{Upstream, Config, Behavior, Alias, Override}
use ollame.Config.Value.{
  Value, Values, Fields, empty, field, boolean, number, text, array, object, nil, cons, get, put,
  without,
}
use ollame.Config.Validate.{Profile, Url, validate, has_key}
use ollame.Config.Validate.Sound.Accepted.{
  request_fields, SparesProtected, validate-SparesProtected,
}
use ollame.Catalog.{Catalog, Entry, Model, Time, resolve, allows_target}
use ollame.Catalog.Entries.{base_behavior}
use ollame.Catalog.Apply.Spares.{has_key-get, override_behavior-SparesProtected}
use ollame.Catalog.Build.{Warning, build}
use ollame.Catalog.Build.Steps.{Closed}
use ollame.Catalog.Listed.{resolve-Listed}
use ollame.Catalog.Legal.{build-Built, Built-Leads, resolve-Legal}
use ollame.Translate.Body.Merged.{merged, get-set_own}
use ollame.Translate.Body.Tags.{adds_tags, NoMetadata, NoTags, add_tags-Tagging, add_tags-off}
use ollame.Translate.Body.{
  invalid_extra, merge_json, FinalizeError, bad_metadata, bad_tags, protected_key, is_owned,
  add_extra, extra_of, drop_params, params_of, restore, set_own, metadata_of, tags_of, texts_of,
  tagged, add_tags, is_empty, finalize, texts, client_tags,
}

-- No key is one of the protected ones.
abbrev Free : Fields → Type 0
Free m = (k : Bytes) → protected_key k ≡ true → get k m ≡ none

Free-tail : (j : Bytes) (v : Value) (m : Fields) → Free (field j v m) → Free m
unfolding get
Free-tail j v m h k p = elim (Bool-cases (bytes_eq j k)) [
  | inl same ↦ let here = h k p in absurd (cc (rw same at here))
  | inr other ↦ let here = h k p in rw other at here
]

Free-head : (j : Bytes) (v : Value) (m : Fields) → Free (field j v m) → protected_key j ≡ false
unfolding get
Free-head j v m h = elim (Bool-cases (protected_key j)) [
  | inl bad ↦ let here = h j bad in absurd (cc (rw ((bytes_eq_iff j j).1 refl) at here))
  | inr good ↦ good
]

-- `json.Marshal` gives no error for any value of the extra body.
abbrev pub all_encode : (Value → Bool) → Fields → Bool
all_encode encodes empty = true
all_encode encodes (field k v extra) = encodes v && all_encode encodes extra

add_extra-cases :
    (encodes : Value → Bool) (extra body : Fields)
    → Free extra
    → ((out : Fields) × (add_extra encodes body extra ≡ ok out))
      ⊎ ((all_encode encodes extra ≡ false) × (add_extra encodes body extra ≡ err invalid_extra))
unfolding add_extra
add_extra-cases encodes empty body h = inl (body, refl)
add_extra-cases encodes (field j v extra) body h = elim (Bool-cases (encodes v)) [
  | inr bad ↦ inr (ground arith, rw (Free-head j v extra h, bad) refl)
  | inl fine ↦
      let more =
        add_extra-cases encodes extra (put j (merge_json (get j body) v) body)
          (Free-tail j v extra h) in
      rw (Free-head j v extra h, fine) more
]

-- Every key is one of the protected ones.
abbrev pub Owned : Fields → Type 0
Owned empty = Unit {0}
Owned (field k v m) = (protected_key k ≡ true) × Owned m

restore_total :
    (protected body : Fields) → Owned protected → (out : Fields) × (restore body protected ≡ ok out)
unfolding restore
restore_total empty body h = (body, refl)
restore_total (field k v protected) body (h, hs) = rw h (restore_total protected (put k v body) hs)

contains-All :
    (P : Bytes → Type 0) (ks : List Bytes) (k : Bytes) → All P ks → contains ks k ≡ true → P k
unfolding contains
contains-All P [] k a h = absurd cc
contains-All P (j ∷ ks) k a h = elim (Bool-cases (bytes_eq j k)) [
  | inl same ↦ subst P ((bytes_eq_iff j k).0 same) a.0
  | inr other ↦ contains-All P ks k a.1 (rw other at h)
]

extra-Free : (m : Option Fields) → All (λ k. has_key m k ≡ false) request_fields → Free (extra_of m)
unfolding protected_key get
extra-Free none a k p = refl
extra-Free (some m) a k p =
    has_key-get k m (contains-All (λ j. has_key (some m) j ≡ false) request_fields k a p)

-- The body is made; or a value of the extra body cannot be encoded; or there are tags to be added,
-- and the metadata that the body would have is no object, or its tags are no list of texts.
abbrev pub Answered :
    (Value → Bool) → Fields → Entry → Upstream → Result FinalizeError Fields → Type 0
Answered encodes translated e cfg r =
    let had = merged translated e (codes "metadata") in
    ((out : Fields) × (r ≡ ok out))
    ⊎ ((all_encode encodes (extra_of e.behavior.extra_body) ≡ false) × (r ≡ err invalid_extra))
    ⊎ ((adds_tags cfg ≡ true)
        × (((r ≡ err bad_metadata) × NoMetadata had) ⊎ ((r ≡ err bad_tags) × NoTags had)))

finalize-Answered :
    (encodes : Value → Bool) (translated : Fields) (e : Entry) (protected : Fields) (cfg : Upstream)
    (token : Bytes) (exposed : Option Catalog)
    → allows_target exposed e.target ≡ true
    → SparesProtected e.behavior
    → Owned protected
    → Answered encodes translated e cfg (finalize encodes translated e protected cfg token exposed)
unfolding finalize is_owned protected_key contains bytes_eq starts_with
finalize-Answered encodes translated e protected cfg token exposed allowed spared owned =
    let free = extra-Free e.behavior.extra_body spared in
    elim (add_extra-cases encodes (extra_of e.behavior.extra_body) translated free) [
      | inr (some_bad, bad) ↦ inr (inl (some_bad, rw (allowed, bad) refl))
      | inl (extended, added) ↦
          let kept = without is_owned (drop_params (params_of e.behavior.drop_params) extended) in
          let (restored, back) = restore_total protected kept owned in
          let body = set_own cfg token e.target protected restored in
          let metadata =
            get-set_own encodes translated e protected cfg token (codes "metadata") extended
              restored added back refl in
          elim (Bool-cases (adds_tags cfg)) [
            | inr off ↦ inl (body, rw (allowed, added, back) (add_tags-off cfg token body off))
            | inl on ↦ elim (add_tags-Tagging cfg token body on) [
              | inl (out, made, _) ↦ inl (out, rw (allowed, added, back) made)
              | inr (inl (bad, why)) ↦
                  inr (inr (on, inl (rw (allowed, added, back) bad, subst NoMetadata metadata why)))
              | inr (inr (bad, why)) ↦
                  inr (inr (on, inr (rw (allowed, added, back) bad, subst NoTags metadata why)))
            ]
          ]
    ]

module _ (parse_url : Bytes → Option Url) (compiles : Bytes → Bool) (profile : Profile)
    (regexp : Bytes → Option Pattern) (marshal : Entry → Option Bytes) (sha256 : Bytes → Bytes)
    (cfg : Config) (models : List Model) where
  resolve-SparesProtected :
      (previous : Option Catalog) (now : Time) (c : Catalog) (ws : List Warning) (requested : Bytes)
      (e : Entry)
      → validate parse_url compiles cfg profile ≡ ok tt
      → build regexp marshal sha256 cfg models previous now ≡ ok (c, ws)
      → resolve (some c) requested ≡ ok e
      → SparesProtected e.behavior
  unfolding base_behavior has_key
  resolve-SparesProtected previous now c ws requested e accepted built resolved =
      let (aliases, overrides) = validate-SparesProtected parse_url compiles cfg profile accepted in
      let (f, _, b) =
        build-Built regexp marshal sha256 SparesProtected cfg models previous now c ws built
          (ground arith) (overrides-Closed cfg.models.overrides overrides)
          (aliases-Closed cfg.models.aliases aliases) in
      let (k, there) =
        resolve-Listed c (Built-Leads SparesProtected cfg models f c b) requested e resolved in
      (lookup-AllEntries _ k e c.by_name b.entries there).0.behaves
    where
      overrides-Closed :
          (os : List Override)
          → All (λ o. SparesProtected o.behavior) os
          → All (λ o. Closed SparesProtected o.behavior) os
      overrides-Closed [] a = tt
      overrides-Closed (o ∷ os) (a, rest) =
          (λ b. override_behavior-SparesProtected o.behavior b a, overrides-Closed os rest)

      aliases-Closed :
          (os : List Alias)
          → All (λ o. SparesProtected o.behavior) os
          → All (λ o. Closed SparesProtected o.behavior) os
      aliases-Closed [] a = tt
      aliases-Closed (o ∷ os) (a, rest) =
          (λ b. override_behavior-SparesProtected o.behavior b a, aliases-Closed os rest)

  -- In a configuration that `Validate` accepts, where `Build` makes a catalog and the name that a
  -- client asks for resolves in it: `Finalize`, on protected fields of which every one is a protected
  -- key, makes a body. Else a value of the model's extra body cannot be encoded; or, only with
  -- LiteLLM and tags, the metadata of the request, with the extra body's merged into it, is there
  -- and is no object, or it is an object whose tags are there, are not null and are no list of texts
  -- and nulls.
  pub resolve-Answered :
      (encodes : Value → Bool) (previous : Option Catalog) (now : Time) (c : Catalog)
      (ws : List Warning) (requested : Bytes) (e : Entry) (translated protected : Fields)
      (token : Bytes)
      → validate parse_url compiles cfg profile ≡ ok tt
      → build regexp marshal sha256 cfg models previous now ≡ ok (c, ws)
      → resolve (some c) requested ≡ ok e
      → Owned protected
      → Answered encodes translated e cfg.upstream
          (finalize encodes translated e protected cfg.upstream token (some c))
  resolve-Answered encodes previous now c ws requested e translated protected token accepted built
        resolved owned =
      let (f, _, legal) =
        resolve-Legal regexp marshal sha256 cfg models previous now c ws requested e built
          resolved in
      finalize-Answered encodes translated e protected cfg.upstream token (some c) legal.allowed
        (resolve-SparesProtected previous now c ws requested e accepted built resolved) owned
