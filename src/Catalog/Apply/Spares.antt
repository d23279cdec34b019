-- ===== src/Catalog/Apply/Spares.antt =====
-- The protected fields of a request, in the extra body that an override leaves.
use ollame.Prelude.{◌≡◌, refl, true, false, List, [], ◌∷◌, Option, none, some, Bytes, All}
use ollame.Config.Types.{Behavior}
use ollame.Config.Value.{Value, Fields, get}
use ollame.Config.Value.Laws.{get-merge_map}
use ollame.Config.Validate.{has_key}
use ollame.Config.Validate.Sound.Accepted.{request_fields, SparesProtected}
use ollame.Catalog.Apply.{merge_bodies, or_no_fields, override_behavior}

pub has_key-get : (k : Bytes) (m : Fields) → has_key (some m) k ≡ false → get k m ≡ none
unfolding has_key
has_key-get k m h = go (get k m) h
  where
    go : (o : Option Value) → elim o [ none ↦ false | some _ ↦ true ] ≡ false → o ≡ none
    go none h = refl
    go (some v) h = absurd cc

absent : (k : Bytes) (m : Option Fields) → has_key m k ≡ false → get k (or_no_fields m) ≡ none
unfolding get
absent k none h = refl
absent k (some m) h = has_key-get k m h

has_key-merge_bodies :
    (k : Bytes) (prior update : Option Fields)
    → has_key prior k ≡ false
    → has_key update k ≡ false
    → has_key (merge_bodies prior update) k ≡ false
unfolding has_key merge_bodies
has_key-merge_bodies k prior none p u = p
has_key-merge_bodies k prior (some update) p u =
    let none_left =
      get-merge_map k (or_no_fields prior) update (absent k prior p) (has_key-get k update u) in
    rw (has_key, none_left) refl

merge_bodies-All :
    (prior update : Option Fields) (ks : List Bytes)
    → All (λ k. has_key prior k ≡ false) ks
    → All (λ k. has_key update k ≡ false) ks
    → All (λ k. has_key (merge_bodies prior update) k ≡ false) ks
merge_bodies-All prior update [] p u = tt
merge_bodies-All prior update (k ∷ ks) p u =
    (has_key-merge_bodies k prior update p.0 u.0, merge_bodies-All prior update ks p.1 u.1)

-- An override that spares the protected fields keeps them spared.
pub override_behavior-SparesProtected :
    (o b : Behavior)
    → SparesProtected o
    → SparesProtected b
    → SparesProtected (override_behavior o b)
unfolding override_behavior
override_behavior-SparesProtected o b held before =
    merge_bodies-All b.extra_body o.extra_body request_fields before held
