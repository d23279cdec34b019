-- ===== src/Catalog/Build/Steps.antt =====
-- The entries that the loops of `Build` store.
use ollame.Prelude.{
  ℕ, ◌+◌, Option, ok, ok_injective, bind_ok, ◌≡◌, refl, ◌∙◌, ◌⊎◌, inl, inr, arith, true, false,
  List, [], ◌∷◌, some, Bytes, bytes_eq, bytes_eq_iff, contains, Dict, lookup, insert, lookup-insert,
  AllEntries, All, Bool-cases,
}
use ollame.Glob.{Pattern, any, compile, compile_all}
use ollame.Config.Types.{Config, Behavior, Override}
use ollame.Catalog.{Entry, Model, bytes_lt, insert_by, sort_by}
use ollame.Catalog.Apply.{override_behavior, apply}
use ollame.Catalog.Apply.Kept.{SameEntry, SameEntry-trans}
use ollame.Catalog.Build.{
  MatchingOverride, Filters, Found, is_eligible, overridden, apply_overrides, compile_overrides,
  compile_filters, glob_or,
}

overridden-SameEntry : (o : MatchingOverride) (e : Entry) → SameEntry e (overridden o e)
unfolding overridden
overridden-SameEntry o e = record { name = refl; target = refl; alias = refl }

pub apply_overrides-SameEntry :
    (overrides : List MatchingOverride) (id : Bytes) (e : Entry)
    → SameEntry e (apply_overrides overrides id e)
unfolding apply_overrides
apply_overrides-SameEntry [] id e = record { name = refl; target = refl; alias = refl }
apply_overrides-SameEntry (o ∷ overrides) id e = elim (Bool-cases (o.pattern id)) [
  | inl h ↦ rw h (
      SameEntry-trans e (overridden o e) _ (overridden-SameEntry o e)
        (apply_overrides-SameEntry overrides id (overridden o e)))
  | inr h ↦ rw h (apply_overrides-SameEntry overrides id e)
]

-- A model that may be exposed: an included ID that is not excluded, with a mode that is allowed or
-- not known.
pub record MayExpose (cfg : Config) (f : Filters) (m : Model) : Type 0 where
  pub included : any f.include m.id ≡ true
  pub not_excluded : any f.exclude m.id ≡ false
  pub allowed_mode : (m.info.mode ≡ []) ⊎ (contains cfg.models.modes m.info.mode ≡ true)

is_eligible-MayExpose :
    (cfg : Config) (f : Filters) (m : Model) → is_eligible cfg f m ≡ true → MayExpose cfg f m
unfolding is_eligible
is_eligible-MayExpose cfg f m h = record {
  included = ground arith;
  not_excluded = ground arith;
  allowed_mode = ground (arith, bytes_eq_iff m.info.mode []);
}

-- The ID of one of the models that may be exposed.
abbrev pub Sendable : Config → Filters → List Model → Bytes → Type 0
Sendable cfg f [] id = ⊥
Sendable cfg f (m ∷ models) id = ((m.id ≡ id) × MayExpose cfg f m) ⊎ Sendable cfg f models id

Sendable-All :
    (cfg : Config) (f : Filters) (models : List Model)
    → All (λ m. is_eligible cfg f m ≡ true → Sendable cfg f models m.id) models
Sendable-All cfg f [] = tt
Sendable-All cfg f (m ∷ models) =
    (λ e. inl (refl, is_eligible-MayExpose cfg f m e), later models (Sendable-All cfg f models))
  where
    later :
        (ms : List Model)
        → All (λ n. is_eligible cfg f n ≡ true → Sendable cfg f models n.id) ms
        → All (λ n. is_eligible cfg f n ≡ true → Sendable cfg f (m ∷ models) n.id) ms
    later [] a = tt
    later (n ∷ ms) a = (λ e. inr (a.0 e), later ms a.1)

module _ (P : Model → Type 0) (key : Model → Bytes) where
  insert_by-All : (x : Model) (ys : List Model) → P x → All P ys → All P (insert_by key x ys)
  unfolding insert_by
  insert_by-All x [] p a = (p, tt)
  insert_by-All x (y ∷ ys) p a = elim (Bool-cases (bytes_lt (key y) (key x))) [
    | inl e ↦ rw e (a.0, insert_by-All x ys p a.1)
    | inr e ↦ rw e (p, a)
  ]

  sort_by-All : (xs : List Model) → All P xs → All P (sort_by key xs)
  unfolding sort_by
  sort_by-All [] a = tt
  sort_by-All (x ∷ xs) a = insert_by-All x (sort_by key xs) a.0 (sort_by-All xs a.1)

pub sorted-Sendable :
    (cfg : Config) (f : Filters) (models : List Model)
    → All
        (λ m. is_eligible cfg f m ≡ true → Sendable cfg f models m.id)
        (sort_by (λ m. m.id) models)
sorted-Sendable cfg f models = sort_by-All _ (λ m. m.id) models (Sendable-All cfg f models)

-- An entry that stands for a model of which it has the target.
abbrev pub Backed : Dict Entry → Entry → Type 0
Backed eligible e = (d : Entry) × (lookup e.target eligible ≡ some d)

Backed-insert :
    (id : Bytes) (d : Entry) (m : Dict Entry) (e : Entry) → Backed m e → Backed (insert id d m) e
Backed-insert id d m e (b, h) = elim (Bool-cases (bytes_eq id e.target)) [
  | inl same ↦ (d, lookup-insert id e.target d m ∙ rw same)
  | inr other ↦ (b, lookup-insert id e.target d m ∙ rw other h)
]

-- An override that keeps a property of behaviors.
abbrev pub Closed : (Behavior → Type 0) → Behavior → Type 0
Closed B o = (b : Behavior) → B b → B (override_behavior o b)

pub apply_overrides-Closed :
    (B : Behavior → Type 0) (overrides : List MatchingOverride) (id : Bytes) (e : Entry)
    → All (λ o. Closed B o.behavior) overrides
    → B e.behavior
    → B (apply_overrides overrides id e).behavior
unfolding apply_overrides overridden apply
apply_overrides-Closed B [] id e c h = h
apply_overrides-Closed B (o ∷ overrides) id e c h = elim (Bool-cases (o.pattern id)) [
  | inl on ↦
      rw (apply_overrides, on)
        (apply_overrides-Closed B overrides id (overridden o e) c.1 (c.0 e.behavior h))
  | inr off ↦ rw (apply_overrides, off) (apply_overrides-Closed B overrides id e c.1 h)
]

compile_overrides-Closed :
    (regexp : Bytes → Option Pattern) (B : Behavior → Type 0) (n : ℕ) (os : List Override)
    (ms : List MatchingOverride)
    → compile_overrides regexp n os ≡ ok ms
    → All (λ o. Closed B o.behavior) os
    → All (λ o. Closed B o.behavior) ms
unfolding compile_overrides
compile_overrides-Closed regexp B n [] ms h c = rw (← ok_injective h) tt
compile_overrides-Closed regexp B n (o ∷ os) ms h c =
    let (p, compiled, h') = bind_ok (glob_or (compile regexp o.match)) _ h in
    let (rest, all, done) = bind_ok (compile_overrides regexp (n + 1) os) _ h' in
    rw (← ok_injective done) (c.0, compile_overrides-Closed regexp B (n + 1) os rest all c.1)

pub compile_filters-Closed :
    (regexp : Bytes → Option Pattern) (B : Behavior → Type 0) (cfg : Config) (f : Filters)
    → compile_filters regexp cfg ≡ ok f
    → All (λ o. Closed B o.behavior) cfg.models.overrides
    → All (λ o. Closed B o.behavior) f.overrides
unfolding compile_filters
compile_filters-Closed regexp B cfg f h c =
    let (include, _, h') = bind_ok (glob_or (compile_all regexp cfg.models.include)) _ h in
    let (exclude, _, h'') = bind_ok (glob_or (compile_all regexp cfg.models.exclude)) _ h' in
    let (overrides, all, done) = bind_ok (compile_overrides regexp 0 cfg.models.overrides) _ h'' in
    rw (← ok_injective done)
      (compile_overrides-Closed regexp B 0 cfg.models.overrides overrides all c)

module _ (S : Bytes → Type 0) (B : Behavior → Type 0) where
  pub record EligibleHolds (k : Bytes) (e : Entry) : Type 0 where
    pub keyed : e.target ≡ k
    pub sendable : S e.target
    pub behaves : B e.behavior
    pub derived : e.alias ≡ false

  pub record NameHolds (eligible : Dict Entry) (k : Bytes) (e : Entry) : Type 0 where
    pub named : e.name ≡ k
    pub sendable : S e.target
    pub behaves : B e.behavior
    pub backed : Backed eligible e

  pub record FoundHolds (s : Found) : Type 0 where
    pub eligible : AllEntries EligibleHolds s.eligible
    pub by_name : AllEntries (NameHolds s.eligible) s.by_name

  pub NameHolds-insert :
      (id : Bytes) (d : Entry) (m : Dict Entry) (k : Bytes) (e : Entry)
      → NameHolds m k e
      → NameHolds (insert id d m) k e
  NameHolds-insert id d m k e h = record {
    named = h.named;
    sendable = h.sendable;
    behaves = h.behaves;
    backed = Backed-insert id d m e h.backed;
  }
