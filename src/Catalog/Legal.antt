-- ===== src/Catalog/Legal.antt =====
-- What a catalog that `Build` made is, and which models a name can resolve to in it.
use ollame.Prelude.{
  pos, ltb_ℤ, ◌≡◌, ◌≢◌, refl, sym, ap, ◌∙◌, inl, inr, arith, true, false, not, ◌&&◌, List, [], ◌∷◌,
  Option, some, Bytes, bytes_eq, bytes_eq_iff, contains, Dict, lookup, AllEntries,
  lookup-AllEntries, All, All-everywhere, length, to_lower, ok, ok_injective, bind_ok, Bool-cases,
}
use mathlib.Core.Path.{subst}
use ollame.Glob.{Pattern}
use ollame.Config.Types.{Config, Behavior, Alias, Override}
use ollame.Catalog.{Catalog, Entry, Model, Time, resolve, allows_target, sort_by}
use ollame.Catalog.Build.{
  Filters, Found, Exposed, Warning, compile_filters, visible, targets_of, raw_of, close, build,
  add_models, add_aliases,
}
use ollame.Catalog.Build.Steps.{
  compile_filters-Closed, Closed, Backed, NameHolds, EligibleHolds, Sendable, sorted-Sendable,
}
use ollame.Catalog.Build.Loops.{add_models-FoundHolds}
use ollame.Catalog.Build.Aliased.{Hides, Aliased, add_aliases-Aliased}
use ollame.Catalog.Entries.{base_behavior}
use ollame.Catalog.Listed.{lookup-raw_of, Leads, Listed, resolve-Listed}

visible-AllEntries :
    (P : Bytes → Entry → Type 0) (hidden : List Bytes) (m : Dict Entry)
    → AllEntries P m
    → AllEntries
        (λ k e. P k e × (e.alias ≡ false → contains hidden e.target ≡ false))
        (visible hidden m)
unfolding visible
visible-AllEntries P hidden [] a = tt
visible-AllEntries P hidden ((k, e) ∷ m) a =
    elim (Bool-cases (not e.alias && contains hidden e.target)) [
      | inl out ↦ rw out (visible-AllEntries P hidden m a.1)
      | inr kept ↦ rw kept ((a.0, λ derived. ground arith), visible-AllEntries P hidden m a.1)
    ]

contains-targets_of :
    (k : Bytes) (e : Entry) (m : Dict Entry)
    → lookup k m ≡ some e
    → contains (targets_of m) e.target ≡ true
unfolding lookup targets_of contains
contains-targets_of k e [] h = absurd cc
contains-targets_of k e ((j, d) ∷ m) h =
    ground (arith, contains-targets_of k e m, bytes_eq_iff d.target e.target)

-- What a catalog that `Build` made is, with the filters that it was made by.
pub record Built (B : Behavior → Type 0) (cfg : Config) (models : List Model) (f : Filters)
    (c : Catalog) : Type 0 where
  eligible : Dict Entry
  hidden : List Bytes
  hides : All (Hides eligible hidden) cfg.models.aliases
  pub entries :
      AllEntries
        (λ k e.
          NameHolds (Sendable cfg f models) B eligible k e
          × (e.alias ≡ false → contains hidden e.target ≡ false))
        c.by_name
  targets : c.targets ≡ targets_of c.by_name
  raw : c.raw ≡ raw_of c.by_name

module _ (regexp : Bytes → Option Pattern) (marshal : Entry → Option Bytes) (sha256 : Bytes → Bytes)
    (B : Behavior → Type 0) (cfg : Config) (models : List Model) where
  close-Built :
      (f : Filters) (tag : Bytes) (s : Found) (s₀ t : Exposed) (c : Catalog) (ws : List Warning)
      (held : AllEntries (EligibleHolds (Sendable cfg f models) B) s.eligible)
      → Aliased
          (Sendable cfg f models)
          B
          regexp
          marshal
          sha256
          cfg
          tag
          s.eligible
          held
          cfg.models.aliases
          s₀
          t
      → close regexp marshal sha256 cfg tag s t ≡ ok (c, ws)
      → Built B cfg models f c
  unfolding close
  close-Built f tag s s₀ t c ws held k h =
      let by_name = visible t.hidden t.exposed in
      elim (Bool-cases (ltb_ℤ cfg.limits.max_catalog_models (pos (length by_name)))) [
        | inl many ↦ absurd (cc (rw many at h))
        | inr few ↦
            let e = ap (λ (r : Catalog × List Warning). r.0) (ok_injective (rw few at h)) in
            rw (← e) (record {
              eligible = s.eligible;
              hidden = t.hidden;
              hides = k.hides;
              entries =
                  visible-AllEntries (NameHolds (Sendable cfg f models) B s.eligible) t.hidden
                    t.exposed k.exposed;
              targets = refl;
              raw = refl;
            })
      ]

  pub build-Built :
      (previous : Option Catalog) (now : Time) (c : Catalog) (ws : List Warning)
      → build regexp marshal sha256 cfg models previous now ≡ ok (c, ws)
      → B (base_behavior cfg)
      → All (λ o. Closed B o.behavior) cfg.models.overrides
      → All (λ a. Closed B a.behavior) cfg.models.aliases
      → (f : Filters) × (compile_filters regexp cfg ≡ ok f) × Built B cfg models f c
  unfolding build
  build-Built previous now c ws built base overrides aliases =
      elim (Bool-cases (ltb_ℤ cfg.limits.max_catalog_models (pos (length models)))) [
        | inl many ↦ absurd (cc (rw many at built))
        | inr few ↦
            let (f, compiled, h) = bind_ok (compile_filters regexp cfg) _ (rw few at built) in
            let tag = to_lower cfg.models.default_tag in
            let S = Sendable cfg f models in
            let (s, found_all, h') =
              bind_ok
                (add_models regexp marshal sha256 cfg f now tag (sort_by (λ m. m.id) models) _) _
                h in
            let (t, aliased_all, h'') =
              bind_ok (add_aliases regexp marshal sha256 cfg tag s.eligible cfg.models.aliases _) _
                h' in
            let k =
              add_models-FoundHolds S B regexp marshal sha256 cfg f now tag _ _ s found_all
                (sorted-Sendable cfg f models) base
                (compile_filters-Closed regexp B cfg f compiled overrides)
                (record { eligible = tt; by_name = tt }) in
            let l =
              add_aliases-Aliased S B regexp marshal sha256 cfg tag s.eligible k.eligible
                cfg.models.aliases _ t aliased_all aliases k.by_name in
            (f, compiled, close-Built f tag s _ t c ws k.eligible l h'')
      ]

abbrev Any : Behavior → Type 0
Any b = Unit {0}

build-Any :
    (regexp : Bytes → Option Pattern) (marshal : Entry → Option Bytes) (sha256 : Bytes → Bytes)
    (cfg : Config) (models : List Model) (previous : Option Catalog) (now : Time) (c : Catalog)
    (ws : List Warning)
    → build regexp marshal sha256 cfg models previous now ≡ ok (c, ws)
    → (f : Filters) × (compile_filters regexp cfg ≡ ok f) × Built Any cfg models f c
build-Any regexp marshal sha256 cfg models previous now c ws built =
    build-Built regexp marshal sha256 Any cfg models previous now c ws built tt
      (All-everywhere (λ (o : Override). Closed Any o.behavior) cfg.models.overrides (λ o b k. tt))
      (All-everywhere (λ (a : Alias). Closed Any a.behavior) cfg.models.aliases (λ a b k. tt))

-- An entry that may be answered: its target may be sent to, is the ID of a model of the discovery that
-- the filters allow, and is hidden by no alias unless the entry is an alias itself.
pub record Legal (cfg : Config) (f : Filters) (models : List Model) (c : Catalog) (e : Entry)
    : Type 0 where
  pub allowed : allows_target (some c) e.target ≡ true
  pub sendable : Sendable cfg f models e.target
  pub unhidden :
      e.alias ≡ false → All (λ a. a.hide_target ≡ true → a.target ≢ e.target) cfg.models.aliases

Hides-none :
    (eligible : Dict Entry) (hidden : List Bytes) (e : Entry) (aliases : List Alias)
    → Backed eligible e
    → contains hidden e.target ≡ false
    → All (Hides eligible hidden) aliases
    → All (λ a. a.hide_target ≡ true → a.target ≢ e.target) aliases
Hides-none eligible hidden e [] b n h = tt
Hides-none eligible hidden e (a ∷ aliases) (d, there) n h = (
  λ hid same.
      let there' = ap (λ (x : Bytes). lookup x eligible) same ∙ there in
      absurd (cc (sym (ap (contains hidden) same) ∙ h.0 d there' hid)),
  Hides-none eligible hidden e aliases (d, there) n h.1,
)

Built-Legal :
    (B : Behavior → Type 0) (cfg : Config) (models : List Model) (f : Filters) (c : Catalog)
    (e : Entry)
    → Built B cfg models f c
    → Listed c e
    → Legal cfg f models c e
unfolding allows_target
Built-Legal B cfg models f c e b (k, there) =
    let (n, shown) = lookup-AllEntries _ k e c.by_name b.entries there in
    record {
      allowed =
          ap (λ (ts : List Bytes). contains ts e.target) b.targets
          ∙ contains-targets_of k e c.by_name there;
      sendable = n.sendable;
      unhidden = λ derived.
          Hides-none b.eligible b.hidden e cfg.models.aliases n.backed (shown derived) b.hides;
    }

pub Built-Leads :
    (B : Behavior → Type 0) (cfg : Config) (models : List Model) (f : Filters) (c : Catalog)
    → Built B cfg models f c
    → Leads c
Built-Leads B cfg models f c b id name h =
    lookup-raw_of id name c.by_name (sym (ap (lookup id) b.raw) ∙ h)

-- Where `Build` succeeds, whatever name a client asks for: if it resolves, then to an entry whose
-- target may be sent to and is the ID of a model of the discovery that an include glob matches, no
-- exclude glob matches, and whose mode is not known or allowed; and where the entry is not an alias,
-- no alias hides its target.
pub resolve-Legal :
    (regexp : Bytes → Option Pattern) (marshal : Entry → Option Bytes) (sha256 : Bytes → Bytes)
    (cfg : Config) (models : List Model) (previous : Option Catalog) (now : Time) (c : Catalog)
    (ws : List Warning) (requested : Bytes) (e : Entry)
    → build regexp marshal sha256 cfg models previous now ≡ ok (c, ws)
    → resolve (some c) requested ≡ ok e
    → (f : Filters) × (compile_filters regexp cfg ≡ ok f) × Legal cfg f models c e
resolve-Legal regexp marshal sha256 cfg models previous now c ws requested e built resolved =
    let (f, compiled, b) = build-Any regexp marshal sha256 cfg models previous now c ws built in
    let listed = resolve-Listed c (Built-Leads Any cfg models f c b) requested e resolved in
    (f, compiled, Built-Legal Any cfg models f c e b listed)

contains-entry :
    (P : Bytes → Entry → Type 0) (target : Bytes) (m : Dict Entry)
    → AllEntries P m
    → contains (targets_of m) target ≡ true
    → (k : Bytes) × (e : Entry) × P k e × (e.target ≡ target)
unfolding contains targets_of
contains-entry P target [] a h = absurd cc
contains-entry P target ((k, e) ∷ m) a h = elim (Bool-cases (bytes_eq e.target target)) [
  | inl same ↦ (k, e, a.0, (bytes_eq_iff e.target target).0 same)
  | inr other ↦ contains-entry P target m a.1 (rw other at h)
]

-- Where `Build` succeeds, every target that may be sent to is the ID of a model of the discovery that
-- an include glob matches, no exclude glob matches, and whose mode is not known or allowed.
pub allows_target-Sendable :
    (regexp : Bytes → Option Pattern) (marshal : Entry → Option Bytes) (sha256 : Bytes → Bytes)
    (cfg : Config) (models : List Model) (previous : Option Catalog) (now : Time) (c : Catalog)
    (ws : List Warning) (target : Bytes)
    → build regexp marshal sha256 cfg models previous now ≡ ok (c, ws)
    → allows_target (some c) target ≡ true
    → (f : Filters) × (compile_filters regexp cfg ≡ ok f) × Sendable cfg f models target
unfolding allows_target
allows_target-Sendable regexp marshal sha256 cfg models previous now c ws target built allowed =
    let (f, compiled, b) = build-Any regexp marshal sha256 cfg models previous now c ws built in
    let (k, e, (n, _), same) =
      contains-entry _ target c.by_name b.entries
        (sym (ap (λ (ts : List Bytes). contains ts target) b.targets) ∙ allowed) in
    (f, compiled, subst (Sendable cfg f models) same n.sendable)
