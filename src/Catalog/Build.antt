-- ===== src/Catalog/Build.antt =====
-- internal/catalog/catalog.go: `Build`. A warning is its kind and the name in it. The loops over the
-- maps at the end have the same result in every order, since a map has no key twice.
pub mod Steps
pub mod Loops
pub mod Aliased
use ollame.Prelude.{
  ℕ, ◌+◌, ℤ, pos, pos_part, ltb_ℤ, Bool, true, false, not, ◌&&◌, ◌||◌, List, [], ◌∷◌, ◌++◌, Option,
  none, some, Bytes, codes, bytes_eq, contains, Dict, lookup, insert, delete, length, to_lower,
  ◌==◌, Result, ok, err, ◌>>=◌, if◌then◌else◌,
}
use ollame.Prelude.Decimal.{format_nat}
use ollame.Glob.{Pattern, GlobError, compile, compile_all, any}
use ollame.Config.Types.{Config, Behavior, Alias, Override}
use ollame.Config.Names.{normalize_alias}
use ollame.Catalog.{Model, Entry, Catalog, Time, sort_by}
use ollame.Catalog.Entries.{
  BuildError, discovery_limit, bad_id, duplicate_alias, exposed_limit, bad_glob, bad_alias_name,
  base_entry,
}
use ollame.Catalog.Apply.{apply, finish}

pub data Warning : Type 0 where
  name_collision alias_target_absent alias_replaces : Bytes → Warning

pub record MatchingOverride : Type 0 where
  pub pattern : Pattern
  pub behavior : Behavior
  pub place : ℕ

-- The filters of the configuration, compiled.
pub record Filters : Type 0 where
  pub include : List Pattern
  pub exclude : List Pattern
  pub overrides : List MatchingOverride

-- The variables of `Build` that its first loop changes.
pub record Found : Type 0 where
  pub eligible : Dict Entry
  pub by_name : Dict Entry
  pub first_seen : Dict Time
  pub seen_ids : List Bytes
  pub warnings : List Warning

-- Those of its loop over the aliases.
pub record Exposed : Type 0 where
  pub exposed : Dict Entry
  pub names : List Bytes
  pub hidden : List Bytes
  pub notes : List Warning

-- `strings.ReplaceAll (s, ":", "-")`
dashes : Bytes → Bytes
dashes [] = []
dashes (c ∷ s) = (if c == b':' then b'-' else c) ∷ dashes s

unfoldable pub derived_name : Bytes → Bytes → Bytes
unfolding dashes
derived_name id tag = to_lower (dashes id) ++ (codes ":" ++ tag)

-- The test that skips a model, the other way round.
unfoldable pub is_eligible : Config → Filters → Model → Bool
unfolding any
is_eligible cfg f model = not (
    not (any f.include model.id)
    || any f.exclude model.id
    || (not (bytes_eq model.info.mode []) && not (contains cfg.models.modes model.info.mode)))

-- The time of a model, and the map of the times first seen with it.
dated : Model → Time → Dict Time → Time × Dict Time
unfolding lookup insert
dated model now seen =
    if (ltb_ℤ model.created (pos 0) || ltb_ℤ (pos 0) model.created)
    then ((model.created, 0), seen)
    else elim (lookup model.id seen) [
      | some first ↦ (first, insert model.id first seen)
      | none ↦ (now, insert model.id now seen)
    ]

unfoldable pub overridden : MatchingOverride → Entry → Entry
unfolding apply format_nat
overridden o e = record (apply o.behavior e) {
  provenance = e.provenance ++ (codes "override:" ++ format_nat o.place) ∷ [];
}

unfoldable pub apply_overrides : List MatchingOverride → Bytes → Entry → Entry
unfolding overridden
apply_overrides [] id e = e
apply_overrides (o ∷ overrides) id e =
    apply_overrides overrides id (if o.pattern id then overridden o e else e)

-- A derived name that is taken keeps its entry.
add_derived : Bytes → Entry → Found → Found
unfolding lookup insert
add_derived name e f = elim (lookup name f.by_name) [
  | some _ ↦ record f { warnings = f.warnings ++ name_collision name ∷ [] }
  | none ↦ record f { by_name = insert name e f.by_name }
]

abbrev glob_or : {A : Type 0} → Result GlobError A → Result BuildError A
glob_or (err e) = err bad_glob
glob_or (ok a) = ok a

abbrev name_or : {E : Type 0} → Result E Bytes → Result BuildError Bytes
name_or (err e) = err bad_alias_name
name_or (ok n) = ok n

unfoldable pub compile_overrides :
    (Bytes → Option Pattern) → ℕ → List Override → Result BuildError (List MatchingOverride)
unfolding compile
compile_overrides regexp place [] = ok []
compile_overrides regexp place (o ∷ overrides) = glob_or (compile regexp o.match) >>= λ p.
    compile_overrides regexp (place + 1) overrides >>= λ rest.
    ok (record { pattern = p; behavior = o.behavior; place = place } ∷ rest)

unfoldable pub compile_filters : (Bytes → Option Pattern) → Config → Result BuildError Filters
unfolding compile_overrides compile_all
compile_filters regexp cfg = glob_or (compile_all regexp cfg.models.include) >>= λ include.
    glob_or (compile_all regexp cfg.models.exclude) >>= λ exclude.
    compile_overrides regexp 0 cfg.models.overrides >>= λ overrides.
    ok (record { include = include; exclude = exclude; overrides = overrides })

-- The alias as an entry, from its target's.
unfoldable pub alias_entry : Bytes → Alias → Entry → Entry
unfolding apply
alias_entry name a target =
    let e = apply a.behavior (record target {
      name = name;
      model = name;
      alias = true;
      system = a.system;
      options = a.options;
      think = a.think;
    }) in
    record e { provenance = e.provenance ++ (codes "alias:" ++ name) ∷ [] }

-- What the last loop leaves of the entries.
unfoldable pub visible : List Bytes → Dict Entry → Dict Entry
unfolding contains
visible hidden [] = []
visible hidden ((name, e) ∷ m) =
    let rest = visible hidden m in
    if not e.alias && contains hidden e.target then rest else (name, e) ∷ rest

unfoldable pub targets_of : Dict Entry → List Bytes
targets_of [] = []
targets_of ((name, e) ∷ m) = e.target ∷ targets_of m

unfoldable pub raw_of : Dict Entry → Dict Bytes
unfolding insert
raw_of [] = []
raw_of ((name, e) ∷ m) = let rest = raw_of m in if e.alias then rest else insert e.target name rest

-- The times of the discovered models only
unfoldable pub keep_seen : List Bytes → Dict Time → Dict Time
unfolding contains
keep_seen ids [] = []
keep_seen ids ((id, first) ∷ m) =
    let rest = keep_seen ids m in if contains ids id then (id, first) ∷ rest else rest

abbrev pub seen_before : Option Catalog → Dict Time
seen_before none = []
seen_before (some c) = c.first_seen

abbrev hide : Bool → Bytes → List Bytes → List Bytes
hide true target hidden = target ∷ hidden
hide false target hidden = hidden

abbrev replaced : Option Entry → Bytes → List Warning
replaced none name = []
replaced (some _) name = alias_replaces name ∷ []

module _ (regexp : Bytes → Option Pattern) (marshal : Entry → Option Bytes) (sha256 : Bytes → Bytes)
    (cfg : Config) where
  -- The body of the loop over the models, for one that is not skipped.
  unfoldable pub add_model : Filters → Time → Bytes → Model → Found → Result BuildError Found
  unfolding dated apply_overrides finish add_derived base_entry insert derived_name
  add_model f now tag model s =
      let name = derived_name model.id tag in
      let (at, seen) = dated model now s.first_seen in
      let e = record (base_entry cfg model name) { modified_at = at } in
      finish marshal sha256 cfg (apply_overrides f.overrides model.id e) >>= λ e'. ok (
        add_derived name e'
          (record s { eligible = insert model.id e' s.eligible; first_seen = seen }))

  unfoldable pub add_models : Filters → Time → Bytes → List Model → Found → Result BuildError Found
  unfolding add_model is_eligible contains
  add_models f now tag [] s = ok s
  add_models f now tag (model ∷ models) s =
      if bytes_eq model.id [] || contains s.seen_ids model.id
      then err bad_id
      else let s' = record s { seen_ids = model.id ∷ s.seen_ids } in
        (if is_eligible cfg f model then add_model f now tag model s' else ok s') >>= λ next.
        add_models f now tag models next

  -- The body of the loop over the aliases.
  unfoldable pub add_alias : Bytes → Dict Entry → Alias → Exposed → Result BuildError Exposed
  unfolding lookup insert alias_entry finish normalize_alias contains
  add_alias tag eligible a s = name_or (normalize_alias a.name tag) >>= λ name.
      if contains s.names name
      then err duplicate_alias
      else let s' = record s { names = name ∷ s.names } in
        elim (lookup a.target eligible) [
          | none ↦ ok (record s' { notes = s.notes ++ alias_target_absent name ∷ [] })
          | some target ↦ finish marshal sha256 cfg (alias_entry name a target) >>= λ e.
              ok (record s' {
                exposed = insert name e s.exposed;
                notes = s.notes ++ replaced (lookup name s.exposed) name;
                hidden = hide a.hide_target a.target s.hidden;
              })
        ]

  unfoldable pub add_aliases : Bytes → Dict Entry → List Alias → Exposed → Result BuildError Exposed
  unfolding add_alias
  add_aliases tag eligible [] s = ok s
  add_aliases tag eligible (a ∷ aliases) s =
      add_alias tag eligible a s >>= λ next. add_aliases tag eligible aliases next

  -- The end of `Build`
  unfoldable pub close : Bytes → Found → Exposed → Result BuildError (Catalog × List Warning)
  unfolding visible targets_of raw_of keep_seen
  close tag f s =
      let by_name = visible s.hidden s.exposed in
      if ltb_ℤ cfg.limits.max_catalog_models (pos (length by_name))
      then err exposed_limit
      else ok (
        record {
          by_name = by_name;
          raw = raw_of by_name;
          targets = targets_of by_name;
          default_tag = tag;
          first_seen = keep_seen f.seen_ids f.first_seen;
        },
        s.notes,
      )

  -- `Build`
  unfoldable pub build :
      List Model → Option Catalog → Time → Result BuildError (Catalog × List Warning)
  unfolding compile_filters add_models add_aliases close sort_by
  build models previous now =
      if ltb_ℤ cfg.limits.max_catalog_models (pos (length models))
      then err discovery_limit
      else let tag = to_lower cfg.models.default_tag in
        compile_filters regexp cfg >>= λ f.
        add_models f now tag (sort_by (λ m. m.id) models) (record {
          eligible = [];
          by_name = [];
          first_seen = seen_before previous;
          seen_ids = [];
          warnings = [];
        })
        >>= λ s.
            add_aliases tag s.eligible cfg.models.aliases
              (record { exposed = s.by_name; names = []; hidden = []; notes = s.warnings })
            >>= λ t. close tag s t
