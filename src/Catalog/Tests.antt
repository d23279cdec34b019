-- ===== src/Catalog/Tests.antt =====
-- Runs of internal/catalog, and its theorems at concrete inputs.
use ollame.Prelude.{
  pos, ◌≡◌, refl, true, List, [], ◌∷◌, Option, none, some, Bytes, codes, bytes_eq, contains, lookup,
  insert, index, ends_with, Result, ok, err,
}
use ollame.Prelude.Utf8.{has_space}
use ollame.Glob.{Pattern}
use ollame.Config.Types.{Config, Alias}
use ollame.Config.Types.Defaults.{defaults, default_models}
use ollame.Config.Load.{new_alias}
use ollame.Catalog.{Catalog, Entry, Model, Time, resolve, allows_target, no_entry, not_found}
use ollame.Catalog.Build.{Filters, Warning, compile_filters, build}
use ollame.Catalog.Build.Steps.{Sendable}
use ollame.Catalog.Legal.{Legal, resolve-Legal, allows_target-Sendable}

abbrev any_regexp : Bytes → Option Pattern
any_regexp _ = some (λ _. true)

abbrev no_json : Entry → Option Bytes
no_json _ = some []

abbrev no_hash : Bytes → Bytes
no_hash _ = []

abbrev model_of : Bytes → Model
model_of id = record {
  id = id;
  created = pos 0;
  info = record {
    mode = codes "chat";
    max_input_tokens = pos 8192;
    max_tokens = pos 0;
    supports_tools = none;
    supports_vision = some true;
    supports_reasoning = none;
    output_vector_size = pos 0;
  };
}

abbrev two_models : List Model
two_models = model_of (codes "openai/gpt:4") ∷ model_of (codes "local/Qwen") ∷ []

abbrev hiding_alias : Alias
hiding_alias = record (new_alias (codes "fast") (codes "local/Qwen")) { hide_target = true }

abbrev small_config : Config
small_config = record defaults { models = record default_models { aliases = hiding_alias ∷ [] } }

abbrev at_noon : Time
at_noon = (pos 1000, 0)

abbrev no_catalog : Catalog
no_catalog = record { by_name = []; raw = []; targets = []; default_tag = []; first_seen = [] }

abbrev value_of : {E A : Type 0} → A → Result E A → A
value_of d (ok a) = a
value_of d (err _) = d

abbrev made : Catalog × List Warning
unfolding build defaults bytes_eq contains lookup insert index has_space
made =
    value_of (no_catalog, [])
      (build any_regexp no_json no_hash small_config two_models none at_noon)

built : build any_regexp no_json no_hash small_config two_models none at_noon ≡ ok (made.0, made.1)
unfolding build defaults bytes_eq contains lookup insert index has_space
built = refl

abbrev fast : Entry
unfolding build defaults bytes_eq contains lookup insert index has_space resolve ends_with
fast = value_of no_entry (resolve (some made.0) (codes "Fast"))

resolved : resolve (some made.0) (codes "Fast") ≡ ok fast
unfolding build defaults bytes_eq contains lookup insert index has_space resolve ends_with
resolved = refl

-- The hidden target has no name, the other model is found by its own.
hidden_target : resolve (some made.0) (codes "local/Qwen") ≡ err not_found
unfolding build defaults bytes_eq contains lookup insert index has_space resolve ends_with
hidden_target = refl

own_name :
    (e : Entry) × (resolve (some made.0) (codes "openai/gpt:4") ≡ ok e)
    × (e.name ≡ codes "openai/gpt-4:latest")
unfolding build defaults bytes_eq contains lookup insert index has_space resolve ends_with
own_name = (value_of no_entry (resolve (some made.0) (codes "openai/gpt:4")), refl, refl)

resolve-Legal_example :
    (f : Filters) × (compile_filters any_regexp small_config ≡ ok f)
    × Legal small_config f two_models made.0 fast
resolve-Legal_example =
    resolve-Legal any_regexp no_json no_hash small_config two_models none at_noon made.0 made.1
      (codes "Fast") fast built resolved

sendable_gpt : allows_target (some made.0) (codes "openai/gpt:4") ≡ true
unfolding build defaults bytes_eq contains lookup insert index has_space allows_target
sendable_gpt = refl

allows_target-Sendable_example :
    (f : Filters) × (compile_filters any_regexp small_config ≡ ok f)
    × Sendable small_config f two_models (codes "openai/gpt:4")
allows_target-Sendable_example =
    allows_target-Sendable any_regexp no_json no_hash small_config two_models none at_noon made.0
      made.1 (codes "openai/gpt:4") built sendable_gpt
