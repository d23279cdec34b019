-- ===== src/Translate/Samples.antt =====
-- A configuration with one alias, the catalog that it makes, and the entry of the alias.
use ollame.Prelude.{
  pos, ◌≡◌, refl, true, Bool, List, [], ◌∷◌, Option, none, some, Bytes, codes, bytes_eq, contains,
  lookup, insert, index, starts_with, ends_with, Result, ok, err,
}
use ollame.Prelude.Utf8.{has_space}
use ollame.Glob.{Pattern}
use ollame.Config.{valid_token_name}
use ollame.Config.Types.{Config, Alias, Token}
use ollame.Config.Types.Defaults.{defaults, default_models, default_auth}
use ollame.Config.Value.{empty, field, number, merge_map}
use ollame.Config.Names.{valid_capability}
use ollame.Config.Load.{new_alias, no_behavior}
use ollame.Config.Validate.{
  Url, validate, serve_profile, valid_parameter_size, all_capable, unprotected,
}
use ollame.Catalog.{Catalog, Entry, Model, Time, resolve, no_entry}
use ollame.Catalog.Build.{Warning, build}

abbrev pub local_url : Bytes → Option Url
local_url _ = some (record {
  scheme = codes "http";
  host = codes "localhost:4000";
  path = codes "/v1/";
  raw_query = [];
  fragment = [];
})

abbrev pub compiles_all : Bytes → Bool
compiles_all _ = true

abbrev pub any_regexp : Bytes → Option Pattern
any_regexp _ = some (λ _. true)

abbrev pub no_json : Entry → Option Bytes
no_json _ = some []

abbrev pub no_hash : Bytes → Bytes
no_hash _ = []

abbrev pub one_model : List Model
one_model =
    record {
      id = codes "gpt";
      created = pos 0;
      info = record {
        mode = codes "chat";
        max_input_tokens = pos 8192;
        max_tokens = pos 0;
        supports_tools = none;
        supports_vision = none;
        supports_reasoning = none;
        output_vector_size = pos 0;
      };
    }
    ∷ []

abbrev pub one_alias : List Alias
one_alias =
    record (new_alias (codes "fast") (codes "gpt")) {
      behavior = record no_behavior {
        extra_body = some (field (codes "top_k") (number (codes "5")) empty);
      };
    }
    ∷ []

abbrev pub one_token : List Token
one_token =
    record {
      name = codes "ci";
      token = codes "s3cret";
      sha256 = [];
      token_file = [];
      token_env = [];
    }
    ∷ []

abbrev pub config : Config
config = record defaults {
  models = record default_models { aliases = one_alias };
  auth = record default_auth { tokens = one_token };
}

pub accepted : validate local_url compiles_all config serve_profile ≡ ok tt
unfolding validate defaults bytes_eq contains starts_with ends_with has_space all_capable
    valid_capability unprotected valid_parameter_size valid_token_name
accepted = refl

abbrev pub at_noon : Time
at_noon = (pos 1000, 0)

abbrev pub no_catalog : Catalog
no_catalog = record { by_name = []; raw = []; targets = []; default_tag = []; first_seen = [] }

abbrev pub value_of : {E A : Type 0} → A → Result E A → A
value_of d (ok a) = a
value_of d (err _) = d

abbrev pub made : Catalog × List Warning
unfolding build defaults bytes_eq contains lookup insert index has_space merge_map
made = value_of (no_catalog, []) (build any_regexp no_json no_hash config one_model none at_noon)

pub built : build any_regexp no_json no_hash config one_model none at_noon ≡ ok (made.0, made.1)
unfolding build defaults bytes_eq contains lookup insert index has_space merge_map
built = refl

abbrev pub fast : Entry
unfolding build defaults bytes_eq contains lookup insert index has_space resolve ends_with merge_map
fast = value_of no_entry (resolve (some made.0) (codes "fast"))

pub resolved : resolve (some made.0) (codes "fast") ≡ ok fast
unfolding build defaults bytes_eq contains lookup insert index has_space resolve ends_with merge_map
resolved = refl

has_extra : fast.behavior.extra_body ≡ some (field (codes "top_k") (number (codes "5")) empty)
unfolding build defaults bytes_eq contains lookup insert index has_space resolve ends_with merge_map
has_extra = refl
