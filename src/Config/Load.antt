-- ===== src/Config/Load.antt =====
-- internal/config/load.go: the lists of tokens and of aliases that variables and flags give
-- (`splitList`, `ParseTokens`, `mergeAliases`). The merge of the settings themselves is the work of
-- koanf and of the TOML decoder.
pub mod Tokens
pub mod Aliases
use ollame.Prelude.{
  Bool, true, false, not, ◌&&◌, ◌||◌, List, [], ◌∷◌, ◌++◌, map, Option, none, some, Bytes, codes,
  bytes_eq, contains, cut, starts_with, drop, ◌==◌, Result, ok, err, ◌>>=◌, if◌then◌else◌, ℕ,
}
use ollame.Prelude.Utf8.{trim_space}
use ollame.Config.{valid_token_name}
use ollame.Config.Types.{Token, Alias, Behavior}
use ollame.Config.Value.{Value}
use ollame.Config.Names.{NameError, normalize_alias}
use ollame.Config.Validate.{Invalid, validate_token}

-- `strings.Split (s, ",")`: the first part, and those behind it.
split_commas : Bytes → Bytes × List Bytes
split_commas [] = ([], [])
split_commas (c ∷ s) =
    let (part, parts) = split_commas s in
    if c == b',' then ([], part ∷ parts) else (c ∷ part, parts)

-- `splitList`
unfoldable pub split_list : Bytes → List Bytes
unfolding split_commas trim_space
split_list [] = []
split_list (c ∷ s) = let (part, parts) = split_commas (c ∷ s) in map trim_space (part ∷ parts)

pub data LoadError : Type 0 where
  bad_token_entry bad_alias_entry duplicate_alias_entry : LoadError
  invalid_token : Invalid → LoadError
  invalid_name : NameError → LoadError

abbrev sha256_prefix : Bytes
sha256_prefix = codes "sha256:"

-- The token of an entry, from its name and its value.
unfoldable pub entry_token : Bytes → Bytes → Token
entry_token name value =
    if starts_with sha256_prefix value
    then record { name = name; token = []; sha256 = drop 7 value; token_file = []; token_env = [] }
    else record { name = name; token = value; sha256 = []; token_file = []; token_env = [] }

abbrev pub checked_token : Token → Result LoadError Token
checked_token t = elim (validate_token t) [ err e ↦ err (invalid_token e) | ok _ ↦ ok t ]

-- The body of the loop in `ParseTokens`.
unfoldable pub parse_entry : List Bytes → Bytes → Result LoadError Token
unfolding cut valid_token_name entry_token validate_token
parse_entry seen entry = elim (cut (codes "=") entry) [
  | none ↦ err bad_token_entry
  | some (name, value) ↦
      if not (valid_token_name name) || bytes_eq value [] || contains seen name
      then err bad_token_entry
      else checked_token (entry_token name value)
]

unfoldable pub parse_tokens_from : List Bytes → List Bytes → Result LoadError (List Token)
unfolding parse_entry
parse_tokens_from seen [] = ok []
parse_tokens_from seen (entry ∷ entries) =
    parse_entry seen entry >>= λ t. parse_tokens_from (t.name ∷ seen) entries >>= λ ts. ok (t ∷ ts)

-- `ParseTokens`
unfoldable pub parse_tokens : List Bytes → Result LoadError (List Token)
unfolding parse_tokens_from
parse_tokens = parse_tokens_from []

abbrev pub normalized : Bytes → Bytes → Result LoadError Bytes
normalized name tag = elim (normalize_alias name tag) [ err e ↦ err (invalid_name e) | ok n ↦ ok n ]

abbrev pub no_behavior : Behavior
no_behavior = record {
  sort_model_messages = none;
  family = none;
  context_length = none;
  capabilities = none;
  add_capabilities = none;
  remove_capabilities = none;
  parameter_size = none;
  quantization_level = none;
  embedding_length = none;
  think_style = none;
  think_on = none;
  think_off = none;
  think_max = none;
  think_tags = none;
  think_initial = none;
  forward_sampler_extras = none;
  drop_params = none;
  max_tokens_field = none;
  fim = none;
  fim_template = none;
  extra_body = none;
}

abbrev pub new_alias : Bytes → Bytes → Alias
new_alias name target = record {
  name = name;
  target = target;
  system = [];
  options = none;
  think = Value.null;
  hide_target = false;
  behavior = no_behavior;
}

-- The inner loop of `mergeAliases`, with what follows it where no alias has the name.
unfoldable pub set_target : Bytes → Bytes → Bytes → List Alias → Result LoadError (List Alias)
unfolding normalize_alias
set_target tag name target [] = ok (new_alias name target ∷ [])
set_target tag name target (a ∷ aliases) =
    let rest = set_target tag name target aliases >>= λ updated. ok (a ∷ updated) in
    normalized a.name tag >>= λ prior.
    if bytes_eq prior name then ok (record a { target = target } ∷ aliases) else rest

-- `mergeAliases` on the aliases of the configuration.
unfoldable pub merge_aliases_from :
    Bytes → List Bytes → List Alias → List Bytes → Result LoadError (List Alias)
unfolding cut set_target normalize_alias
merge_aliases_from tag seen aliases [] = ok aliases
merge_aliases_from tag seen aliases (entry ∷ entries) = elim (cut (codes "=") entry) [
  | none ↦ err bad_alias_entry
  | some (name, target) ↦
      if bytes_eq target []
      then err bad_alias_entry
      else normalized name tag >>= λ n.
          if contains seen n
          then err duplicate_alias_entry
          else set_target tag n target aliases >>= λ updated.
              merge_aliases_from tag (n ∷ seen) updated entries
]

unfoldable pub merge_aliases : Bytes → List Alias → List Bytes → Result LoadError (List Alias)
unfolding merge_aliases_from
merge_aliases tag = merge_aliases_from tag []
