-- ===== src/Config/Tests.antt =====
-- Runs of internal/config, and its theorems at concrete inputs.
use ollame.Prelude.{
  ◌≡◌, refl, ◌↔◌, arith, true, false, List, [], ◌∷◌, map, some, Option, Bytes, codes, pos, All,
  Apart, ok, err, Bool, bytes_eq, contains, starts_with, ends_with,
}
use ollame.Prelude.Utf8.{has_space}
use ollame.Prelude.Decimal.{parse_int}
use ollame.Config.{valid_token_name}
use ollame.Config.Types.{Config, Token, Alias, Override}
use ollame.Config.Types.Defaults.{defaults, default_models, default_auth}
use ollame.Config.Value.{Value, Fields}
use ollame.Config.Names.{normalize_alias, invalid_alias_name, valid_header, valid_capability}
use ollame.Config.Names.Shape.{normalize_alias-idempotent}
use ollame.Config.Size.{unmarshal_size, marshal_size, invalid_size, units}
use ollame.Config.Size.RoundTrip.{IsSize, unmarshal-marshal_size, unmarshal_size-IsSize}
use ollame.Config.Load.{new_alias, no_behavior, parse_tokens, merge_aliases, split_list}
use ollame.Config.Load.Tokens.{IsInline, entry_of, parse_tokens_iff}
use ollame.Config.Load.Aliases.{target_of, entry_target, Keeps, merge_aliases-targets}
use ollame.Config.Validate.{
  Url, validate, serve_profile, check_tokens, validate_behavior, protected_field,
  valid_parameter_size, all_capable, unprotected,
}
use ollame.Config.Validate.Sound.{AliasesHold, token_names}
use ollame.Config.Validate.Sound.Accepted.{
  SparesProtected, TokenHolds, validate-aliases, validate-SparesProtected, validate-tokens,
}

abbrev local_url : Bytes → Option Url
local_url _ = some (record {
  scheme = codes "http";
  host = codes "localhost:4000";
  path = codes "/v1/";
  raw_query = [];
  fragment = [];
})

abbrev any_glob : Bytes → Bool
any_glob _ = true

abbrev two_aliases : List Alias
two_aliases =
    new_alias (codes "Fast") (codes "gpt-small") ∷ new_alias (codes "fast:big") (codes "gpt") ∷ []

abbrev one_token : List Token
one_token =
    record {
      name = codes "ci";
      token = codes "s3cret";
      sha256 = [];
      token_file = [];
      token_env = [];
    }
    ∷ []

abbrev small_config : Config
small_config = record defaults {
  models = record default_models { aliases = two_aliases };
  auth = record default_auth { tokens = one_token };
}

accepted : validate local_url any_glob small_config serve_profile ≡ ok tt
unfolding validate defaults bytes_eq contains starts_with ends_with has_space all_capable
    valid_capability unprotected valid_parameter_size valid_token_name
accepted = refl

validate-aliases_example :
    (names : List Bytes) × AliasesHold (codes "latest") two_aliases names × Apart names
validate-aliases_example = validate-aliases local_url any_glob small_config serve_profile accepted

validate-SparesProtected_example :
    All (λ a. SparesProtected a.behavior) two_aliases
    × All {A = Override} (λ o. SparesProtected o.behavior) []
validate-SparesProtected_example =
    validate-SparesProtected local_url any_glob small_config serve_profile accepted

validate-tokens_example : All TokenHolds one_token × Apart (token_names one_token)
validate-tokens_example = validate-tokens local_url any_glob small_config accepted

protected_model :
    validate_behavior (record no_behavior {
      extra_body = some (Fields.field (codes "model") Value.null Fields.empty);
    })
    ≡ err (protected_field (codes "model"))
unfolding validate_behavior bytes_eq contains unprotected
protected_model = refl

unmarshal-marshal_size_example : unmarshal_size (marshal_size (pos 65536)) ≡ ok (pos 65536)
unmarshal-marshal_size_example = unmarshal-marshal_size 65536 (omega arith)

read_mib : unmarshal_size (codes "64MiB") ≡ ok (pos 67108864)
unfolding unmarshal_size ends_with parse_int
read_mib = refl

too_large : unmarshal_size (codes "8589934592GiB") ≡ err invalid_size
unfolding unmarshal_size ends_with parse_int
too_large = refl

unmarshal_size-IsSize_example : IsSize units (codes "64MiB") (pos 67108864)
unmarshal_size-IsSize_example = unmarshal_size-IsSize (codes "64MiB") (pos 67108864) read_mib

normal : normalize_alias (codes " Team/Fast ") (codes "Latest") ≡ ok (codes "team/fast:latest")
unfolding normalize_alias bytes_eq has_space
normal = refl

plain_tag : has_space (codes "Latest") ≡ false
unfolding has_space
plain_tag = refl

normalize_alias-idempotent_example :
    normalize_alias (codes "team/fast:latest") (codes "v2") ≡ ok (codes "team/fast:latest")
normalize_alias-idempotent_example =
    normalize_alias-idempotent (codes " Team/Fast ") (codes "Latest") (codes "v2")
      (codes "team/fast:latest") plain_tag normal

parse_tokens_iff_example : (parse_tokens (codes "ci=s3cret" ∷ []) ≡ ok one_token) ↔ (
    (check_tokens [] one_token ≡ ok tt)
    × All IsInline one_token
    × (codes "ci=s3cret" ∷ [] ≡ map entry_of one_token))
parse_tokens_iff_example = parse_tokens_iff (codes "ci=s3cret" ∷ []) one_token

abbrev retargeted : List Alias
retargeted =
    new_alias (codes "Fast") (codes "gpt-mini")
    ∷ new_alias (codes "fast:big") (codes "gpt")
    ∷ new_alias (codes "slow:latest") (codes "opus")
    ∷ []

abbrev two_entries : List Bytes
two_entries = codes "fast:latest=gpt-mini" ∷ codes "slow=opus" ∷ []

merged : merge_aliases (codes "latest") two_aliases two_entries ≡ ok retargeted
unfolding merge_aliases bytes_eq has_space contains
merged = refl

latest_tag : has_space (codes "latest") ≡ false
unfolding has_space
latest_tag = refl

merge_aliases-targets_example :
    (target_of (codes "latest") (codes "fast:latest") retargeted
      ≡ entry_target
          (codes "latest")
          (codes "fast:latest")
          two_entries
          (target_of (codes "latest") (codes "fast:latest") two_aliases))
    × Keeps two_aliases retargeted
merge_aliases-targets_example =
    merge_aliases-targets (codes "latest") two_entries two_aliases retargeted (codes "fast:latest")
      latest_tag merged

listed : split_list (codes "a, b,,c ") ≡ codes "a" ∷ codes "b" ∷ [] ∷ codes "c" ∷ []
unfolding split_list
listed = refl

headers : valid_header (codes "X-Team") ≡ true
unfolding valid_header bytes_eq
headers = refl

sizes : valid_parameter_size (some (codes "7.5B")) ≡ true
unfolding valid_parameter_size bytes_eq
sizes = refl

abbrev odd_tag : Bytes
odd_tag = b'x' ∷ 194 ∷ 160 ∷ b'y' ∷ []

-- A no-break space in the default tag gives a name that is refused.
space_in_tag :
    (normalize_alias (codes "a") odd_tag ≡ ok (b'a' ∷ b':' ∷ odd_tag))
    × (normalize_alias (b'a' ∷ b':' ∷ odd_tag) odd_tag ≡ err invalid_alias_name)
unfolding normalize_alias bytes_eq has_space
space_in_tag = (refl, refl)
