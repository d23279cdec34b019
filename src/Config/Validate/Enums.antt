-- ===== src/Config/Validate/Enums.antt =====
-- internal/config/validate.go: `validateEnum`, with the errors of the file.
use ollame.Prelude.{
  List, [], ◌∷◌, Option, none, some, Bytes, codes, bytes_eq, contains, Result, ok, err, Dict, ◌>>=◌,
  if◌then◌else◌,
}
use ollame.Config.Names.{NameError}

-- The errors by their texts; `unknown_enum` and `invalid_enum` with the key.
pub data Invalid : Type 0 where
  bad_base_url no_v1 bad_glob bad_default_capability bad_model_bounds : Invalid
  bad_upstream_bounds bad_extra_header duplicate_alias bad_alias_target : Invalid
  think_initial_without_tags no_fim_template bad_embed_batches bad_server_bounds : Invalid
  tls_pair unix_path bad_auth_intervals bad_limit duplicate_token bad_public_path : Invalid
  unregistered_path bad_token_name bad_credential_count bad_digest : Invalid
  bad_override_capability bad_override_dimensions bad_parameter_size : Invalid
  unknown_enum invalid_enum protected_field : Bytes → Invalid
  bad_name : NameError → Invalid

abbrev pub Check : Type 0
Check = Result Invalid (Unit {0})

abbrev words : List Bytes → Option (List Bytes)
words ws = some ws

-- The `switch` of `validateEnum`.
unfoldable pub allowed : Bytes → Option (List Bytes)
allowed name =
    if bytes_eq name (codes "upstream.flavor")
    then words (codes "litellm" ∷ codes "openai" ∷ [])
    else if bytes_eq name (codes "upstream.model_info")
    then words (codes "auto" ∷ codes "litellm" ∷ codes "off" ∷ [])
    else if bytes_eq name (codes "upstream.stream_mode")
    then words (codes "always" ∷ codes "match" ∷ [])
    else if bytes_eq name (codes "upstream.max_tokens_field")
    then words (codes "max_tokens" ∷ codes "max_completion_tokens" ∷ [])
    else if bytes_eq name (codes "auth.mode")
    then words (codes "required" ∷ codes "optional" ∷ codes "disabled" ∷ [])
    else if bytes_eq name (codes "compat.think_style")
    then words (codes "reasoning_effort" ∷ codes "chat_template_kwargs" ∷ codes "none" ∷ [])
    else if bytes_eq name (codes "compat.think_off")
    then words (codes "omit" ∷ codes "none" ∷ codes "disable" ∷ [])
    else if bytes_eq name (codes "compat.history_thinking")
    then words (codes "drop" ∷ codes "reasoning_content" ∷ [])
    else if bytes_eq name (codes "compat.orphan_tool_result")
    then words (codes "user_message" ∷ codes "error" ∷ [])
    else if bytes_eq name (codes "compat.bad_tool_arguments")
    then words (codes "wrap" ∷ codes "error" ∷ [])
    else if bytes_eq name (codes "compat.missing_tool_result")
    then words (codes "synthesize" ∷ codes "passthrough" ∷ [])
    else if bytes_eq name (codes "generate.raw")
    then words (codes "completions" ∷ codes "chat" ∷ codes "error" ∷ [])
    else if bytes_eq name (codes "generate.fim")
    then words (codes "off" ∷ codes "suffix" ∷ codes "template" ∷ [])
    else if bytes_eq name (codes "management.pull")
    then words (codes "emulate" ∷ codes "error" ∷ [])
    else if contains
        (codes "management.push"
          ∷ codes "management.create"
          ∷ codes "management.copy"
          ∷ codes "management.delete"
          ∷ [])
        name
    then words (codes "error" ∷ [])
    else if bytes_eq name (codes "management.ps")
    then words (codes "recent" ∷ codes "empty" ∷ codes "catalog" ∷ [])
    else if bytes_eq name (codes "log.level")
    then words (codes "debug" ∷ codes "info" ∷ codes "warn" ∷ codes "error" ∷ [])
    else if bytes_eq name (codes "log.format")
    then words (codes "json" ∷ codes "text" ∷ [])
    else none

unfoldable pub one_of : Bytes → Option (List Bytes) → Bytes → Check
one_of name none value = err (unknown_enum name)
one_of name (some ws) value = if contains ws value then ok tt else err (invalid_enum name)

unfoldable pub validate_enum : Bytes → Bytes → Check
unfolding allowed one_of
validate_enum name value = one_of name (allowed name) value

-- `for name, value := range map… { if err = validateEnum(name, value); err != nil { return err } }`
unfoldable pub validate_enums : Dict Bytes → Check
unfolding validate_enum
validate_enums [] = ok tt
validate_enums ((name, value) ∷ entries) = validate_enum name value >>= λ _. validate_enums entries
