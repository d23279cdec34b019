-- ===== src/Config/Types.antt =====
-- internal/config/types.go: the records of the serving configuration and their defaults.
-- A pointer is an `Option`; sizes and durations are their `int64`, durations in nanoseconds.
pub mod Defaults
use ollame.Prelude.{ℤ, Bool, Option, List, Bytes, Dict}
use ollame.Config.Value.{Value, Fields}

abbrev pub Duration : Type 0
Duration = ℤ

abbrev pub Size : Type 0
Size = ℤ

pub record Server : Type 0 where
  pub listen : Bytes
  pub admin_listen : Bytes
  pub max_body_bytes : Size
  pub max_header_bytes : Size
  pub write_stall_timeout : Duration
  pub drain_delay : Duration
  pub read_header_timeout : Duration
  pub idle_timeout : Duration
  pub shutdown_grace : Duration
  pub max_inflight : ℤ
  pub cors_origins : List Bytes
  pub tls_cert : Bytes
  pub tls_key : Bytes
  pub root_banner : Bytes

pub record Upstream : Type 0 where
  pub base_url : Bytes
  pub api_key : Bytes
  pub api_key_file : Bytes
  pub flavor : Bytes
  pub model_info : Bytes
  pub connect_timeout : Duration
  pub header_timeout : Duration
  pub idle_timeout : Duration
  pub request_timeout : Duration
  pub body_timeout : Duration
  pub retries : ℤ
  pub stream_mode : Bytes
  pub max_tokens_field : Bytes
  pub forward_client_as_user : Bool
  pub user_prefix : Bytes
  pub tags : List Bytes
  pub extra_headers : Dict Bytes
  pub ca_file : Bytes
  pub insecure_skip_verify : Bool
  pub max_idle_conns : ℤ

pub record Token : Type 0 where
  pub name : Bytes
  pub token : Bytes
  pub sha256 : Bytes
  pub token_file : Bytes
  pub token_env : Bytes

pub record Auth : Type 0 where
  pub mode : Bytes
  pub tokens_file : Bytes
  pub tokens_dir : Bytes
  pub reload_interval : Duration
  pub stale_grace : Duration
  pub public_paths : List Bytes
  pub accept_basic : Bool
  pub accept_x_api_key : Bool
  pub tokens : List Token

-- `nil` and the empty slice or map differ for a `Behavior`, so its slices and its map are options.
pub record Behavior : Type 0 where
  pub sort_model_messages : Option Bool
  pub family : Option Bytes
  pub context_length : Option ℤ
  pub capabilities : Option (List Bytes)
  pub add_capabilities : Option (List Bytes)
  pub remove_capabilities : Option (List Bytes)
  pub parameter_size : Option Bytes
  pub quantization_level : Option Bytes
  pub embedding_length : Option ℤ
  pub think_style : Option Bytes
  pub think_on : Option Bytes
  pub think_off : Option Bytes
  pub think_max : Option Bytes
  pub think_tags : Option Bool
  pub think_initial : Option Bool
  pub forward_sampler_extras : Option Bool
  pub drop_params : Option (List Bytes)
  pub max_tokens_field : Option Bytes
  pub fim : Option Bytes
  pub fim_template : Option Bytes
  pub extra_body : Option Fields

pub record Alias : Type 0 where
  pub name : Bytes
  pub target : Bytes
  pub system : Bytes
  pub options : Option Fields
  pub think : Value
  pub hide_target : Bool
  pub behavior : Behavior

pub record Override : Type 0 where
  pub match : Bytes
  pub behavior : Behavior

pub record Models : Type 0 where
  pub refresh_interval : Duration
  pub fetch_timeout : Duration
  pub require_on_start : Bool
  pub refresh_on_miss : Bool
  pub include : List Bytes
  pub exclude : List Bytes
  pub modes : List Bytes
  pub default_tag : Bytes
  pub default_context_length : ℤ
  pub default_capabilities : List Bytes
  pub architecture : Bytes
  pub format : Bytes
  pub advertise_remote : Bool
  pub aliases : List Alias
  pub overrides : List Override

pub record Compat : Type 0 where
  pub sort_model_messages : Bool
  pub ollama_version : Bytes
  pub strict_options : Bool
  pub strict_capabilities : Bool
  pub think_style : Bytes
  pub think_on : Bytes
  pub think_off : Bytes
  pub think_max : Bytes
  pub think_tags : Bool
  pub think_initial : Bool
  pub history_thinking : Bytes
  pub orphan_tool_result : Bytes
  pub bad_tool_arguments : Bytes
  pub missing_tool_result : Bytes
  pub json_schema_strict : Bool
  pub forward_sampler_extras : Bool
  pub default_image_mime : Bytes
  pub estimate_tokens : Bool

pub record Generate : Type 0 where
  pub raw : Bytes
  pub fim : Bytes
  pub fim_template : Bytes

pub record Embed : Type 0 where
  pub normalize : Bool
  pub legacy_normalize : Bool
  pub batch_size : ℤ
  pub batch_concurrency : ℤ

pub record Management : Type 0 where
  pub pull : Bytes
  pub push : Bytes
  pub create : Bytes
  pub copy : Bytes
  pub delete : Bytes
  pub ps : Bytes

pub record Passthrough : Type 0 where
  pub enabled : Bool
  pub paths : List Bytes
  pub response_headers : List Bytes

pub record Limits : Type 0 where
  pub max_aggregate_bytes : Size
  pub max_tool_calls : ℤ
  pub max_tool_call_bytes : Size
  pub max_upstream_json_bytes : Size
  pub max_embed_inputs : ℤ
  pub max_images : ℤ
  pub max_catalog_models : ℤ

pub record Admin : Type 0 where
  pub debug : Bool

pub record Log : Type 0 where
  pub level : Bytes
  pub format : Bytes
  pub access : Bool
  pub bodies : Bool

pub record Metrics : Type 0 where
  pub enabled : Bool
  pub token_labels : Bool

pub record Config : Type 0 where
  pub server : Server
  pub upstream : Upstream
  pub auth : Auth
  pub models : Models
  pub compat : Compat
  pub generate : Generate
  pub embed : Embed
  pub management : Management
  pub passthrough : Passthrough
  pub limits : Limits
  pub admin : Admin
  pub log : Log
  pub metrics : Metrics
