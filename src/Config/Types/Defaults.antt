-- ===== src/Config/Types/Defaults.antt =====
-- internal/config/types.go: the function `Defaults`.
use ollame.Prelude.{ℕ, ◌*◌, ◌^◌, pos, true, false, [], ◌∷◌, codes}
use ollame.Config.Types.{
  Config, Server, Upstream, Auth, Models, Compat, Management, Passthrough, Limits, Duration,
}

abbrev second : ℕ
second = 1000000000

abbrev seconds : ℕ → Duration
seconds n = pos (n * second)

abbrev pub default_server : Server
default_server = record {
  listen = codes ":11434";
  admin_listen = codes "127.0.0.1:9434";
  max_body_bytes = pos (64 * 2 ^ 20);
  max_header_bytes = pos (64 * 2 ^ 10);
  write_stall_timeout = seconds 30;
  drain_delay = seconds 5;
  read_header_timeout = seconds 10;
  idle_timeout = seconds 120;
  shutdown_grace = seconds 60;
  max_inflight = pos 0;
  cors_origins = [];
  tls_cert = [];
  tls_key = [];
  root_banner = codes "Ollama is running";
}

abbrev pub default_upstream : Upstream
default_upstream = record {
  base_url = [];
  api_key = [];
  api_key_file = [];
  flavor = codes "litellm";
  model_info = codes "auto";
  connect_timeout = seconds 5;
  header_timeout = seconds 300;
  idle_timeout = seconds 120;
  request_timeout = seconds 3600;
  body_timeout = seconds 120;
  retries = pos 1;
  stream_mode = codes "always";
  max_tokens_field = codes "max_tokens";
  forward_client_as_user = true;
  user_prefix = codes "ollame:";
  tags = codes "ollame" ∷ [];
  extra_headers = [];
  ca_file = [];
  insecure_skip_verify = false;
  max_idle_conns = pos 256;
}

abbrev pub default_auth : Auth
default_auth = record {
  mode = codes "required";
  tokens_file = [];
  tokens_dir = [];
  reload_interval = seconds 30;
  stale_grace = seconds 300;
  public_paths = codes "/" ∷ codes "/api/version" ∷ [];
  accept_basic = true;
  accept_x_api_key = true;
  tokens = [];
}

abbrev pub default_models : Models
default_models = record {
  refresh_interval = seconds 60;
  fetch_timeout = seconds 15;
  require_on_start = true;
  refresh_on_miss = true;
  include = codes "*" ∷ [];
  exclude = [];
  modes = codes "chat" ∷ codes "completion" ∷ codes "embedding" ∷ [];
  default_tag = codes "latest";
  default_context_length = pos 131072;
  default_capabilities = codes "completion" ∷ codes "tools" ∷ [];
  architecture = [];
  format = codes "gguf";
  advertise_remote = false;
  aliases = [];
  overrides = [];
}

abbrev pub default_compat : Compat
default_compat = record {
  sort_model_messages = false;
  ollama_version = codes "0.34.0";
  strict_options = false;
  strict_capabilities = false;
  think_style = codes "reasoning_effort";
  think_on = codes "medium";
  think_off = codes "omit";
  think_max = codes "high";
  think_tags = false;
  think_initial = false;
  history_thinking = codes "drop";
  orphan_tool_result = codes "user_message";
  bad_tool_arguments = codes "wrap";
  missing_tool_result = codes "synthesize";
  json_schema_strict = false;
  forward_sampler_extras = false;
  default_image_mime = codes "image/png";
  estimate_tokens = false;
}

abbrev pub default_management : Management
default_management = record {
  pull = codes "emulate";
  push = codes "error";
  create = codes "error";
  copy = codes "error";
  delete = codes "error";
  ps = codes "recent";
}

abbrev pub default_passthrough : Passthrough
default_passthrough = record {
  enabled = true;
  paths =
      codes "/v1/chat/completions"
      ∷ codes "/v1/completions"
      ∷ codes "/v1/embeddings"
      ∷ codes "/v1/models"
      ∷ codes "/v1/models/{model}"
      ∷ codes "/v1/responses"
      ∷ codes "/v1/responses/compact"
      ∷ codes "/v1/messages"
      ∷ [];
  response_headers =
      codes "x-litellm-*"
      ∷ codes "retry-after"
      ∷ codes "x-request-id"
      ∷ codes "openai-*"
      ∷ codes "anthropic-*"
      ∷ [];
}

abbrev pub default_limits : Limits
default_limits = record {
  max_aggregate_bytes = pos (32 * 2 ^ 20);
  max_tool_calls = pos 128;
  max_tool_call_bytes = pos (2 ^ 20);
  max_upstream_json_bytes = pos (64 * 2 ^ 20);
  max_embed_inputs = pos 2048;
  max_images = pos 32;
  max_catalog_models = pos 10000;
}

unfoldable pub defaults : Config
defaults = record {
  server = default_server;
  upstream = default_upstream;
  auth = default_auth;
  models = default_models;
  compat = default_compat;
  generate = record { raw = codes "completions"; fim = codes "off"; fim_template = [] };
  embed = record {
    normalize = true;
    legacy_normalize = false;
    batch_size = pos 0;
    batch_concurrency = pos 1;
  };
  management = default_management;
  passthrough = default_passthrough;
  limits = default_limits;
  admin = record { debug = false };
  log = record { level = codes "info"; format = codes "json"; access = true; bodies = false };
  metrics = record { enabled = true; token_labels = true };
}
