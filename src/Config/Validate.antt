-- ===== src/Config/Validate.antt =====
-- internal/config/validate.go: `Validate` and the checks that it makes of one value each. The maps
-- that the source ranges over are listed in the order written: which error comes first varies there.
-- `url.Parse` and the compilation of a glob are arguments.
mod Enums
mod Tokens
mod Behaviors
pub mod Sound
unfoldable pub use Enums.*
unfoldable pub use Tokens.*
unfoldable pub use Behaviors.*
use ollame.Prelude.{
  ℤ, pos, ltb_ℤ, leb_ℤ, Bool, true, false, not, ◌&&◌, ◌||◌, List, [], ◌∷◌, ◌++◌, Option, none, some,
  Bytes, codes, bytes_eq, contains, starts_with, ends_with, length, drop, Dict, ◌==◌, Result, ok,
  err, ◌>>=◌, if◌then◌else◌,
}
use mathlib.Core.List.{reverse}
use ollame.Prelude.Utf8.{trim_space}
use ollame.Config.Names.{
  normalize_alias, valid_think, valid_capability, valid_header, contains_any, NameError,
}
use ollame.Config.Types.{
  Config, Server, Upstream, Auth, Models, Compat, Generate, Management, Log, Limits, Alias,
  Override, Token,
}
use ollame.Config.Types.Defaults.{defaults}

pub data Profile : Type 0 where
  serve_profile models_profile : Profile

-- What the checks read of a `url.URL`.
pub record Url : Type 0 where
  pub scheme : Bytes
  pub host : Bytes
  pub path : Bytes
  pub raw_query : Bytes
  pub fragment : Bytes

infixl 5 ◌>>◌
abbrev pub ◌>>◌ : Check → Check → Check
m >> k = m >>= λ _. k

-- `if test { return error }`
abbrev pub refuse : Bool → Invalid → Check
refuse true e = err e
refuse false e = ok tt

drop_slashes : Bytes → Bytes
drop_slashes [] = []
drop_slashes (c ∷ s) = if c == b'/' then drop_slashes s else c ∷ s

-- `strings.TrimRight (s, "/")`
unfoldable pub trim_right : Bytes → Bytes
unfolding drop_slashes
trim_right s = reverse (drop_slashes (reverse s))

unfoldable pub check_url : Option Url → Check
unfolding trim_right
check_url none = err bad_base_url
check_url (some u) =
    refuse
      (bytes_eq u.host []
        || (not (bytes_eq u.scheme (codes "http")) && not (bytes_eq u.scheme (codes "https")))
        || not (bytes_eq u.raw_query [])
        || not (bytes_eq u.fragment []))
      bad_base_url
    >> refuse (not (ends_with (codes "/v1") (trim_right u.path))) no_v1

abbrev pub named : Result NameError Bytes → Result Invalid Bytes
named (err e) = err (bad_name e)
named (ok name) = ok name

abbrev nonpositive : ℤ → Bool
nonpositive n = leb_ℤ n (pos 0)

abbrev below_zero : ℤ → Bool
below_zero n = ltb_ℤ n (pos 0)

unfoldable pub any_nonpositive : List ℤ → Bool
any_nonpositive [] = false
any_nonpositive (n ∷ ns) = nonpositive n || any_nonpositive ns

unfoldable pub bad_headers : Dict Bytes → Bool
unfolding valid_header
bad_headers [] = false
bad_headers ((name, value) ∷ headers) =
    not (valid_header name) || contains_any (13 ∷ 10 ∷ []) value || bad_headers headers

unfoldable pub check_aliases : Bytes → List Bytes → List Alias → Check
unfolding normalize_alias valid_think
check_aliases tag seen [] = ok tt
check_aliases tag seen (a ∷ aliases) = named (normalize_alias a.name tag) >>= λ name.
    refuse (contains seen name) duplicate_alias
    >> refuse (bytes_eq (trim_space a.target) [] || not (valid_think a.think)) bad_alias_target
    >> validate_behavior a.behavior
    >> check_aliases tag (name ∷ seen) aliases

unfoldable pub check_tokens : List Bytes → List Token → Check
unfolding validate_token
check_tokens seen [] = ok tt
check_tokens seen (t ∷ tokens) =
    validate_token t
    >> refuse (contains seen t.name) duplicate_token
    >> check_tokens (t.name ∷ seen) tokens

unfoldable pub bad_public_paths : List Bytes → Bool
bad_public_paths [] = false
bad_public_paths (p ∷ paths) =
    not (starts_with (codes "/") p) || contains_any (codes "?#") p || bad_public_paths paths

unfoldable pub unregistered : List Bytes → List Bytes → Bool
unregistered registered [] = false
unregistered registered (p ∷ paths) = not (contains registered p) || unregistered registered paths

unfoldable pub registered_paths : List Bytes
unfolding defaults
registered_paths = defaults.passthrough.paths ++ codes "/v1/audio/transcriptions" ∷ []

abbrev upstream_enums : Upstream → Dict Bytes
upstream_enums u =
    (codes "upstream.flavor", u.flavor)
    ∷ (codes "upstream.model_info", u.model_info)
    ∷ (codes "upstream.stream_mode", u.stream_mode)
    ∷ (codes "upstream.max_tokens_field", u.max_tokens_field)
    ∷ []

abbrev serve_enums : Config → Dict Bytes
serve_enums cfg =
    (codes "auth.mode", cfg.auth.mode)
    ∷ (codes "compat.think_style", cfg.compat.think_style)
    ∷ (codes "compat.think_off", cfg.compat.think_off)
    ∷ (codes "compat.history_thinking", cfg.compat.history_thinking)
    ∷ (codes "compat.orphan_tool_result", cfg.compat.orphan_tool_result)
    ∷ (codes "compat.bad_tool_arguments", cfg.compat.bad_tool_arguments)
    ∷ (codes "compat.missing_tool_result", cfg.compat.missing_tool_result)
    ∷ (codes "generate.raw", cfg.generate.raw)
    ∷ (codes "generate.fim", cfg.generate.fim)
    ∷ (codes "management.pull", cfg.management.pull)
    ∷ (codes "management.push", cfg.management.push)
    ∷ (codes "management.create", cfg.management.create)
    ∷ (codes "management.copy", cfg.management.copy)
    ∷ (codes "management.delete", cfg.management.delete)
    ∷ (codes "management.ps", cfg.management.ps)
    ∷ (codes "log.level", cfg.log.level)
    ∷ (codes "log.format", cfg.log.format)
    ∷ []

-- The `int` and `Size` fields that the loop by reflection reads.
abbrev limit_fields : Limits → List ℤ
limit_fields l =
    l.max_aggregate_bytes ∷ l.max_tool_calls ∷ l.max_tool_call_bytes ∷ l.max_upstream_json_bytes
    ∷ l.max_embed_inputs ∷ l.max_images ∷ l.max_catalog_models ∷ []

abbrev eq_ℤ : ℤ → ℤ → Bool
eq_ℤ a b = leb_ℤ a b && leb_ℤ b a

-- `!=` on truth values
abbrev differ : Bool → Bool → Bool
differ true b = not b
differ false b = b

module _ (compiles : Bytes → Bool) where
  -- `glob.CompileAll` gives no error.
  unfoldable pub check_globs : List Bytes → Check
  check_globs [] = ok tt
  check_globs (p ∷ patterns) = refuse (not (compiles p)) bad_glob >> check_globs patterns

  unfoldable pub check_overrides : List Override → Check
  unfolding validate_behavior
  check_overrides [] = ok tt
  check_overrides (o ∷ overrides) =
      refuse (not (compiles o.match)) bad_glob
      >> validate_behavior o.behavior
      >> check_overrides overrides

  -- The rest of `Validate`
  unfoldable pub check_serve : Config → Check
  unfolding check_tokens check_globs validate_enums bad_public_paths unregistered registered_paths
      any_nonpositive
  check_serve cfg =
      validate_enums (serve_enums cfg)
      >> refuse (cfg.compat.think_initial && not cfg.compat.think_tags) think_initial_without_tags
      >> refuse
          (bytes_eq cfg.generate.fim (codes "template") && bytes_eq cfg.generate.fim_template [])
          no_fim_template
      >> refuse (not (eq_ℤ cfg.embed.batch_concurrency (pos 1)) || below_zero cfg.embed.batch_size)
          bad_embed_batches
      >> refuse
          (bytes_eq cfg.server.listen []
            || nonpositive cfg.server.max_body_bytes
            || nonpositive cfg.server.max_header_bytes
            || nonpositive cfg.server.write_stall_timeout
            || nonpositive cfg.server.read_header_timeout
            || nonpositive cfg.server.idle_timeout
            || below_zero cfg.server.shutdown_grace
            || below_zero cfg.server.drain_delay
            || below_zero cfg.server.max_inflight)
          bad_server_bounds
      >> refuse (differ (bytes_eq cfg.server.tls_cert []) (bytes_eq cfg.server.tls_key [])) tls_pair
      >> refuse
          (starts_with (codes "unix:") cfg.server.listen && bytes_eq (drop 5 cfg.server.listen) [])
          unix_path
      >> refuse (nonpositive cfg.auth.reload_interval || below_zero cfg.auth.stale_grace)
          bad_auth_intervals
      >> refuse (any_nonpositive (limit_fields cfg.limits)) bad_limit
      >> check_tokens [] cfg.auth.tokens
      >> refuse (bad_public_paths cfg.auth.public_paths) bad_public_path
      >> refuse (unregistered registered_paths cfg.passthrough.paths) unregistered_path
      >> check_globs cfg.passthrough.response_headers

  abbrev pub serve_part : Profile → Config → Check
  serve_part models_profile cfg = ok tt
  serve_part serve_profile cfg = check_serve cfg

module _ (parse_url : Bytes → Option Url) (compiles : Bytes → Bool) where
  -- `Validate` up to the return for `ModelsProfile`
  unfoldable pub check_models : Config → Check
  unfolding check_url check_globs check_aliases check_overrides validate_enums bad_headers
  check_models cfg =
      check_url (parse_url cfg.upstream.base_url)
      >> (named (normalize_alias (codes "check") cfg.models.default_tag) >>= λ _. ok tt)
      >> check_globs compiles cfg.models.include
      >> check_globs compiles cfg.models.exclude
      >> validate_enums (upstream_enums cfg.upstream)
      >> refuse (not (all_capable cfg.models.default_capabilities)) bad_default_capability
      >> refuse
          (nonpositive cfg.models.default_context_length
            || nonpositive cfg.models.refresh_interval
            || nonpositive cfg.models.fetch_timeout)
          bad_model_bounds
      >> refuse
          (nonpositive cfg.upstream.connect_timeout
            || nonpositive cfg.upstream.header_timeout
            || nonpositive cfg.upstream.idle_timeout
            || nonpositive cfg.upstream.request_timeout
            || nonpositive cfg.upstream.body_timeout
            || below_zero cfg.upstream.retries
            || below_zero cfg.upstream.max_idle_conns)
          bad_upstream_bounds
      >> refuse (bad_headers cfg.upstream.extra_headers) bad_extra_header
      >> check_aliases cfg.models.default_tag [] cfg.models.aliases
      >> check_overrides compiles cfg.models.overrides

  -- `Config.Validate`
  unfoldable pub validate : Config → Profile → Check
  unfolding check_models check_serve
  validate cfg profile = check_models cfg >> serve_part compiles profile cfg
