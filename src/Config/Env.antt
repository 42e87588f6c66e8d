-- ===== src/Config/Env.antt =====
-- config.rs: the overrides from the environment and the loading of the file. The environment is a
-- function, the file's text an argument, and the TOML reader a parameter.
use raemote_server.Prelude.{
  ℕ, ◌-◌, ◌^◌, ◌≡◌, Bool, true, false, arith, ◌==◌, nat_instance, list_instance, if◌then◌else◌,
  Option, none, some, unwrap_or, is_empty,
}
use raemote_server.Config.Schema.{
  Config, BindConfig, ServeConfig, RateLimitConfig, DiscoveryConfig, default_config,
}
use raemote_server.Text.{Text, codes, trim}
use raemote_server.Text.Decimal.{parse_uint}

abbrev pub Env : Type 0
Env = Text → Option Text

-- `bool::from_str`
unfoldable pub parse_bool : Text → Option Bool
parse_bool s =
    if s == codes "true" then some true else if s == codes "false" then some false else none

-- the override of a setting whose text `parse` reads
unfoldable pub override_from_env : {A : Type 0} → (Text → Option A) → Env → Text → A → A
override_from_env parse env key val = elim (env key) [
  | none ↦ val
  | some s ↦ unwrap_or (parse s) val
]

-- a blank token in the environment is ignored
unfoldable pub override_token : Env → Option Text → Option Text
override_token env token = elim (env (codes "RAEMOTE_BIND_TOKEN")) [
  | none ↦ token
  | some t ↦ if is_empty (trim t) then token else some t
]

abbrev max_u32 : ℕ
max_u32 = 2 ^ 32 - 1

abbrev max_u64 : ℕ
max_u64 = 2 ^ 64 - 1

unfoldable pub override_bind : Env → BindConfig → BindConfig
override_bind env bind = record bind {
  token_ttl_secs =
      override_from_env (parse_uint max_u64) env (codes "RAEMOTE_BIND_TTL_SECS")
        bind.token_ttl_secs;
  token = override_token env bind.token;
  max_failed_attempts =
      override_from_env (parse_uint max_u32) env (codes "RAEMOTE_BIND_MAX_ATTEMPTS")
        bind.max_failed_attempts;
  max_concurrent_connections =
      override_from_env (parse_uint max_u64) env (codes "RAEMOTE_MAX_BIND_CONNECTIONS")
        bind.max_concurrent_connections;
  allow_invites =
      override_from_env parse_bool env (codes "RAEMOTE_BIND_ALLOW_INVITES") bind.allow_invites;
  invite_ttl_secs =
      override_from_env (parse_uint max_u64) env (codes "RAEMOTE_BIND_INVITE_TTL_SECS")
        bind.invite_ttl_secs;
  max_pending_invites =
      override_from_env (parse_uint max_u64) env (codes "RAEMOTE_BIND_MAX_INVITES")
        bind.max_pending_invites;
}

unfoldable pub override_rate_limit : Env → RateLimitConfig → RateLimitConfig
override_rate_limit env limit = record {
  refill =
      override_from_env (parse_uint max_u64) env (codes "RAEMOTE_RATE_LIMIT_REFILL") limit.refill;
  interval_ms =
      override_from_env (parse_uint max_u64) env (codes "RAEMOTE_RATE_LIMIT_INTERVAL_MS")
        limit.interval_ms;
  max = override_from_env (parse_uint max_u64) env (codes "RAEMOTE_RATE_LIMIT_MAX") limit.max;
}

unfoldable pub override_serve : Env → ServeConfig → ServeConfig
override_serve env serve = record {
  max_concurrent_streams =
      override_from_env (parse_uint max_u64) env (codes "RAEMOTE_MAX_CONCURRENT_STREAMS")
        serve.max_concurrent_streams;
  rate_limit = override_rate_limit env serve.rate_limit;
}

unfoldable pub override_discovery : Env → DiscoveryConfig → DiscoveryConfig
override_discovery env discovery = record discovery {
  enabled = override_from_env parse_bool env (codes "RAEMOTE_DISCOVERY_ENABLED") discovery.enabled;
  interval_secs =
      override_from_env (parse_uint max_u64) env (codes "RAEMOTE_DISCOVERY_INTERVAL_SECS")
        discovery.interval_secs;
  probe_timeout_ms =
      override_from_env (parse_uint max_u64) env (codes "RAEMOTE_DISCOVERY_PROBE_TIMEOUT_MS")
        discovery.probe_timeout_ms;
  max_concurrent_probes =
      override_from_env (parse_uint max_u64) env (codes "RAEMOTE_DISCOVERY_MAX_CONCURRENT_PROBES")
        discovery.max_concurrent_probes;
}

-- no two overrides concern one setting, so that they are grouped by section here
unfoldable pub env_override : Env → Config → Config
env_override env config = record config {
  bind = override_bind env config.bind;
  serve = override_serve env config.serve;
  discovery = override_discovery env config.discovery;
}

-- The file is `none` where there is none, and its content `none` where it is unreadable. The result is
-- `none` where reading or parsing fails.
unfoldable pub load : (Text → Option Config) → Env → Option (Option Text) → Option Config
load from_str env none = some default_config
load from_str env (some none) = none
load from_str env (some (some content)) = elim (from_str content) [
  | none ↦ none
  | some config ↦ some (env_override env config)
]

unfoldable pub reload : (Text → Option Config) → Env → Option (Option Text) → Option Config
reload from_str env file = elim (load from_str env file) [
  | none ↦ none
  | some config ↦ some (record config { key_path = none })
]

override_from_env_idem :
    {A : Type 0} (parse : Text → Option A) (env : Env) (key : Text) (val : A)
    → override_from_env parse env key (override_from_env parse env key val)
      ≡ override_from_env parse env key val
unfolding override_from_env
override_from_env_idem parse env key val = ground arith

override_token_idem :
    (env : Env) (token : Option Text)
    → override_token env (override_token env token) ≡ override_token env token
unfolding override_token
override_token_idem env token = ground arith

-- Applying the overrides a second time in the same environment changes nothing.
pub env_override_idem :
    (env : Env) (config : Config)
    → env_override env (env_override env config) ≡ env_override env config
unfolding env_override override_bind override_serve override_rate_limit override_discovery
env_override_idem env config = simp (override_from_env_idem, override_token_idem)
