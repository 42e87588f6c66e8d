-- ===== src/Config/Schema.antt =====
-- config.rs: the schema and its defaults.
use raemote_server.Prelude.{
  ℕ, Bool, true, false, List, [], nat_instance, list_instance, Option, none,
}
use raemote_server.Text.{Text}

pub record BindConfig : Type 0 where
  pub token_ttl_secs : ℕ
  pub max_failed_attempts : ℕ
  pub max_concurrent_connections : ℕ
  pub token : Option Text
  pub allow_invites : Bool
  pub invite_ttl_secs : ℕ
  pub max_pending_invites : ℕ

pub record RateLimitConfig : Type 0 where
  pub refill : ℕ
  pub interval_ms : ℕ
  pub max : ℕ

pub record ServeConfig : Type 0 where
  pub max_concurrent_streams : ℕ
  pub rate_limit : RateLimitConfig

pub record DiscoveryConfig : Type 0 where
  pub enabled : Bool
  pub interval_secs : ℕ
  pub recheck_secs : ℕ
  pub probe_timeout_ms : ℕ
  pub max_concurrent_probes : ℕ
  pub min_port : ℕ
  pub http_probe : Bool
  pub https_probe : Bool
  pub loopback_only : Bool
  pub include_unattributed : Bool
  pub exclude_ports : List ℕ
  pub exclude_processes : List Text
  pub exclude_origins : List Text

pub record NetworkConfig : Type 0 where
  pub relay_url : Option Text
  pub proxy : Option Text

pub record AppConfig : Type 0 where
  pub name : Text
  pub port : ℕ

pub record Config : Type 0 where
  pub name : Option Text
  pub key_path : Option Text
  pub network : NetworkConfig
  pub bind : BindConfig
  pub serve : ServeConfig
  pub discovery : DiscoveryConfig
  pub log_level : Option Text
  pub apps : List AppConfig

abbrev pub default_bind : BindConfig
default_bind = record {
  token_ttl_secs = 300;
  max_failed_attempts = 10;
  max_concurrent_connections = 50;
  token = none;
  allow_invites = true;
  invite_ttl_secs = 300;
  max_pending_invites = 3;
}

abbrev pub default_rate_limit : RateLimitConfig
default_rate_limit = record { refill = 100; interval_ms = 1000; max = 1000 }

abbrev pub default_serve : ServeConfig
default_serve = record { max_concurrent_streams = 100; rate_limit = default_rate_limit }

abbrev pub default_discovery : DiscoveryConfig
default_discovery = record {
  enabled = true;
  interval_secs = 30;
  recheck_secs = 300;
  probe_timeout_ms = 400;
  max_concurrent_probes = 16;
  min_port = 1024;
  http_probe = true;
  https_probe = false;
  loopback_only = true;
  include_unattributed = true;
  exclude_ports = [];
  exclude_processes = [];
  exclude_origins = [];
}

abbrev pub default_config : Config
default_config = record {
  name = none;
  key_path = none;
  network = record { relay_url = none; proxy = none };
  bind = default_bind;
  serve = default_serve;
  discovery = default_discovery;
  log_level = none;
  apps = [];
}
