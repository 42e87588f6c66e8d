-- ===== src/Cli/Settings.antt =====
-- bin/raemote.rs: `config get` and `config set`, from the file and the environment to the configuration
-- that is saved. The parser of the file is an argument.
use raemote_server.Prelude.{
  ℕ, Bool, List, [], ◌∷◌, nat_instance, list_instance, option_instance, if◌then◌else◌, Option, none,
  some, unwrap_or, is_empty,
}
use mathlib.Core.Option
use raemote_server.HashMap
use raemote_server.Text.{Text, codes, trim}
use raemote_server.Text.Decimal.{decimal, parse_uint}
use raemote_server.Auth.State.{max_u32, max_u64}
use raemote_server.Config.Schema.{
  Config, BindConfig, ServeConfig, RateLimitConfig, DiscoveryConfig, NetworkConfig,
}
use raemote_server.Config.Env.{Env, load, parse_bool}
use raemote_server.Config.Validate.{validate}

pub data Key : Type 0 where
  server_name token_ttl failed_attempts bind_connections allow_invites invite_ttl : Key
  pending_invites streams refill interval burst proxy relay_url loopback_only : Key
  include_unattributed : Key

-- the keys that both commands know
abbrev pub keys : List (Text × Key)
keys =
    (codes "name", server_name)
    ∷ (codes "bind.token_ttl_secs", token_ttl)
    ∷ (codes "bind.max_failed_attempts", failed_attempts)
    ∷ (codes "bind.max_concurrent_connections", bind_connections)
    ∷ (codes "bind.allow_invites", allow_invites)
    ∷ (codes "bind.invite_ttl_secs", invite_ttl)
    ∷ (codes "bind.max_pending_invites", pending_invites)
    ∷ (codes "serve.max_concurrent_streams", streams)
    ∷ (codes "serve.rate_limit.refill", refill)
    ∷ (codes "serve.rate_limit.interval_ms", interval)
    ∷ (codes "serve.rate_limit.max", burst)
    ∷ (codes "network.proxy", proxy)
    ∷ (codes "network.relay_url", relay_url)
    ∷ (codes "discovery.loopback_only", loopback_only)
    ∷ (codes "discovery.include_unattributed", include_unattributed)
    ∷ []

abbrev pub with_bind : Config → BindConfig → Config
with_bind c bind = record c { bind = bind }

abbrev pub with_serve : Config → ServeConfig → Config
with_serve c serve = record c { serve = serve }

abbrev pub with_rate_limit : Config → RateLimitConfig → Config
with_rate_limit c limit = record c { serve = record (c.serve) { rate_limit = limit } }

abbrev pub with_discovery : Config → DiscoveryConfig → Config
with_discovery c discovery = record c { discovery = discovery }

abbrev pub with_network : Config → NetworkConfig → Config
with_network c network = record c { network = network }

abbrev pub filled : Text → Option Text
filled value = if is_empty value then none else some value

-- the name is kept as it is, unless it is blank
abbrev pub not_blank : Text → Option Text
not_blank value = if is_empty (trim value) then none else some value

-- a setting that is read as a number or as a Boolean
abbrev pub set_number : ℕ → (ℕ → Config) → Text → Option Config
set_number bound put value = Option.map put (parse_uint bound value)

abbrev pub set_flag : (Bool → Config) → Text → Option Config
set_flag put value = Option.map put (parse_bool value)

-- the assignment of `config set`; `none` is an invalid value
unfoldable pub set_value : Key → Config → Text → Option Config
set_value server_name c v = some (record c { name = not_blank v })
set_value token_ttl c v =
    set_number max_u64 (λ n. with_bind c (record (c.bind) { token_ttl_secs = n })) v
set_value failed_attempts c v =
    set_number max_u32 (λ n. with_bind c (record (c.bind) { max_failed_attempts = n })) v
set_value bind_connections c v =
    set_number max_u64 (λ n. with_bind c (record (c.bind) { max_concurrent_connections = n })) v
set_value allow_invites c v = set_flag (λ b. with_bind c (record (c.bind) { allow_invites = b })) v
set_value invite_ttl c v =
    set_number max_u64 (λ n. with_bind c (record (c.bind) { invite_ttl_secs = n })) v
set_value pending_invites c v =
    set_number max_u64 (λ n. with_bind c (record (c.bind) { max_pending_invites = n })) v
set_value streams c v =
    set_number max_u64 (λ n. with_serve c (record (c.serve) { max_concurrent_streams = n })) v
set_value refill c v =
    set_number max_u64 (λ n. with_rate_limit c (record (c.serve.rate_limit) { refill = n })) v
set_value interval c v =
    set_number max_u64 (λ n. with_rate_limit c (record (c.serve.rate_limit) { interval_ms = n })) v
set_value burst c v =
    set_number max_u64 (λ n. with_rate_limit c (record (c.serve.rate_limit) { max = n })) v
set_value proxy c v = some (with_network c (record (c.network) { proxy = filled v }))
set_value relay_url c v = some (with_network c (record (c.network) { relay_url = filled v }))
set_value loopback_only c v =
    set_flag (λ b. with_discovery c (record (c.discovery) { loopback_only = b })) v
set_value include_unattributed c v =
    set_flag (λ b. with_discovery c (record (c.discovery) { include_unattributed = b })) v

-- `bool::to_string`
abbrev pub show_bool : Bool → Text
show_bool b = if b then codes "true" else codes "false"

-- the text that `config get` prints
unfoldable pub get_value : Key → Config → Text
get_value server_name c = unwrap_or c.name []
get_value token_ttl c = decimal c.bind.token_ttl_secs
get_value failed_attempts c = decimal c.bind.max_failed_attempts
get_value bind_connections c = decimal c.bind.max_concurrent_connections
get_value allow_invites c = show_bool c.bind.allow_invites
get_value invite_ttl c = decimal c.bind.invite_ttl_secs
get_value pending_invites c = decimal c.bind.max_pending_invites
get_value streams c = decimal c.serve.max_concurrent_streams
get_value refill c = decimal c.serve.rate_limit.refill
get_value interval c = decimal c.serve.rate_limit.interval_ms
get_value burst c = decimal c.serve.rate_limit.max
get_value proxy c = unwrap_or c.network.proxy []
get_value relay_url c = unwrap_or c.network.relay_url []
get_value loopback_only c = show_bool c.discovery.loopback_only
get_value include_unattributed c = show_bool c.discovery.include_unattributed

pub data SetResult : Type 0 where
  stored : Config → SetResult
  unloadable unknown_key invalid_value : SetResult
  rejected : (message : Text) → SetResult

-- the assignment to the loaded configuration, and its validation
unfoldable pub assign : Config → (key value : Text) → SetResult
assign c key value = elim (HashMap.get keys key) [
  | none ↦ unknown_key
  | some k ↦ elim (set_value k c value) [
    | none ↦ invalid_value
    | some c' ↦ elim (validate c') [ some message ↦ rejected message | none ↦ stored c' ]
  ]
]

-- The configuration that `config set` saves. Both commands load the file with the overrides of the
-- environment.
unfoldable pub config_set :
    (Text → Option Config) → Env → Option (Option Text) → (key value : Text) → SetResult
config_set from_str env file key value = elim (load from_str env file) [
  | none ↦ unloadable
  | some c ↦ assign c key value
]

-- `none` is a file that cannot be loaded or an unknown key
unfoldable pub config_get : (Text → Option Config) → Env → Option (Option Text) → Text → Option Text
config_get from_str env file key = elim (load from_str env file) [
  | none ↦ none
  | some c ↦ Option.map (λ k. get_value k c) (HashMap.get keys key)
]
