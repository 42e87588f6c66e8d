-- ===== src/Daemon/State.antt =====
-- daemon.rs: the shared state of the daemon, and what a request reads from outside of it.
use raemote_server.Prelude.{
  ℕ, Bool, not, List, map, nat_instance, list_instance, Option, unwrap_or, option_filter, is_empty,
}
use mathlib.Core.Option
use raemote_server.Text.{Text, codes, trim}
use raemote_server.Config.Schema.{Config}
use raemote_server.Config.Env.{Env}
use raemote_server.Catalog.{Catalog, CatalogApp, source_text}
use raemote_server.Discovery.Model.{scheme_text}
use raemote_server.Discovery.Engine.{Engine}
use raemote_server.Auth.State.{AuthState}
use raemote_server.Auth.Store.{Disk}
use raemote_server.Ipc.Protocol.{AppInfoResponse}

-- `discovery_trigger` and `shutdown` hold the permit of a `Notify`. The number of connections, the
-- uptime and the endpoint's addresses are read from outside, see `World`.
pub record DaemonState (Node : Type 0) : Type 0 where
  pub config : Config
  pub config_generation : ℕ
  pub engine : Engine
  pub discovery_trigger : Bool
  pub auth : AuthState Node
  pub node_id : Node
  pub config_path : Text
  pub shutdown : Bool

-- what one look at the shared state finds while a scan is awaited
pub record Poll : Type 0 where
  pub now : ℕ
  pub trigger : Bool
  pub engine : Engine

-- What one request reads: the clocks, the random bytes, which disk writes succeed, the environment, the
-- config file, and the states that polling for a scan finds.
pub record World : Type 0 where
  pub now : ℕ
  pub now' : ℕ
  pub unix_now : ℕ
  pub random : List ℕ
  pub disk : Disk
  pub names_disk : Disk
  pub env : Env
  pub config_file : Option (Option Text)
  pub reload_error : Text
  pub save_error : Text
  pub hostname : Option Text
  pub uptime_secs : ℕ
  pub active_connections : ℕ
  pub relay_urls : List Text
  pub bound_sockets : List Text
  pub polls : ℕ → Poll

-- config.rs: `server_name`
unfoldable pub server_name : Option Text → Config → Text
server_name hostname cfg =
    unwrap_or (option_filter (λ n. not (is_empty n)) (Option.map trim cfg.name))
      (unwrap_or hostname (codes "raemote-server"))

abbrev app_info : CatalogApp → AppInfoResponse
app_info app = record {
  name = app.name;
  host = app.origin.host;
  port = app.origin.port;
  scheme = scheme_text app.origin.scheme;
  source = source_text app.source;
  title = app.title;
  process = app.process;
}

unfoldable pub apps_snapshot : Catalog → List AppInfoResponse
apps_snapshot catalog = map app_info catalog.apps
