-- ===== src/Daemon/Handle.antt =====
-- daemon.rs: the handler of the requests, and the start of the daemon.
use raemote_server.Prelude.{
  ℕ, zero, suc, ◌+◌, ◌*◌, ◌/◌, ◌%◌, ◌^◌, true, false, ◌&&◌, List, [], ◌∷◌, ◌++◌, map, Eq, ◌==◌,
  nat_instance, list_instance, option_instance, if◌then◌else◌, Option, none, some, unwrap_or,
  nat_eq, ltb,
}
use mathlib.Core.Option
use raemote_server.Text.{Text, codes}
use raemote_server.Config.Schema.{Config}
use raemote_server.Config.Env.{Env}
use raemote_server.Config
use raemote_server.Config.Validate.{validate}
use raemote_server.Catalog
use raemote_server.Catalog.{discovered_count}
use raemote_server.Auth.State.{NodeIds, TokenInfo, DeviceInfo, nanos_per_sec}
use raemote_server.Auth.Names.{uri}
use raemote_server.Auth.Store.{Toml, load_at}
use raemote_server.Auth.Operations.{
  current_token_info, mint_token_with, revoke, set_device_name, set_max_attempts, device_infos,
  authorized_count,
}
use raemote_server.Ipc.Protocol.{
  Request, hello, get_status, get_token, refresh_token, reload_config, list_authorized,
  revoke_authorized, rename_authorized, list_apps, discover_now, discover_report, shutdown,
  Response, accepted, error, status, token_info, devices, reloaded, apps, report, DeviceEntry,
}
use raemote_server.Daemon.State.{DaemonState, Poll, World, server_name, apps_snapshot}

-- `DISCOVER_NOW_TIMEOUT`: three seconds
abbrev pub discover_now_timeout : ℕ
discover_now_timeout = 3 * nanos_per_sec

-- The loop that waits for the next generation of the catalog, from the poll `i` on.
unfoldable pub wait : ℕ → (before deadline : ℕ) → (ℕ → Poll) → ℕ → Option Poll
wait zero before deadline polls i = none
wait (suc fuel) before deadline polls i =
    let later = wait fuel before deadline polls (suc i) in
    if nat_eq (polls i).engine.catalog_generation before && ltb (polls i).now deadline
    then later
    else some (polls i)

-- The loop sleeps for 25 milliseconds, and gives up after three seconds.
abbrev pub max_polls : ℕ
max_polls = 121

unfoldable pub restart_required : Config → Config → List Text
restart_required cfg new_cfg =
    (if cfg.network.relay_url == new_cfg.network.relay_url
      then []
      else codes "network.relay_url" ∷ [])
    ++ (if cfg.network.proxy == new_cfg.network.proxy then [] else codes "network.proxy" ∷ [])

module _ {Node : Type 0} ⦃e : Eq Node⦄ (nodes : NodeIds Node) (fmt_short : Node → Text)
    (toml : Toml) (from_str : Text → Option Config) where
  unfoldable pub status_of : World → DaemonState Node → Response
  status_of w d =
      let info = current_token_info d.auth w.now w.now' in
      status (record {
        name = server_name w.hostname d.config;
        node_id = nodes.to_text d.node_id;
        uptime_secs = w.uptime_secs;
        config_path = d.config_path;
        authorized_count = authorized_count d.auth;
        discovered_count = discovered_count d.engine.catalog;
        token_expires_at_unix = Option.map (λ t. t.expires_at_unix) info;
        token_ttl_secs = Option.map (λ t. t.ttl / nanos_per_sec) info;
        active_connections = w.active_connections;
        relay_urls = w.relay_urls;
        bound_sockets = w.bound_sockets;
      })

  abbrev pub token_reply : DaemonState Node → TokenInfo → Response
  token_reply d info =
      token_info (record { uri = uri nodes info d.node_id; expires_at_unix = info.expires_at_unix })

  unfoldable pub get_token_reply : World → DaemonState Node → Response
  get_token_reply w d = elim (current_token_info d.auth w.now w.now') [
    | some info ↦ token_reply d info
    | none ↦ error (codes "no active token")
  ]

  unfoldable pub refresh_reply : World → DaemonState Node → Option ℕ → DaemonState Node × Response
  refresh_reply w d ttl_secs =
      let ttl = unwrap_or ttl_secs d.config.bind.token_ttl_secs * nanos_per_sec in
      let (auth, info) = mint_token_with d.auth w.now w.unix_now w.random ttl d.config.bind.token in
      (record d { auth = auth }, token_reply d info)

  unfoldable pub apply : DaemonState Node → Config → DaemonState Node
  apply d cfg = record d {
    config = cfg;
    auth = set_max_attempts d.auth cfg.bind.max_failed_attempts;
    config_generation = (d.config_generation + 1) % 2 ^ 64;
    discovery_trigger = true;
  }

  unfoldable pub reload_reply : World → DaemonState Node → DaemonState Node × Response
  reload_reply w d = elim (Config.Env.reload from_str w.env w.config_file) [
    | none ↦ (d, error (codes "reload failed: " ++ w.reload_error))
    | some cfg ↦ elim (validate cfg) [
      | some e ↦ (d, error (codes "config validation failed: " ++ e))
      | none ↦ (
        apply d cfg,
        reloaded (record { applied = true; restart_required = restart_required d.config cfg }),
      )
    ]
  ]

  abbrev pub device_entry : DeviceInfo Node → DeviceEntry
  device_entry info = record { node_id = nodes.to_text info.node_id; name = info.name }

  abbrev pub invalid_id : Text → Response
  invalid_id node_id = error (codes "invalid node id: " ++ node_id)

  unfoldable pub revoke_reply : World → DaemonState Node → Text → DaemonState Node × Response
  revoke_reply w d node_id = elim (nodes.from_text node_id) [
    | none ↦ (d, invalid_id node_id)
    | some id ↦
        let (auth, done) = revoke nodes toml d.auth w.disk w.names_disk id in
        (
          record d { auth = auth },
          if done
              then accepted
              else error (codes "device " ++ (node_id ++ codes " is not authorized")),
        )
  ]

  unfoldable pub rename_reply : World → DaemonState Node → Text → Text → DaemonState Node × Response
  rename_reply w d node_id name = elim (nodes.from_text node_id) [
    | none ↦ (d, invalid_id node_id)
    | some id ↦
        let (auth, result) = set_device_name nodes toml d.auth w.names_disk id name in
        (
          record d { auth = auth },
          elim result [
            | none ↦ error (codes "device " ++ (fmt_short id ++ codes " is not authorized"))
            | some saved ↦ if saved then accepted else error w.save_error
          ],
        )
  ]

  -- the state when the wait is over
  unfoldable pub scan : World → DaemonState Node → Option (DaemonState Node)
  scan w d =
      Option.map (λ (p : Poll). record d { engine = p.engine; discovery_trigger = p.trigger })
        (wait max_polls d.engine.catalog_generation (w.now + discover_now_timeout) w.polls 0)

  -- `none` means that the loop of a scan goes on after the given number of polls.
  unfoldable pub handle : World → DaemonState Node → Request → Option (DaemonState Node × Response)
  handle w d (hello token) = some (d, accepted)
  handle w d get_status = some (d, status_of w d)
  handle w d get_token = some (d, get_token_reply w d)
  handle w d (refresh_token ttl_secs) = some (refresh_reply w d ttl_secs)
  handle w d reload_config = some (reload_reply w d)
  handle w d list_authorized = some (d, devices (map device_entry (device_infos nodes d.auth)))
  handle w d (revoke_authorized node_id) = some (revoke_reply w d node_id)
  handle w d (rename_authorized node_id name) = some (rename_reply w d node_id name)
  handle w d list_apps = some (d, apps (apps_snapshot d.engine.catalog))
  handle w d discover_report =
      Option.map
        (λ (d' : DaemonState Node). (
          d',
          report (record { apps = apps_snapshot d'.engine.catalog; skipped = d'.engine.last_scan }),
        ))
        (scan w d)
  handle w d discover_now =
      Option.map (λ (d' : DaemonState Node). (d', apps (apps_snapshot d'.engine.catalog)))
        (scan w d)
  handle w d shutdown = some (record d { shutdown = true }, accepted)

  -- The handler of a connection: each request reads a world of its own.
  unfoldable pub answer :
      (ℕ → World) → DaemonState Node × ℕ → Request → Option ((DaemonState Node × ℕ) × Response)
  answer worlds (d, n) req =
      Option.map (λ (r : DaemonState Node × Response). ((r.0, suc n), r.1))
        (handle (worlds n) d req)

  -- the state that `run` builds of a configuration that passed its check
  unfoldable pub initial :
      World
      → (store names_file : Option Text) → Node
      → Text
      → Config
      → Catalog.Catalog
      → DaemonState Node × TokenInfo
  initial w store names_file node_id config_path cfg catalog =
      let loaded = load_at nodes toml store names_file cfg.bind.max_failed_attempts in
      let (auth, token) =
        mint_token_with loaded w.now w.unix_now w.random (cfg.bind.token_ttl_secs * nanos_per_sec)
          cfg.bind.token in
      (
        record {
          config = cfg;
          config_generation = 0;
          engine = record { cache = []; catalog = catalog; last_scan = []; catalog_generation = 0 };
          discovery_trigger = false;
          auth = auth;
          node_id = node_id;
          config_path = config_path;
          shutdown = false;
        },
        token,
      )

  -- The part of `run` that builds the state: `none` means that the daemon does not start.
  unfoldable pub start_state :
      World → (store names_file : Option Text) → Node → Text → Option (DaemonState Node × TokenInfo)
  start_state w store names_file node_id config_path =
      elim (Config.Env.load from_str w.env w.config_file) [
        | none ↦ none
        | some cfg ↦ elim (validate cfg) [
          | some e ↦ none
          | none ↦ elim (Catalog.rebuild cfg.apps []) [
            | none ↦ none
            | some catalog ↦ some (initial w store names_file node_id config_path cfg catalog)
          ]
        ]
      ]
