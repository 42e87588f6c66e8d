-- ===== src/Ipc/Protocol.antt =====
-- ipc/mod.rs: the requests and responses of the control socket.
use raemote_server.Prelude.{ℕ, Bool, List, nat_instance, list_instance, Option}
use raemote_server.Text.{Text}
use raemote_server.Discovery.Listener.{Skipped}

pub data Request : Type 0 where
  hello : (token : Text) → Request
  get_status get_token : Request
  refresh_token : (ttl_secs : Option ℕ) → Request
  reload_config list_authorized : Request
  revoke_authorized : (node_id : Text) → Request
  rename_authorized : (node_id name : Text) → Request
  list_apps discover_now discover_report shutdown : Request

pub record StatusResponse : Type 0 where
  pub name : Text
  pub node_id : Text
  pub uptime_secs : ℕ
  pub config_path : Text
  pub authorized_count : ℕ
  pub discovered_count : ℕ
  pub token_expires_at_unix : Option ℕ
  pub token_ttl_secs : Option ℕ
  pub active_connections : ℕ
  pub relay_urls : List Text
  pub bound_sockets : List Text

pub record AppInfoResponse : Type 0 where
  pub name : Text
  pub host : Text
  pub port : ℕ
  pub scheme : Text
  pub source : Text
  pub title : Option Text
  pub process : Option Text

pub record DiscoverReportResponse : Type 0 where
  pub apps : List AppInfoResponse
  pub skipped : List Skipped

pub record DeviceEntry : Type 0 where
  pub node_id : Text
  pub name : Text

pub record TokenResponse : Type 0 where
  pub uri : Text
  pub expires_at_unix : ℕ

pub record ReloadResponse : Type 0 where
  pub applied : Bool
  pub restart_required : List Text

pub data Response : Type 0 where
  accepted denied : Response
  error : (message : Text) → Response
  status : StatusResponse → Response
  token_info : TokenResponse → Response
  devices : List DeviceEntry → Response
  reloaded : ReloadResponse → Response
  apps : List AppInfoResponse → Response
  report : DiscoverReportResponse → Response
