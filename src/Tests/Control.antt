-- ===== src/Tests/Control.antt =====
-- The control socket and the daemon at concrete inputs.
use raemote_server.Prelude.{
  ℕ, ◌+◌, ◌*◌, ◌≤◌, ◌≡◌, ◌≢◌, refl, ◌⊎◌, true, false, List, [], ◌∷◌, ◌++◌, arith, ◌==◌,
  nat_instance, list_instance, if◌then◌else◌, is_some, Option, none, some,
}
use raemote_server.HashSet
use raemote_server.Sort
use raemote_server.Text.{Text, codes, is_whitespace, has_char, split_once, trim}
use raemote_server.Text.Utf8.{as_bytes, encode_char}
use raemote_server.Catalog
use raemote_server.Config.Env.{load}
use raemote_server.Config.Schema.{Config, default_config}
use raemote_server.Config.Validate.{validate, errors, app_errors, short_token, report}
use raemote_server.Discovery.Engine.{Engine}
use raemote_server.Auth.Trace.{bind}
use raemote_server.Daemon.Errors
use raemote_server.Daemon.Errors.{renamed}
use raemote_server.Daemon.Handle.{answer, handle, initial, revoke_reply, start_state}
use raemote_server.Daemon.Invariant
use raemote_server.Daemon.Requests
use raemote_server.Daemon.Invariant.{Event, requested, called, scanned, advance_all}
use raemote_server.Daemon.State.{DaemonState, World}
use raemote_server.Daemon.Waiting
use raemote_server.Ipc.Dialogue
use raemote_server.Ipc.Dialogue.{IsLine, DeliversAll, stream_of, answers}
use raemote_server.Ipc.Handshake
use raemote_server.Ipc.Handshake.{IsRefused}
use raemote_server.Ipc.Protocol.{
  Request, hello, revoke_authorized, list_apps, discover_now, Response, accepted, error,
}
use raemote_server.Ipc.Session.{
  Session, handle_client, message, read_message, read_line, parse_line, send_raw,
}
use raemote_server.Tests.Fixtures.{Node, node_instance, phone, tablet, nodes, toml, healthy}

abbrev fmt_short : Node → Text
fmt_short n = nodes.to_text n

-- the reader of the config file, which knows one text
abbrev read_config : Text → Option Config
read_config t = if t == codes "name" then some default_config else none

read_config-le :
    (s : Text) (c : Config) → read_config s ≡ some c → c.bind.max_failed_attempts ≤ 4_294_967_295
read_config-le s c h = ground arith

abbrev idle_engine : Engine
idle_engine = record { cache = []; catalog = Catalog.empty; last_scan = []; catalog_generation = 0 }

abbrev world : World
world = record {
  now = 7;
  now' = 7;
  unix_now = 0;
  random = 1 ∷ 2 ∷ [];
  disk = healthy;
  names_disk = healthy;
  env = λ key. none;
  config_file = none;
  reload_error = codes "no file";
  save_error = codes "no space";
  hostname = none;
  uptime_secs = 0;
  active_connections = 0;
  relay_urls = [];
  bound_sockets = [];
  polls = λ i. record { now = 7 + 25_000_000 * i; trigger = false; engine = idle_engine };
}

abbrev running : DaemonState Node
running =
    (initial nodes fmt_short toml read_config world none none phone (codes "config") default_config
      Catalog.empty).0

started :
    start_state nodes fmt_short toml read_config world none none phone (codes "config")
    ≡ some (
        initial nodes fmt_short toml read_config world none none phone
          (codes "config")
          default_config
          Catalog.empty)
unfolding start_state load validate errors app_errors short_token Catalog.rebuild Catalog.empty
    HashSet.insert Sort.sort_by HashSet.from_list report
started = refl

abbrev events : List (Event Node)
events =
    called (bind 8 healthy tablet (codes "0102"))
    ∷ requested world (revoke_authorized (codes "bbbb"))
    ∷ requested world discover_now
    ∷ scanned idle_engine
    ∷ []

started-IsValid_example :
    Requests.IsValid (advance_all nodes fmt_short toml read_config running events)
started-IsValid_example =
    Invariant.started-IsValid nodes fmt_short toml read_config world none none phone
      (codes "config") events read_config-le started (tt, (tt, (tt, (tt, tt))))

-- the texts of three requests
abbrev to_string : Request → Text
to_string (hello token) = codes "hello"
to_string (revoke_authorized node_id) = codes "revoke"
to_string req = codes "apps"

abbrev from_str : Text → Option Request
from_str t =
    if t == codes "hello"
    then some (hello (codes "key"))
    else if t == codes "revoke"
    then some (revoke_authorized (codes "bbbb"))
    else if t == codes "apps"
    then some list_apps
    else none

abbrev ascii_line : List ℕ → Option Text
ascii_line bytes = some bytes

greeting-IsLine : IsLine ascii_line from_str to_string (hello (codes "key"))
unfolding is_whitespace has_char as_bytes encode_char
greeting-IsLine = record {
  parsed = refl;
  decoded = refl;
  filled = refl;
  starts = refl;
  ends = refl;
  unbroken = refl;
}

revocation-IsLine : IsLine ascii_line from_str to_string (revoke_authorized (codes "bbbb"))
unfolding is_whitespace has_char as_bytes encode_char
revocation-IsLine = record {
  parsed = refl;
  decoded = refl;
  filled = refl;
  starts = refl;
  ends = refl;
  unbroken = refl;
}

-- the greeting-IsLine in two reads, the request in one
abbrev cuts : List (List (List ℕ))
cuts = (codes "hel" ∷ codes "lo\n" ∷ []) ∷ (codes "revoke\n" ∷ []) ∷ []

delivered : DeliversAll to_string (hello (codes "key") ∷ revoke_authorized (codes "bbbb") ∷ []) cuts
unfolding send_raw as_bytes encode_char
delivered = (
  record { complete = refl; nonempty = (refl, (refl, tt)) },
  (record { complete = refl; nonempty = (refl, tt) }, tt),
)

-- a handler that counts
abbrev count : ℕ → Request → Option (ℕ × Response)
count n req = some (n + 1, accepted)

counted : answers count 4 (revoke_authorized (codes "bbbb") ∷ []) ≡ some (5, accepted ∷ [])
unfolding answers
counted = refl

abbrev fresh : Session ℕ
fresh = record { state = 4; replies = []; sends = 2 }

handle_client-answers_example :
    (t : Session ℕ) × (handle_client ascii_line from_str count (codes "key") fresh (stream_of cuts)
      ≡ some t)
    × (t.state ≡ 5)
    × (t.replies ≡ [] ++ accepted ∷ accepted ∷ [])
handle_client-answers_example =
    Dialogue.handle_client-answers ascii_line from_str to_string count (codes "key")
      (revoke_authorized (codes "bbbb") ∷ []) cuts fresh (greeting-IsLine, (revocation-IsLine, tt))
      delivered (omega arith) counted

-- no greeting-IsLine
intruder :
    (read_message ascii_line from_str (some (codes "revoke\n") ∷ [])).0
    ≢ message (hello (codes "key"))
unfolding read_message read_line parse_line trim split_once is_whitespace
intruder h = cc

handle_client-denied_example :
    (s' : Session ℕ) × (handle_client ascii_line from_str count
        (codes "key")
        fresh
        (some (codes "revoke\n") ∷ [])
      ≡ some s')
    × IsRefused ascii_line from_str count fresh s'
handle_client-denied_example =
    Handshake.handle_client-denied ascii_line from_str count (codes "key") fresh
      (some (codes "revoke\n") ∷ []) intruder

connection_total_example :
    is_some (
      handle_client ascii_line from_str
        (answer nodes fmt_short toml read_config (λ n. world))
        (codes "key")
        (record { state = (running, 0); replies = []; sends = 2 })
        (some (codes "hello\n") ∷ none ∷ []))
    ≡ true
connection_total_example =
    Waiting.connection_total nodes fmt_short toml read_config ascii_line from_str (λ n. world)
      (codes "key") (record { state = (running, 0); replies = []; sends = 2 })
      (some (codes "hello\n") ∷ none ∷ []) (λ n i. omega arith)

-- a request that names no device
refused_request :
    handle nodes fmt_short toml read_config world running (revoke_authorized (codes "cccc"))
    ≡ some (running, error (codes "invalid node id: cccc"))
unfolding handle revoke_reply
refused_request = refl

handle-error_example :
    (running ≡ running)
    ⊎ ((codes "invalid node id: cccc" ≡ world.save_error)
        × (names : List (Node × Text)) × (running
            ≡ renamed nodes fmt_short toml read_config running names))
handle-error_example =
    Errors.handle-error nodes fmt_short toml read_config world running running
      (revoke_authorized (codes "cccc")) (codes "invalid node id: cccc") refused_request
