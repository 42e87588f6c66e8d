-- ===== src/Discovery/Listener.antt =====
-- discovery/listener.rs: which listening sockets become candidates. A `Listener` holds what the program
-- reads of a value of the `listeners` crate.
use raemote_server.HashSet
use raemote_server.Sort
use raemote_server.Prelude.{
  ℕ, Bool, true, false, not, ◌&&◌, ◌||◌, List, [], ◌∷◌, ◌++◌, map, nat_instance, list_instance,
  if◌then◌else◌, filter, Option, none, some, is_empty, nat_eq, ltb,
}
use raemote_server.Discovery.Ip.{
  SocketAddr, is_loopback, is_unspecified, socket_to_string, socket_instance,
}
use raemote_server.Discovery.Model.{
  Origin, http_origin, origin_instance, local_host, parse_authority,
}
use raemote_server.Text.{Text, codes, trim, lowercase}

pub record Listener : Type 0 where
  pub pid : ℕ
  pub process_name : Text
  pub socket : SocketAddr
  pub is_tcp : Bool
  pub is_listen : Bool

pub record Candidate : Type 0 where
  pub origin : Origin
  pub process : Option Text
  pub pid : Option ℕ

pub record ListenerFilter : Type 0 where
  pub min_port : ℕ
  pub loopback_only : Bool
  pub exclude_ports : List ℕ
  pub exclude_processes : List Text
  pub exclude_origins : List Origin

pub data SkipReason : Type 0 where
  below_min_port excluded_port excluded_process not_local_bind excluded_origin : SkipReason
  duplicate not_credible unreachable : SkipReason

pub record Skipped : Type 0 where
  pub origin : Text
  pub process : Option Text
  pub reason : SkipReason

pub record FilterOutcome : Type 0 where
  pub candidates : List Candidate
  pub skipped : List Skipped

abbrev pub builtin_exclude_ports : List ℕ
builtin_exclude_ports =
    22 ∷ 25 ∷ 53 ∷ 88 ∷ 110 ∷ 111 ∷ 135 ∷ 137 ∷ 138 ∷ 139 ∷ 143 ∷ 161 ∷ 162 ∷ 389 ∷ 445 ∷ 465 ∷ 514
    ∷ 515 ∷ 548 ∷ 587 ∷ 631 ∷ 636 ∷ 873 ∷ 993 ∷ 995 ∷ 1080 ∷ 1433 ∷ 1521 ∷ 1723 ∷ 2049 ∷ 2375 ∷ 2376
    ∷ 3306 ∷ 3389 ∷ 5000 ∷ 5353 ∷ 5432 ∷ 5900 ∷ 6379 ∷ 7000 ∷ 9200 ∷ 9300 ∷ 27017 ∷ []

abbrev pub builtin_exclude_processes : List Text
builtin_exclude_processes =
    codes "xray"
    ∷ codes "v2ray"
    ∷ codes "v2ray-core"
    ∷ codes "sing-box"
    ∷ codes "clash"
    ∷ codes "clash-meta"
    ∷ codes "mihomo"
    ∷ codes "shadowsocks"
    ∷ codes "ss-local"
    ∷ codes "ssserver"
    ∷ codes "ss-tunnel"
    ∷ codes "trojan"
    ∷ codes "trojan-go"
    ∷ codes "hysteria"
    ∷ codes "hysteria2"
    ∷ codes "naive"
    ∷ codes "tun2socks"
    ∷ codes "mitmproxy"
    ∷ codes "mitmdump"
    ∷ codes "privoxy"
    ∷ codes "squid"
    ∷ codes "tinyproxy"
    ∷ codes "3proxy"
    ∷ codes "tor"
    ∷ []

-- `Iterator::filter_map`
abbrev pub filter_map {ℓ κ} : {A : Type ℓ} {B : Type κ} → (A → Option B) → List A → List B
filter_map f [] = []
filter_map f (a ∷ as') = elim (f a) [ none ↦ filter_map f as' | some b ↦ b ∷ filter_map f as' ]

-- `ListenerFilter::new`
unfoldable pub new_filter : ℕ → Bool → List ℕ → List Text → List Text → ListenerFilter
new_filter min_port loopback_only ports processes origins = record {
  min_port = min_port;
  loopback_only = loopback_only;
  exclude_ports = HashSet.from_list (builtin_exclude_ports ++ ports);
  exclude_processes =
      HashSet.from_list (map lowercase builtin_exclude_processes ++ map lowercase processes);
  exclude_origins = HashSet.from_list (filter_map parse_authority origins);
}

abbrev pub is_local_bind : SocketAddr → Bool
is_local_bind addr = is_loopback addr.ip || is_unspecified addr.ip

-- the process name, when there is one
unfoldable pub process_of : Listener → Option Text
process_of l = let name = trim l.process_name in if is_empty name then none else some name

unfoldable pub excludes_process : ListenerFilter → Option Text → Bool
excludes_process f none = false
excludes_process f (some name) = HashSet.contains f.exclude_processes (lowercase name)

abbrev pub origin_of : Listener → Origin
origin_of l = http_origin (local_host l.socket) l.socket.port

-- Only listening TCP sockets with a port are considered.
unfoldable pub is_considered : Listener → Bool
is_considered l = l.is_tcp && (l.is_listen && not (nat_eq l.socket.port 0))

-- why a considered socket is dropped, given the origins that were kept before
unfoldable pub skip_reason : ListenerFilter → List Origin → Listener → Option SkipReason
skip_reason f seen l =
    if ltb l.socket.port f.min_port
    then some below_min_port
    else if HashSet.contains f.exclude_ports l.socket.port
    then some excluded_port
    else if excludes_process f (process_of l)
    then some excluded_process
    else if f.loopback_only && not (is_local_bind l.socket)
    then some not_local_bind
    else if HashSet.contains f.exclude_origins (origin_of l)
    then some excluded_origin
    else if HashSet.contains seen (origin_of l)
    then some duplicate
    else none

abbrev pub candidate_of : Listener → Candidate
candidate_of l = record {
  origin = origin_of l;
  process = process_of l;
  pid = if nat_eq l.pid 0 then none else some l.pid;
}

abbrev pub skipped_of : Listener → SkipReason → Skipped
skipped_of l reason = record {
  origin = socket_to_string l.socket;
  process = process_of l;
  reason = reason;
}

-- the loop; the second argument is `seen`
unfoldable pub filter_from :
    ListenerFilter → List Origin → List Listener → List Candidate × List Skipped
filter_from f seen [] = ([], [])
filter_from f seen (l ∷ ls) = elim (is_considered l) [
  | false ↦ filter_from f seen ls
  | true ↦ elim (skip_reason f seen l) [
    | some reason ↦
        let (out, skipped) = filter_from f seen ls in (out, skipped_of l reason ∷ skipped)
    | none ↦
        let (out, skipped) = filter_from f (HashSet.insert seen (origin_of l)) ls in
        (candidate_of l ∷ out, skipped)
  ]
]

unfoldable pub filter_listeners_detailed : List Listener → ListenerFilter → FilterOutcome
filter_listeners_detailed ls f =
    let (out, skipped) = filter_from f [] ls in
    record {
      candidates = Sort.sort_by (λ (a b : Candidate). ltb a.origin.port b.origin.port) out;
      skipped = Sort.sort_by (λ (a b : Skipped). Sort.text_lt a.origin b.origin) skipped;
    }

-- a socket whose owner is unknown
abbrev pub unattributed : SocketAddr → Listener
unattributed socket = record {
  pid = 0;
  process_name = [];
  socket = socket;
  is_tcp = true;
  is_listen = true;
}

unfoldable pub merge_unattributed : List Listener → List SocketAddr → List Listener
merge_unattributed attributed extra =
    let known = HashSet.from_list (map (λ (l : Listener). l.socket) attributed) in
    attributed ++ map unattributed (filter (λ s. not (HashSet.contains known s)) extra)

-- `enumerate`, over what the operating system reports
unfoldable pub enumerate : ListenerFilter → Bool → List Listener → List SocketAddr → FilterOutcome
enumerate f include_unattributed attributed extra =
    filter_listeners_detailed
      (if include_unattributed then merge_unattributed attributed extra else attributed) f
