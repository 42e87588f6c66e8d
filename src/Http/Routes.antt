-- ===== src/Http/Routes.antt =====
-- http.rs: the routes of the HTTP protocol. The requests that a route passes on to an app, and what
-- the app answers, are not modelled; a route names the origin and the path that it asks for.
use raemote_server.Prelude.{
  ℕ, ◌*◌, true, false, not, ◌||◌, List, [], ◌∷◌, ◌++◌, Eq, ◌==◌, nat_instance, list_instance,
  if◌then◌else◌, Option, none, some, unwrap_or,
}
use raemote_server.Text.{Text, codes, split_once, strip_prefix}
use raemote_server.Catalog
use raemote_server.Catalog.{Catalog, CatalogApp}
use raemote_server.Config.Schema.{Config}
use raemote_server.Discovery.Model.{Origin, authority, scheme_text}
use raemote_server.Auth.State.{NodeIds, AuthState, nanos_per_sec}
use raemote_server.Auth.Store.{Disk, Toml}
use raemote_server.Auth.Names.{sanitize_device_name, default_device_name, uri}
use raemote_server.Auth.Operations.{mint_invitation, set_device_name}

pub data Route : Type 0 where
  catalog discover info devices rename_self create_invite : Route
  method_not_allowed : (message : Text) → Route
  proxy : Origin → (sub_path : Text) → Route
  unknown_app : (name : Text) → Route
  no_such_route : (path : Text) → Route

-- `splitn(2, '/')`: the first segment and the rest
unfoldable pub segments : Text → Text × Text
segments rest = elim (split_once b'/' rest) [
  | none ↦ (rest, [])
  | some (name, sub_path) ↦ (name, sub_path)
]

unfoldable pub app_route : Catalog → Text → Route
app_route c rest =
    let (name, sub_path) = segments rest in
    elim (Catalog.find_app c name) [
      | none ↦ unknown_app name
      | some app ↦ proxy app.origin sub_path
    ]

-- the dispatch of `handle`
unfoldable pub route : Catalog → (method path : Text) → Route
route c method path =
    if path == codes "/_hub/catalog"
    then catalog
    else if path == codes "/_hub/discover"
    then discover
    else if path == codes "/_hub/info"
    then info
    else if path == codes "/_hub/devices"
    then devices
    else if path == codes "/_hub/device"
    then (if method == codes "PUT" || method == codes "POST"
        then rename_self
        else method_not_allowed (codes "use PUT to set this device's name"))
    else if path == codes "/_hub/invite"
    then (if method == codes "POST"
        then create_invite
        else method_not_allowed (codes "use POST to create an invitation"))
    else elim (strip_prefix (codes "/app/") path) [
      | none ↦ no_such_route path
      | some rest ↦ app_route c rest
    ]

-- the address to which `proxy` passes the request on
unfoldable pub upstream_uri : Origin → (sub_path : Text) → (query : Option Text) → Text
upstream_uri o sub_path query =
    scheme_text o.scheme ++ (codes "://" ++ (authority o ++ (b'/' ∷ sub_path ++ query_text query)))
  where
    query_text : Option Text → Text
    query_text none = []
    query_text (some q) = b'?' ∷ q

pub data InviteReply : Type 0 where
  invites_disabled too_many_invites : InviteReply
  invited : (link : Text) → (expires_at_unix : ℕ) → InviteReply

-- The body is `none` where it cannot be read, and `some none` where it is no JSON object with a name.
pub data RenameReply : Type 0 where
  unreadable malformed : RenameReply
  renamed : (name : Text) → RenameReply
  refused : RenameReply

module _ {Node : Type 0} ⦃e : Eq Node⦄ (nodes : NodeIds Node) where
  unfoldable pub create_invite_for :
      Config
      → (server : Node) → AuthState Node
      → (now unix_now : ℕ) → (random : List ℕ) → Node
      → AuthState Node × InviteReply
  create_invite_for cfg server s now unix_now random node =
      let (s', minted) =
        mint_invitation s now unix_now random (cfg.bind.invite_ttl_secs * nanos_per_sec) node
          cfg.bind.max_pending_invites in
      if not cfg.bind.allow_invites then (s, invites_disabled) else elim minted [
        | none ↦ (s', too_many_invites)
        | some minted_token ↦
            (s', invited (uri nodes minted_token server) minted_token.expires_at_unix)
      ]

  unfoldable pub rename_device :
      Toml → AuthState Node → Disk → Node → Option (Option Text) → AuthState Node × RenameReply
  rename_device toml s disk node none = (s, unreadable)
  rename_device toml s disk node (some none) = (s, malformed)
  rename_device toml s disk node (some (some name)) =
      let (s', result) = set_device_name nodes toml s disk node name in
      elim result [
        | some true ↦
            (s', renamed (unwrap_or (sanitize_device_name name) (default_device_name nodes node)))
        | some false ↦ (s', refused)
        | none ↦ (s', refused)
      ]
