-- ===== src/Cli/Apps.antt =====
-- bin/raemote.rs: `apps add`, `remove`, `hide` and `unhide`, from the loaded configuration to the one
-- that is saved. What the daemon answers is an argument.
use raemote_server.Prelude.{
  ℕ, Bool, false, not, List, [], ◌∷◌, ◌++◌, ◌==◌, nat_instance, list_instance, option_instance,
  if◌then◌else◌, length, filter, find, any, Option, none, some, nat_eq,
}
use mathlib.Core.Option
use raemote_server.Text.{Text, codes, trim}
use raemote_server.Text.Decimal.{parse_uint}
use raemote_server.Config.Schema.{Config, AppConfig}
use raemote_server.Config.Validate.{validate}
use raemote_server.Discovery.Model.{Origin, http_origin, authority, parse_authority, max_u16}
use raemote_server.Ipc.Protocol.{AppInfoResponse}

pub data AddResult : Type 0 where
  added : Config → AddResult
  app_exists : AddResult
  invalid_config : (message : Text) → AddResult

unfoldable pub apps_add : Config → Text → ℕ → AddResult
apps_add cfg name port =
    let cfg' : Config = record cfg {
      apps = cfg.apps ++ record { name = name; port = port } ∷ [];
    } in
    if any (λ (a : AppConfig). a.name == name) cfg.apps
    then app_exists
    else elim (validate cfg') [ some message ↦ invalid_config message | none ↦ added cfg' ]

-- `none` means that there is no such app
unfoldable pub apps_remove : Config → Text → Option Config
apps_remove cfg name =
    let apps = filter (λ (a : AppConfig). not (a.name == name)) cfg.apps in
    if nat_eq (length apps) (length cfg.apps) then none else some (record cfg { apps = apps })

-- the bare port or the authority
unfoldable pub parse_target : Text → Text → Option Origin
parse_target whole target = elim (parse_authority whole) [
  | some o ↦ some o
  | none ↦ Option.map (http_origin (codes "127.0.0.1")) (parse_uint max_u16 target)
]

-- What `ListApps` is answered with: `answered none` is a response of another kind.
pub data Daemon : Type 0 where
  stopped unreachable : Daemon
  answered : Option (List AppInfoResponse) → Daemon

pub data Resolved : Type 0 where
  found : Origin → Resolved
  is_manual not_found failed : Resolved

unfoldable pub lookup : Text → Daemon → Option Config → Resolved
lookup target unreachable file = failed
lookup target (answered none) file = not_found
lookup target (answered (some apps)) file =
    elim (find (λ (a : AppInfoResponse). a.name == target) apps) [
      | none ↦ not_found
      | some app ↦ found (http_origin app.host app.port)
    ]
lookup target stopped none = failed
lookup target stopped (some cfg) =
    if any (λ (a : AppConfig). a.name == target) cfg.apps then is_manual else not_found

unfoldable pub resolve_origin : Text → Daemon → Option Config → Resolved
resolve_origin text daemon file =
    let target = trim text in
    elim (parse_target target target) [ some o ↦ found o | none ↦ lookup target daemon file ]

-- the entry stands for the authority
abbrev pub is_entry : Text → Text → Bool
is_entry key s = elim (parse_authority s) [ none ↦ false | some o ↦ authority o == key ]

abbrev pub with_excluded : Config → List Text → Config
with_excluded cfg origins = record cfg {
  discovery = record (cfg.discovery) { exclude_origins = origins };
}

-- `none` means that the origin is hidden already
unfoldable pub apps_hide : Config → Origin → Option Config
apps_hide cfg o =
    let key = authority o in
    if any (is_entry key) cfg.discovery.exclude_origins
    then none
    else some (with_excluded cfg (cfg.discovery.exclude_origins ++ key ∷ []))

unfoldable pub unhide_target : Text → Option Origin
unhide_target target = parse_target target (trim target)

-- `none` means that the origin was not hidden
unfoldable pub apps_unhide : Config → Origin → Option Config
apps_unhide cfg o =
    let origins = filter (λ s. not (is_entry (authority o) s)) cfg.discovery.exclude_origins in
    if nat_eq (length origins) (length cfg.discovery.exclude_origins)
    then none
    else some (with_excluded cfg origins)
