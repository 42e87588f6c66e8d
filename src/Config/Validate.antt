-- ===== src/Config/Validate.antt =====
-- config.rs: the check of a configuration before its use. The error that the source makes of the
-- problems found is their list, joined.
use raemote_server.Prelude.{
  Bool, false, List, [], ◌∷◌, ◌++◌, nat_instance, list_instance, if◌then◌else◌, Option, none, some,
  nat_eq, ltb,
}
use raemote_server.HashSet
use raemote_server.Config.Schema.{Config, AppConfig}
use raemote_server.Text
use raemote_server.Text.{Text, codes, trim}
use raemote_server.Text.Utf8

-- `if problem { errors.push(message) }`
unfoldable pub report : Bool → Text → List Text
report problem message = if problem then message ∷ [] else []

unfoldable pub short_token : Option Text → Bool
short_token none = false
short_token (some token) = ltb (Utf8.len (trim token)) 16

-- the loop over the apps; `names` is the set of the names seen
unfoldable pub app_errors : (names : List Text) → List AppConfig → List Text
app_errors names [] = []
app_errors names (app ∷ apps) =
    report (HashSet.contains names app.name) (codes "duplicate app name: " ++ app.name)
    ++ report (nat_eq app.port 0) (codes "app '" ++ app.name ++ codes "' port must be > 0")
    ++ app_errors (HashSet.insert names app.name) apps

unfoldable pub errors : Config → List Text
errors config =
    report (nat_eq config.bind.token_ttl_secs 0) (codes "bind.token_ttl_secs must be > 0")
    ++ report (short_token config.bind.token) (codes "bind.token must be at least 16 characters")
    ++ report (nat_eq config.bind.max_failed_attempts 0)
        (codes "bind.max_failed_attempts must be > 0")
    ++ report (nat_eq config.bind.max_concurrent_connections 0)
        (codes "bind.max_concurrent_connections must be > 0")
    ++ report (nat_eq config.bind.invite_ttl_secs 0) (codes "bind.invite_ttl_secs must be > 0")
    ++ report (nat_eq config.bind.max_pending_invites 0)
        (codes "bind.max_pending_invites must be > 0")
    ++ report (nat_eq config.serve.max_concurrent_streams 0)
        (codes "serve.max_concurrent_streams must be > 0")
    ++ report (nat_eq config.serve.rate_limit.refill 0)
        (codes "serve.rate_limit.refill must be > 0")
    ++ report (nat_eq config.serve.rate_limit.interval_ms 0)
        (codes "serve.rate_limit.interval_ms must be > 0")
    ++ report (nat_eq config.serve.rate_limit.max 0) (codes "serve.rate_limit.max must be > 0")
    ++ report (nat_eq config.discovery.interval_secs 0)
        (codes "discovery.interval_secs must be > 0")
    ++ report (nat_eq config.discovery.recheck_secs 0) (codes "discovery.recheck_secs must be > 0")
    ++ report (nat_eq config.discovery.probe_timeout_ms 0)
        (codes "discovery.probe_timeout_ms must be > 0")
    ++ report (nat_eq config.discovery.max_concurrent_probes 0)
        (codes "discovery.max_concurrent_probes must be > 0")
    ++ app_errors [] config.apps

-- `none` is success
unfoldable pub validate : Config → Option Text
validate config = elim (errors config) [
  | [] ↦ none
  | e ∷ es ↦ some (codes "config validation failed:\n  " ++ Text.join (codes "\n  ") (e ∷ es))
]
