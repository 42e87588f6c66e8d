-- ===== src/Tests/Cli.antt =====
-- The command line at concrete arguments.
use raemote_server.Prelude.{
  ◌≡◌, ◌≢◌, refl, true, List, [], ◌∷◌, arith, nat_instance, list_instance, option_instance, Option,
  none, some, All,
}
use raemote_server.HashMap
use raemote_server.Text.{
  Text, codes, has_char, strip_prefix, is_whitespace, trim, trim_start, trim_end,
}
use raemote_server.Config.Validate.{validate, errors, app_errors, short_token, report}
use raemote_server.Text.Decimal.{decimal}
use raemote_server.Cli.Settings.{set_value, get_value}
use raemote_server.Catalog
use raemote_server.Config.Schema.{Config, default_config}
use raemote_server.Discovery.Authority.{IsPlain}
use raemote_server.Discovery.Engine.{outcome}
use raemote_server.Discovery.Ip.{v4}
use raemote_server.Discovery.Listener.{Listener}
use raemote_server.Discovery.Model.{Origin, http_origin, authority, normalize_host}
use raemote_server.Config.Env.{
  Env, load, env_override, override_token, override_bind, override_serve, override_rate_limit,
  override_discovery, override_from_env,
}
use raemote_server.Cli.Settings.{assign, config_set, config_get, stored}
use raemote_server.Cli.Apps.{apps_hide, apps_unhide, with_excluded}
use raemote_server.Cli.Stored
use raemote_server.Cli.Hiding

abbrev named_config : Config
named_config = record default_config { name = some (codes "den") }

-- a parser of the one configuration that is saved, and an environment that sets nothing
abbrev parser : Text → Option Config
parser content = some named_config

abbrev empty_env : Env
empty_env name = none

config_set-named :
    config_set parser empty_env none (codes "name") (codes "den") ≡ stored named_config
unfolding config_set load assign HashMap.get set_value validate errors app_errors short_token report
    trim trim_start trim_end is_whitespace Catalog.rebuild Catalog.empty
config_set-named = refl

kept : env_override empty_env named_config ≡ named_config
unfolding env_override override_token override_bind override_serve override_rate_limit
    override_discovery override_from_env
kept = refl

config_get-named :
    config_get parser empty_env (some (some (codes "den"))) (codes "name") ≡ some (codes "den")
unfolding config_get load HashMap.get get_value env_override override_token override_bind
    override_serve override_rate_limit override_discovery override_from_env
config_get-named = refl

config_set-config_get_example :
    config_set parser empty_env (some (some (codes "den"))) (codes "name") (codes "den")
    ≡ stored named_config
config_set-config_get_example =
    Stored.config_set-config_get parser empty_env none (codes "den") (codes "name") (codes "den")
      (codes "den") config_set-named refl kept config_get-named

abbrev vite : Origin
vite = http_origin (codes "127.0.0.1") 5173

abbrev hiding : Config
hiding = with_excluded default_config (codes "127.0.0.1:5173" ∷ [])

vite-IsPlain : IsPlain vite
unfolding has_char strip_prefix is_whitespace normalize_host
vite-IsPlain = record {
  filled = refl;
  closed = refl;
  open_free = refl;
  starts = refl;
  canonical = refl;
  port_positive = refl;
  port_fits = omega arith;
}

apps_hide-vite : apps_hide default_config vite ≡ some hiding
unfolding apps_hide authority has_char decimal
apps_hide-vite = refl

abbrev listeners : List Listener
listeners =
    record {
      pid = 7;
      process_name = codes "node";
      socket = record { ip = v4 127 0 0 1; port = 5173 };
      is_tcp = true;
      is_listen = true;
    }
    ∷ []

apps_hide-outcome_example :
    All (λ c. c.origin ≢ vite) (outcome hiding.discovery listeners []).candidates
apps_hide-outcome_example =
    Hiding.apps_hide-outcome default_config vite listeners [] vite-IsPlain apps_hide-vite

apps_unhide-apps_hide_example : apps_unhide hiding vite ≡ some default_config
apps_unhide-apps_hide_example =
    Hiding.apps_unhide-apps_hide default_config vite vite-IsPlain apps_hide-vite
