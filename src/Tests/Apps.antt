-- ===== src/Tests/Apps.antt =====
-- Listeners, a scan and the catalog at concrete inputs.
use raemote_server.Prelude.{
  ◌≤◌, ◌≡◌, ◌≢◌, refl, true, false, List, [], ◌∷◌, ◌++◌, map, nat_instance, list_instance, length,
  none, some, All,
}
use mathlib.Core.List.{Memᴰ, Permᴰ}
use raemote_server.HashSet
use raemote_server.Text.{Text, codes, has_char, is_ascii_alphanumeric, to_ascii_lowercase}
use raemote_server.Text.Decimal.{decimal}
use raemote_server.Catalog
use raemote_server.Catalog.{
  CatalogApp, Catalog, manual_app, discovered_app, manual, slugify, unique_name, rebuild, find_app,
  app_before,
}
use raemote_server.Catalog.Names
use raemote_server.Catalog.Order
use raemote_server.Catalog.Rebuild
use raemote_server.Catalog.Rebuild.{app_names, manual_origins}
use raemote_server.Catalog.Slugs
use raemote_server.Catalog.Slugs.{IsSlugChar}
use raemote_server.Config.Schema.{AppConfig, default_config}
use raemote_server.Discovery.Engine.{ProbeResult, Engine, Joined, candidate_origins, outcome}
use raemote_server.Discovery.Run
use raemote_server.Discovery.Run.{Cycle, stopped, woken, run_engine, IsExposing}
use raemote_server.Discovery.Caching.{IsGood}
use raemote_server.Discovery.Filtering
use raemote_server.Discovery.Filtering.{IsExposed, origins}
use raemote_server.Discovery.Ip.{v4}
use raemote_server.Discovery.Listener.{
  Listener, ListenerFilter, Candidate, new_filter, filter_listeners_detailed,
}
use raemote_server.Discovery.Model.{origin_instance, DiscoveredApp, http_origin}
use raemote_server.Sort
use raemote_server.Http.Routes.{route, proxy}
use raemote_server.Http.Routing

abbrev manual_apps : List AppConfig
manual_apps = record { name = codes "web"; port = 3000 } ∷ []

abbrev vite : DiscoveredApp
vite = record {
  origin = http_origin (codes "127.0.0.1") 5173;
  title = some (codes "Web");
  process = some (codes "node");
  pid = some 7;
}

abbrev api : DiscoveredApp
api = record {
  origin = http_origin (codes "127.0.0.1") 8080;
  title = none;
  process = none;
  pid = none;
}

unique_name_total_example :
    (t : Text) × (unique_name (codes "web") 80 (codes "web" ∷ []) ≡ some (t, t ∷ codes "web" ∷ []))
    × (HashSet.contains (codes "web" ∷ []) t ≡ false)
unique_name_total_example = Names.unique_name_total (codes "web") 80 (codes "web" ∷ [])

slugify-IsSlug_example :
    All IsSlugChar (slugify (codes "My App!")) × (length (slugify (codes "My App!")) ≤ 49)
slugify-IsSlug_example = Slugs.slugify-IsSlug (codes "My App!")

rebuild-IsSafe_example :
    (apps : List CatalogApp) × (rebuild manual_apps (vite ∷ [])
      ≡ some (record { apps = map manual_app manual_apps ++ apps }))
    × All (λ a. (a.name ≢ []) × All IsSlugChar a.name) apps
rebuild-IsSafe_example = Slugs.rebuild-IsSafe manual_apps (vite ∷ [])

abbrev web : CatalogApp
web = manual_app (record { name = codes "web"; port = 3000 })

abbrev catalog : Catalog
catalog = record { apps = web ∷ discovered_app (codes "web-5173") vite ∷ [] }

built : rebuild manual_apps (vite ∷ []) ≡ some catalog
unfolding rebuild Sort.sort_by Sort.sorted_insert HashSet.contains HashSet.from_list HashSet.insert
    unique_name Catalog.name_base slugify is_ascii_alphanumeric to_ascii_lowercase decimal
built = refl

distinct : HashSet.IsUnique (map (λ (a : AppConfig). a.name) manual_apps)
unfolding HashSet.contains
distinct = (refl, tt)

rebuild-IsUnique_example : HashSet.IsUnique (app_names catalog.apps)
rebuild-IsUnique_example = Rebuild.rebuild-IsUnique manual_apps (vite ∷ []) distinct built

find_app_total_example : find_app catalog (codes "web") ≡ some web
find_app_total_example =
    Rebuild.find_app_total manual_apps (vite ∷ []) {app = web} distinct built (Memᴰ.head refl)

apart : HashSet.IsUnique (map (λ (d : DiscoveredApp). d.origin) (vite ∷ api ∷ []))
unfolding HashSet.contains
apart = (refl, (refl, tt))

rebuild-Permᴰ_example :
    rebuild manual_apps (vite ∷ api ∷ []) ≡ rebuild manual_apps (api ∷ vite ∷ [])
rebuild-Permᴰ_example = Order.rebuild-Permᴰ manual_apps apart (Permᴰ.swap refl refl)

no_slash : has_char b'/' (codes "web") ≡ false
unfolding has_char
no_slash = refl

route-rebuild_example :
    (route catalog (codes "GET") (codes "/app/" ++ (codes "web" ++ b'/' ∷ codes "a/b"))
      ≡ proxy web.origin (codes "a/b"))
    × (route catalog (codes "GET") (codes "/app/" ++ codes "web") ≡ proxy web.origin [])
route-rebuild_example =
    Routing.route-rebuild manual_apps (vite ∷ []) {app = web} (codes "GET") (codes "a/b") distinct
      built (Memᴰ.head refl) no_slash

abbrev ssh : Listener
ssh = record {
  pid = 1;
  process_name = codes "sshd";
  socket = record { ip = v4 127 0 0 1; port = 22 };
  is_tcp = true;
  is_listen = true;
}

abbrev dev : Listener
dev = record {
  pid = 7;
  process_name = codes "node";
  socket = record { ip = v4 127 0 0 1; port = 5173 };
  is_tcp = true;
  is_listen = true;
}

abbrev filter_all : ListenerFilter
filter_all = new_filter 1024 true [] [] []

filter_listeners_detailed-IsExposed_example :
    All
      (IsExposed filter_all (ssh ∷ dev ∷ []))
      (filter_listeners_detailed (ssh ∷ dev ∷ []) filter_all).candidates
filter_listeners_detailed-IsExposed_example =
    Filtering.filter_listeners_detailed-IsExposed (ssh ∷ dev ∷ []) filter_all

abbrev page : ProbeResult
page = record { status = 403; title = some (codes "Login"); server = none }

abbrev idle : Engine
idle = record { cache = []; catalog = record { apps = [] }; last_scan = []; catalog_generation = 0 }

abbrev candidate : Candidate
candidate = record {
  origin = http_origin (codes "127.0.0.1") 5173;
  process = some (codes "node");
  pid = some 7;
}

abbrev found : List Candidate
found = (outcome default_config.discovery (ssh ∷ dev ∷ []) []).candidates

-- the one probe of the second scan answers
abbrev answers : List Joined
answers = record { task = 0; result = some page; finished = 5 } ∷ []

-- the enumeration fails
abbrev blind : Cycle
blind = record { config = default_config; found = none; now = 0; joined = []; apps = [] }

run_engine-exposed_example :
    (e' : Engine) × (run_engine idle blind (
        map woken (blind ∷ [])
        ++ woken (record {
          config = default_config;
          found = some (ssh ∷ dev ∷ [], []);
          now = 4;
          joined = answers;
          apps = [];
        })
          ∷ stopped
          ∷ woken blind
          ∷ [])
      ≡ some e')
    × IsGood (candidate_origins found) e'.cache
    × IsExposing [] (candidate_origins found) e'
run_engine-exposed_example =
    Run.run_engine-exposed idle blind (blind ∷ []) default_config (ssh ∷ dev ∷ []) [] 4 answers []
      (woken blind ∷ []) refl refl
