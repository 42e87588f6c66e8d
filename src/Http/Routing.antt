-- ===== src/Http/Routing.antt =====
-- http.rs: the path under which the catalog offers an app leads to that app.
use raemote_server.Prelude.{
  ◌≡◌, refl, ◌∙◌, false, List, [], ◌∷◌, ◌++◌, nat_instance, list_instance, some,
}
use mathlib.Core.List.{Memᴰ}
use raemote_server.Text.{Text, codes, strip_prefix, has_char}
use raemote_server.Catalog
use raemote_server.Catalog.{Catalog, CatalogApp}
use raemote_server.Catalog.Rebuild
use raemote_server.Catalog.Rebuild.{manual_names}
use raemote_server.Config.Schema.{AppConfig}
use raemote_server.Discovery.Model.{DiscoveredApp}
use raemote_server.HashSet
use raemote_server.Text.Split.{split_once-none, split_once-cut}
use raemote_server.Http.Routes.{proxy, segments, app_route, route}

pub segments-name : (name : Text) → has_char b'/' name ≡ false → segments name ≡ (name, [])
unfolding segments
segments-name name h = rw (split_once-none b'/' name h, segments) refl

pub segments-path :
    (name sub_path : Text)
    → has_char b'/' name ≡ false
    → segments (name ++ b'/' ∷ sub_path) ≡ (name, sub_path)
unfolding segments
segments-path name sub_path h = rw (split_once-cut b'/' name sub_path h, segments) refl

app_path :
    (c : Catalog) (method rest : Text) → route c method (codes "/app/" ++ rest) ≡ app_route c rest
unfolding route strip_prefix
app_path c method rest = refl

app_route-found :
    (c : Catalog) (rest name sub_path : Text) (app : CatalogApp)
    → segments rest ≡ (name, sub_path)
    → Catalog.find_app c name ≡ some app
    → app_route c rest ≡ proxy app.origin sub_path
unfolding app_route
app_route-found c rest name sub_path app cut hit = rw (app_route, cut, hit, cut) refl

-- Let the names of the configured apps differ from one another, and let an app of the catalog that is
-- built from them and from the discovered apps have a name without a slash. A request of any method
-- for /app/<name>/<path> is passed on to the origin of that app with that path, and one for
-- /app/<name> with the empty path.
pub route-rebuild :
    (manual_apps : List AppConfig) (found : List DiscoveredApp) {c : Catalog} {app : CatalogApp}
    (method sub_path : Text)
    → HashSet.IsUnique (manual_names manual_apps)
    → Catalog.rebuild manual_apps found ≡ some c
    → Memᴰ app c.apps
    → has_char b'/' app.name ≡ false
    → (route c method (codes "/app/" ++ (app.name ++ b'/' ∷ sub_path)) ≡ proxy app.origin sub_path)
      × (route c method (codes "/app/" ++ app.name) ≡ proxy app.origin [])
route-rebuild manual_apps found {c} {app} method sub_path h e m s =
    let hit = Rebuild.find_app_total manual_apps found h e m in
    (
      app_path c method (app.name ++ b'/' ∷ sub_path)
          ∙ app_route-found c _ app.name sub_path app (segments-path app.name sub_path s) hit,
      app_path c method app.name
          ∙ app_route-found c _ app.name [] app (segments-name app.name s) hit,
    )
