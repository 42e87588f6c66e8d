-- ===== src/Catalog/Rebuild.antt =====
-- catalog.rs: what `Catalog::rebuild` gives: it ends, its names are distinct and found again, and it
-- shows each discovered origin that no manual entry has.
use mathlib.Core.List.{Memᴰ}
use raemote_server.HashSet
use raemote_server.Sort
use raemote_server.Prelude.{
  ◌≡◌, refl, ap, ◌∙◌, inl, inr, true, false, not, List, [], ◌∷◌, ◌++◌, map, arith, ◌==◌,
  nat_instance, list_instance, eq_iff, eq_self, Bool-cases, filter, find, some,
}
use raemote_server.Config.Schema.{AppConfig}
use raemote_server.Discovery.Model.{Origin, http_origin, origin_instance, DiscoveredApp}
use raemote_server.Text.{Text, codes}
use raemote_server.Catalog.Names.{unique_name_total}
use raemote_server.Catalog.{
  CatalogApp, Catalog, name_base, unique_name, manual_app, discovered_app, app_before,
  add_discovered, rebuild, find_app,
}

abbrev pub app_names : List CatalogApp → List Text
app_names = map (λ a. a.name)

abbrev pub manual_names : List AppConfig → List Text
manual_names = map (λ a. a.name)

abbrev pub manual_origins : List AppConfig → List Origin
manual_origins apps =
    HashSet.from_list (map (λ (a : AppConfig). http_origin (codes "127.0.0.1") a.port) apps)

-- The rounds of the loop: an app on a manual origin is passed over, any other gets a fresh name.
pub data Added (origins : List Origin)
    : List Text → List DiscoveredApp → List CatalogApp → Type 0 where
  done : {used : List Text} → Added origins used [] []
  shadowed :
      {used : List Text} {d : DiscoveredApp} {ds : List DiscoveredApp} {apps : List CatalogApp}
      → HashSet.contains origins d.origin ≡ true
      → Added origins used ds apps
      → Added origins used (d ∷ ds) apps
  named :
      {used : List Text} {d : DiscoveredApp} {ds : List DiscoveredApp} {apps : List CatalogApp}
      (t : Text)
      → HashSet.contains origins d.origin ≡ false
      → unique_name (name_base d) d.origin.port used ≡ some (t, t ∷ used)
      → HashSet.contains used t ≡ false
      → Added origins (t ∷ used) ds apps
      → Added origins used (d ∷ ds) (discovered_app t d ∷ apps)

add_discovered-Added :
    (origins : List Origin) (used : List Text) (ds : List DiscoveredApp)
    → (apps : List CatalogApp) × (add_discovered origins used ds ≡ some apps)
      × Added origins used ds apps
unfolding add_discovered
add_discovered-Added origins used [] = ([], refl, done)
add_discovered-Added origins used (d ∷ ds) = elim (Bool-cases (HashSet.contains origins d.origin)) [
  | inl shadow ↦
      let (apps, found, rounds) = add_discovered-Added origins used ds in
      (apps, rw (shadow, add_discovered) found, shadowed shadow rounds)
  | inr free ↦
      let (t, chosen, fresh) = unique_name_total (name_base d) d.origin.port used in
      let (apps, found, rounds) = add_discovered-Added origins (t ∷ used) ds in
      (
        discovered_app t d ∷ apps,
        rw (free, chosen, found, add_discovered) refl,
        named t free chosen fresh rounds,
      )
]

-- Building the catalog ends, and gives the manual apps followed by those of the loop.
pub rebuild_total :
    (manual_apps : List AppConfig) (found : List DiscoveredApp)
    → (apps : List CatalogApp) × (rebuild manual_apps found
        ≡ some (record { apps = map manual_app manual_apps ++ apps }))
      × Added
          (manual_origins manual_apps)
          (HashSet.from_list (manual_names manual_apps))
          (Sort.sort_by app_before found)
          apps
unfolding rebuild
rebuild_total manual_apps found =
    let (apps, built, rounds) =
      add_discovered-Added (manual_origins manual_apps)
        (HashSet.from_list (manual_names manual_apps)) (Sort.sort_by app_before found) in
    (apps, rw (built, rebuild) refl, rounds)

Added-unused :
    {origins : List Origin} {used : List Text} {ds : List DiscoveredApp} {apps : List CatalogApp}
    → Added origins used ds apps
    → (t : Text) → HashSet.contains used t ≡ true
    → HashSet.contains (app_names apps) t ≡ false
unfolding HashSet.contains
Added-unused done t h = refl
Added-unused (shadowed s rounds) t h = Added-unused rounds t h
Added-unused (named {used = used} u free chosen fresh rounds) t h =
    ground (arith, Added-unused rounds t, eq_iff u t)

Added-IsUnique :
    {origins : List Origin} {used : List Text} {ds : List DiscoveredApp} {apps : List CatalogApp}
    → Added origins used ds apps
    → HashSet.IsUnique (app_names apps)
Added-IsUnique done = tt
Added-IsUnique (shadowed s rounds) = Added-IsUnique rounds
Added-IsUnique (named {used = used} t free chosen fresh rounds) =
    (Added-unused rounds t (unfold HashSet.contains in rw (eq_self t)), Added-IsUnique rounds)

append-IsUnique :
    (xs ys : List Text)
    → HashSet.IsUnique xs
    → HashSet.IsUnique ys
    → ((t : Text) → HashSet.contains xs t ≡ true → HashSet.contains ys t ≡ false)
    → HashSet.IsUnique (xs ++ ys)
append-IsUnique [] ys h k apart = k
append-IsUnique (x ∷ xs) ys h k apart = (
  ground (
    arith,
    HashSet.contains-append xs ys x,
    h.0,
    apart x (unfold HashSet.contains in rw (eq_self x)),
  ),
  append-IsUnique xs ys h.1 k (λ t m. apart t (unfold HashSet.contains in ground arith)),
)

app_names-append :
    (manual_apps : List AppConfig) (apps : List CatalogApp)
    → app_names (map manual_app manual_apps ++ apps) ≡ manual_names manual_apps ++ app_names apps
app_names-append [] apps = refl
app_names-append (a ∷ manual_apps) apps = ap (◌∷◌ a.name) (app_names-append manual_apps apps)

-- If the names of the manual entries are distinct, then so are all names of the catalog.
pub rebuild-IsUnique :
    (manual_apps : List AppConfig) (found : List DiscoveredApp) {c : Catalog}
    → HashSet.IsUnique (manual_names manual_apps)
    → rebuild manual_apps found ≡ some c
    → HashSet.IsUnique (app_names c.apps)
rebuild-IsUnique manual_apps found {c} h e =
    let (apps, built, rounds) = rebuild_total manual_apps found in
    let same : map manual_app manual_apps ++ apps ≡ c.apps = cc (e, built) in
    rw (← same, app_names-append manual_apps apps)
      (append-IsUnique (manual_names manual_apps) (app_names apps) h (Added-IsUnique rounds) (λ t m.
        Added-unused rounds t (HashSet.contains-from_list (manual_names manual_apps) t ∙ m)))

different :
    (t : Text) (apps : List CatalogApp) {app : CatalogApp}
    → Memᴰ app apps
    → HashSet.contains (app_names apps) t ≡ false
    → (t == app.name) ≡ false
unfolding HashSet.contains
different t [] m h = elim m [ ]
different t (a ∷ apps) {app} (Memᴰ.head e) h = ground (arith, eq_iff t app.name, eq_iff app.name t)
different t (a ∷ apps) (Memᴰ.tail m) h = different t apps m (ground arith)

find-Memᴰ :
    (apps : List CatalogApp) {app : CatalogApp}
    → HashSet.IsUnique (app_names apps)
    → Memᴰ app apps
    → find (λ a. a.name == app.name) apps ≡ some app
find-Memᴰ [] u m = elim m [ ]
find-Memᴰ (a ∷ apps) {app} u (Memᴰ.head e) = ground (arith, eq_self a.name, eq_iff a.name app.name)
find-Memᴰ (a ∷ apps) {app} u (Memᴰ.tail m) = rw (different a.name apps m u.0) (find-Memᴰ apps u.1 m)

-- If the names of the manual entries are distinct, every entry of the catalog is what a lookup of
-- its name finds.
pub find_app_total :
    (manual_apps : List AppConfig) (found : List DiscoveredApp) {c : Catalog} {app : CatalogApp}
    → HashSet.IsUnique (manual_names manual_apps)
    → rebuild manual_apps found ≡ some c
    → Memᴰ app c.apps
    → find_app c app.name ≡ some app
unfolding find_app
find_app_total manual_apps found {c} h e m =
    find-Memᴰ c.apps (rebuild-IsUnique manual_apps found h e) m

Added-origins :
    {origins : List Origin} {used : List Text} {ds : List DiscoveredApp} {apps : List CatalogApp}
    → Added origins used ds apps
    → map (λ a. a.origin) apps
      ≡ filter (λ o. not (HashSet.contains origins o)) (map (λ d. d.origin) ds)
Added-origins done = refl
Added-origins (shadowed s rounds) = rw s (Added-origins rounds)
Added-origins (named t free chosen fresh rounds) = rw (free, Added-origins rounds)

-- Behind the manual entries, the catalog shows the discovered origins in order of port and host,
-- without those that a manual entry has.
pub rebuild-origins :
    (manual_apps : List AppConfig) (found : List DiscoveredApp) {c : Catalog}
    → rebuild manual_apps found ≡ some c
    → map (λ a. a.origin) c.apps
      ≡ map (λ (a : AppConfig). http_origin (codes "127.0.0.1") a.port) manual_apps
        ++ filter
            (λ o. not (HashSet.contains (manual_origins manual_apps) o))
            (map (λ d. d.origin) (Sort.sort_by app_before found))
rebuild-origins manual_apps found {c} e =
    let (apps, built, rounds) = rebuild_total manual_apps found in
    let same : map manual_app manual_apps ++ apps ≡ c.apps = cc (e, built) in
    rw (← same, ← Added-origins rounds) (parts manual_apps apps)
  where
    parts :
        (ms : List AppConfig) (apps : List CatalogApp)
        → map (λ a. a.origin) (map manual_app ms ++ apps)
          ≡ map (λ (a : AppConfig). http_origin (codes "127.0.0.1") a.port) ms
            ++ map (λ a. a.origin) apps
    parts [] apps = refl
    parts (m ∷ ms) apps = rw (parts ms apps)
