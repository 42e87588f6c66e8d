-- ===== src/Catalog.antt =====
-- catalog.rs: the merged view of configured and discovered apps.
pub mod Names
pub mod Rebuild
pub mod Order
pub mod Slugs
use raemote_server.HashSet
use raemote_server.Sort
use raemote_server.Prelude.{
  ℕ, zero, suc, ◌+◌, ◌-◌, ◌*◌, ◌/◌, ◌%◌, ◌^◌, ◌≤◌, ◌<◌, min, max, ◌≡◌, ◌≢◌, refl, sym, ap, ◌∙◌,
  subst, ◌↔◌, ◌⊎◌, inl, inr, Bool, true, false, not, ◌&&◌, ◌||◌, List, [], ◌∷◌, ◌++◌, map,
  append_assoc, append-nil, arith, Eq, ◌==◌, nat_instance, list_instance, eq_iff, eq_self,
  if◌then◌else◌, Bool-cases, Option-cases, length, take, drop, filter, find, all, any, Option, none,
  some, is_some, unwrap_or, option_filter, is_empty, nat_eq, ltb, leb, All, All-append,
  length-append,
}
use raemote_server.Config.Schema.{AppConfig}
use raemote_server.Discovery.Model.{Origin, http_origin, origin_instance, DiscoveredApp}
use raemote_server.Text.{Text, codes, is_ascii_alphanumeric, to_ascii_lowercase}
use raemote_server.Text.Decimal.{decimal}

pub data AppSource : Type 0 where
  manual discovered : AppSource

abbrev pub source_text : AppSource → Text
source_text manual = codes "manual"
source_text discovered = codes "discovered"

pub record CatalogApp : Type 0 where
  pub name : Text
  pub title : Option Text
  pub origin : Origin
  pub source : AppSource
  pub process : Option Text
  pub pid : Option ℕ

pub record Catalog : Type 0 where
  pub apps : List CatalogApp

unfoldable pub empty : Catalog
empty = record { apps = [] }

abbrev max_slug : ℕ
max_slug = 48

-- The loop over the characters. The output is ASCII, so `out.len()` is its length.
slugify_from : Text → Text → Bool → Text
slugify_from [] out pending_dash = out
slugify_from (ch ∷ rest) out pending_dash =
    let letter = is_ascii_alphanumeric ch in
    let dashed = if pending_dash && not (is_empty out) then out ++ b'-' ∷ [] else out in
    let out' = if letter then dashed ++ to_ascii_lowercase ch ∷ [] else out in
    let more = slugify_from rest out' (not letter) in
    if leb max_slug (length out') then out' else more

unfoldable pub slugify : Text → Text
unfolding slugify_from
slugify input = slugify_from input [] false

-- the slug of an optional text, if there is one and it is not empty
slug_of : Option Text → Option Text
slug_of none = none
slug_of (some text) = let slug = slugify text in if is_empty slug then none else some slug

unfoldable pub name_base : DiscoveredApp → Text
unfolding slug_of
name_base d = unwrap_or (slug_of d.title) (unwrap_or (slug_of d.process) (codes "app"))

numbered : Text → ℕ → ℕ → Text
numbered base port n = base ++ (b'-' ∷ (decimal port ++ (b'-' ∷ decimal n)))

-- The loop of `unique_name`, on fuel; `none` means that the fuel ran out.
unique_from : ℕ → Text → ℕ → List Text → ℕ → Option Text
unique_from zero base port used n = none
unique_from (suc fuel) base port used n =
    let candidate = numbered base port n in
    let next = unique_from fuel base port used (n + 1) in
    if HashSet.contains used candidate then next else some candidate

-- The name, with the set that holds it. The loop tries at most one name more than are taken.
unfoldable pub unique_name : Text → ℕ → List Text → Option (Text × List Text)
unfolding unique_from numbered
unique_name base port used =
    let with_port = base ++ (b'-' ∷ decimal port) in
    if not (HashSet.contains used base)
    then some (base, base ∷ used)
    else if not (HashSet.contains used with_port)
    then some (with_port, with_port ∷ used)
    else elim (unique_from (length used + 1) base port used 2) [
      | none ↦ none
      | some candidate ↦ some (candidate, candidate ∷ used)
    ]

abbrev pub manual_app : AppConfig → CatalogApp
manual_app app = record {
  name = app.name;
  title = none;
  origin = http_origin (codes "127.0.0.1") app.port;
  source = manual;
  process = none;
  pid = none;
}

abbrev pub discovered_app : Text → DiscoveredApp → CatalogApp
discovered_app name d = record {
  name = name;
  title = d.title;
  origin = d.origin;
  source = discovered;
  process = d.process;
  pid = d.pid;
}

-- by port, then by host
abbrev pub app_before : DiscoveredApp → DiscoveredApp → Bool
app_before a b =
    ltb a.origin.port b.origin.port
    || (nat_eq a.origin.port b.origin.port && Sort.text_lt a.origin.host b.origin.host)

-- The loop over the discovered apps; the accumulator of names is `used`.
unfoldable pub add_discovered :
    List Origin → List Text → List DiscoveredApp → Option (List CatalogApp)
add_discovered origins used [] = some []
add_discovered origins used (d ∷ ds) = elim (HashSet.contains origins d.origin) [
  | true ↦ add_discovered origins used ds
  | false ↦ elim (unique_name (name_base d) d.origin.port used) [
    | none ↦ none
    | some (name, used') ↦ elim (add_discovered origins used' ds) [
      | none ↦ none
      | some apps ↦ some (discovered_app name d ∷ apps)
    ]
  ]
]

-- `none` is the model's fuel running out, which `rebuild_total` excludes.
unfoldable pub rebuild : List AppConfig → List DiscoveredApp → Option Catalog
unfolding add_discovered
rebuild manual_apps found =
    let origins =
      HashSet.from_list
        (map (λ (a : AppConfig). http_origin (codes "127.0.0.1") a.port) manual_apps) in
    let used = HashSet.from_list (map (λ (a : AppConfig). a.name) manual_apps) in
    elim (add_discovered origins used (Sort.sort_by app_before found)) [
      | none ↦ none
      | some apps ↦ some (record { apps = map manual_app manual_apps ++ apps })
    ]

-- `Catalog::find`
unfoldable pub find_app : Catalog → Text → Option CatalogApp
find_app catalog name = find (λ a. a.name == name) catalog.apps

abbrev is_discovered : AppSource → Bool
is_discovered manual = false
is_discovered discovered = true

unfoldable pub discovered_count : Catalog → ℕ
discovered_count catalog = length (filter (λ a. is_discovered a.source) catalog.apps)

slugs :
    (slugify (codes "My App!") ≡ codes "my-app")
    × (slugify (codes "  Vite + React  ") ≡ codes "vite-react")
    × (slugify (codes "!!!") ≡ [])
unfolding slugify is_ascii_alphanumeric to_ascii_lowercase
slugs = (refl, refl, refl)
