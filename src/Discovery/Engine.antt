-- ===== src/Discovery/Engine.antt =====
-- discovery/mod.rs: one cycle of the discovery engine. What the operating system and the probes answer
-- are arguments: `found` is the result of the enumeration (`none` where it failed), and `joined` holds
-- the probe tasks that were joined, in the order in which they were, each with its result and the
-- instant at which it was handled.
use raemote_server.HashMap
use raemote_server.HashSet
use raemote_server.Prelude.{
  ℕ, zero, suc, ◌+◌, ◌-◌, ◌*◌, ◌%◌, ◌^◌, max, Bool, true, false, ◌||◌, List, [], ◌∷◌, ◌++◌, map,
  nat_instance, list_instance, option_instance, if◌then◌else◌, filter, Option, none, some, is_some,
  nat_eq, ltb, leb,
}
use raemote_server.Catalog
use raemote_server.Catalog.{Catalog}
use raemote_server.Config.Schema.{Config, DiscoveryConfig, AppConfig}
use raemote_server.Discovery.Ip.{SocketAddr}
use raemote_server.Discovery.Listener.{
  Listener, Candidate, Skipped, FilterOutcome, not_credible, unreachable, new_filter, enumerate,
}
use raemote_server.Discovery.Model.{Origin, origin_instance, DiscoveredApp, authority}
use raemote_server.Text.{Text, codes, trim, lowercase}

pub record ProbeResult : Type 0 where
  pub status : ℕ
  pub title : Option Text
  pub server : Option Text

abbrev pub error_titles : List Text
error_titles =
    codes "error"
    ∷ codes "error response"
    ∷ codes "internal server error"
    ∷ codes "500 internal server error"
    ∷ codes "bad gateway"
    ∷ codes "502 bad gateway"
    ∷ codes "service unavailable"
    ∷ codes "503 service unavailable"
    ∷ codes "gateway timeout"
    ∷ codes "504 gateway timeout"
    ∷ codes "bad request"
    ∷ codes "400 bad request"
    ∷ codes "unauthorized"
    ∷ codes "403 forbidden"
    ∷ codes "not found"
    ∷ codes "404 not found"
    ∷ codes "410 gone"
    ∷ codes "connection refused"
    ∷ codes "this site can't be reached"
    ∷ codes "this site can’t be reached"
    ∷ codes "web server is down"
    ∷ codes "page not found"
    ∷ []

unfoldable pub looks_like_error_page : Text → Bool
looks_like_error_page title = HashSet.contains error_titles (lowercase (trim title))

abbrev pub has_error_title : Option Text → Bool
has_error_title none = false
has_error_title (some title) = looks_like_error_page title

unfoldable pub is_credible : ProbeResult → Bool
is_credible r =
    if has_error_title r.title
    then false
    else if nat_eq r.status 401 || nat_eq r.status 403
    then true
    else if leb 400 r.status
    then false
    else is_some r.title || ltb r.status 400

pub record CachedApp : Type 0 where
  pub app : DiscoveredApp
  pub last_verified : ℕ

abbrev pub Cache : Type 0
Cache = List (Origin × CachedApp)

-- `catalog_generation` is a `u64`
pub record Engine : Type 0 where
  pub cache : Cache
  pub catalog : Catalog
  pub last_scan : List Skipped
  pub catalog_generation : ℕ

pub record Completed : Type 0 where
  pub candidate : Candidate
  pub result : Option ProbeResult
  pub finished : ℕ

abbrev pub cached_apps : Cache → List DiscoveredApp
cached_apps = map (λ (p : Origin × CachedApp). p.1.app)

-- `none` is the fuel of the catalog's search for names, which never runs out
unfoldable pub rebuild_catalog : List AppConfig → Engine → Option Engine
rebuild_catalog manual_apps e = elim (Catalog.rebuild manual_apps (cached_apps e.cache)) [
  | none ↦ none
  | some catalog ↦
      some
        (record e { catalog = catalog; catalog_generation = (e.catalog_generation + 1) % 2 ^ 64 })
]

-- `duration_since` stops at zero
unfoldable pub needs_probe : Cache → (now recheck : ℕ) → Candidate → Bool
needs_probe cache now recheck c = elim (HashMap.get cache c.origin) [
  | none ↦ true
  | some cached ↦ leb recheck (now - cached.last_verified)
]

abbrev pub to_cached : Candidate → ProbeResult → ℕ → CachedApp
to_cached c r finished = record {
  app = record { origin = c.origin; title = r.title; process = c.process; pid = c.pid };
  last_verified = finished;
}

abbrev skip : Candidate → Bool → Skipped
skip c answered = record {
  origin = authority c.origin;
  process = c.process;
  reason = if answered then not_credible else unreachable;
}

-- the loop over the joined tasks
unfoldable pub absorb : Cache → List Skipped → List Completed → Cache × List Skipped
absorb cache skipped [] = (cache, skipped)
absorb cache skipped (t ∷ ts) = elim t.result [
  | none ↦
      absorb (HashMap.remove cache t.candidate.origin) (skipped ++ skip t.candidate false ∷ []) ts
  | some r ↦ elim (is_credible r) [
    | true ↦
        absorb (HashMap.insert cache t.candidate.origin (to_cached t.candidate r t.finished))
          skipped ts
    | false ↦
        absorb (HashMap.remove cache t.candidate.origin) (skipped ++ skip t.candidate true ∷ []) ts
  ]
]

abbrev pub candidate_origins : List Candidate → List Origin
candidate_origins = map (λ c. c.origin)

unfoldable pub drop_gone : List Candidate → Cache → Cache
drop_gone candidates =
    HashMap.retain (λ o _. HashSet.contains (HashSet.from_list (candidate_origins candidates)) o)

abbrev pub nanos_per_sec : ℕ
nanos_per_sec = 1_000_000_000

-- the candidates that this cycle probes
unfoldable pub to_probe : DiscoveryConfig → Engine → List Candidate → ℕ → List Candidate
to_probe d e candidates now =
    filter (needs_probe (drop_gone candidates e.cache) now (max d.recheck_secs 1 * nanos_per_sec))
      candidates

-- the enumeration under the configuration
abbrev pub outcome : DiscoveryConfig → List Listener → List SocketAddr → FilterOutcome
outcome d listeners extra =
    enumerate
      (new_filter d.min_port d.loopback_only d.exclude_ports d.exclude_processes d.exclude_origins)
      d.include_unattributed listeners extra

-- A task that was joined: which of the probed candidates it had, what it found and when. A task that
-- panicked is not among the joined ones.
pub record Joined : Type 0 where
  pub task : ℕ
  pub result : Option ProbeResult
  pub finished : ℕ

unfoldable pub candidate_at : List Candidate → ℕ → Option Candidate
candidate_at [] i = none
candidate_at (c ∷ cs) zero = some c
candidate_at (c ∷ cs) (suc i) = candidate_at cs i

unfoldable pub completed_of : List Candidate → List Joined → List Completed
completed_of probed [] = []
completed_of probed (j ∷ joined) =
    let rest = completed_of probed joined in
    elim (candidate_at probed j.task) [
      | none ↦ rest
      | some c ↦ record { candidate = c; result = j.result; finished = j.finished } ∷ rest
    ]

-- The configuration is read at the start, and its apps again at the end. `joined` has the tasks in the
-- order in which they were joined.
unfoldable pub scan_once :
    Config
    → (apps : List AppConfig) → Option (List Listener × List SocketAddr)
    → (now : ℕ) → (joined : List Joined) → Engine
    → Option Engine
scan_once cfg apps found now joined e = elim cfg.discovery.enabled [
  | false ↦ rebuild_catalog apps (record e { cache = [] })
  | true ↦ elim found [
    | none ↦ some e
    | some (listeners, extra) ↦
        let o = outcome cfg.discovery listeners extra in
        let probed = to_probe cfg.discovery e o.candidates now in
        let (cache, skipped) =
          absorb (drop_gone o.candidates e.cache) o.skipped (completed_of probed joined) in
        rebuild_catalog apps (record e { cache = cache; last_scan = skipped })
  ]
]
