-- ===== src/Discovery/Exposure.antt =====
-- discovery/mod.rs: the engine exposes only what the last scan saw and a probe found credible.
use raemote_server.HashSet
use raemote_server.Prelude.{
  ℕ, zero, suc, ◌+◌, ◌%◌, ◌^◌, ◌≡◌, refl, sym, ap, ◌∙◌, subst, ◌⊎◌, inl, inr, Bool, true, not, List,
  [], ◌∷◌, ◌++◌, map, arith, nat_instance, list_instance, option_instance, eq_iff, eq_self,
  Bool-cases, Option-cases, filter, some, All, some-injective,
}
use raemote_server.Catalog
use raemote_server.Catalog.{Catalog}
use raemote_server.Catalog.Rebuild
use raemote_server.Catalog.Rebuild.{manual_origins}
use raemote_server.Catalog.{app_before}
use raemote_server.Sort
use raemote_server.Sort.Laws
use raemote_server.Config.Schema.{Config, AppConfig}
use raemote_server.Discovery.Ip.{SocketAddr}
use raemote_server.Discovery.Listener.{Candidate, Listener}
use raemote_server.Discovery.Model.{http_origin, Origin, origin_instance}
use raemote_server.Text.{codes}
use raemote_server.Discovery.Engine.{
  Joined, completed_of, candidate_at, to_probe, Cache, Engine, Completed, cached_apps,
  rebuild_catalog, absorb, candidate_origins, drop_gone, outcome, scan_once,
}
use raemote_server.Discovery.Caching.{IsCache, IsGood, absorb-IsGood, drop_gone-IsGood, cached-get}

contains-filter :
    (p : Origin → Bool) (os : List Origin) (o : Origin)
    → HashSet.contains (filter p os) o ≡ true
    → HashSet.contains os o ≡ true
unfolding HashSet.contains
contains-filter p [] o m = ground arith
contains-filter p (x ∷ os) o m = ground (arith, contains-filter p os o, eq_iff x o)

served-live :
    (manual_apps : List AppConfig) (live : List Origin) (cache : Cache) {c : Catalog}
    → IsGood live cache
    → Catalog.rebuild manual_apps (cached_apps cache) ≡ some c
    → (o : Origin) → HashSet.contains (map (λ a. a.origin) c.apps) o ≡ true
    → (HashSet.contains (manual_origins manual_apps) o ≡ true) ⊎ (HashSet.contains live o ≡ true)
served-live manual_apps live cache {c} h e o m =
    let found = map (λ d. d.origin) (Sort.sort_by app_before (cached_apps cache)) in
    let fresh = filter (λ x. not (HashSet.contains (manual_origins manual_apps) x)) found in
    let configured = map (λ (a : AppConfig). http_origin (codes "127.0.0.1") a.port) manual_apps in
    let split : HashSet.contains (configured ++ fresh) o ≡ true =
      ap (λ os. HashSet.contains os o)
        (sym (Rebuild.rebuild-origins manual_apps (cached_apps cache) e))
      ∙ m in
    elim (Bool-cases (HashSet.contains (manual_origins manual_apps) o)) [
      | inl configured ↦ inl configured
      | inr other ↦ inr (
          h.1 o (
            cached-get cache o h.0.keyed (
              sym (Laws.contains-sort_by app_before (λ d. d.origin) (cached_apps cache) o)
              ∙ contains-filter (λ x. not (HashSet.contains (manual_origins manual_apps) x)) found o
                  (ground (
                    arith,
                    split,
                    other,
                    HashSet.contains-append configured fresh o,
                    HashSet.contains-from_list configured o,
                  )))))
    ]

pub rebuild_catalog_total :
    (manual_apps : List AppConfig) (e : Engine)
    → (e' : Engine) × (rebuild_catalog manual_apps e ≡ some e')
      × (e'.cache ≡ e.cache)
      × (Catalog.rebuild manual_apps (cached_apps e.cache) ≡ some e'.catalog)
unfolding rebuild_catalog
rebuild_catalog_total manual_apps e =
    let (apps, built, _) = Rebuild.rebuild_total manual_apps (cached_apps e.cache) in
    let c : Catalog = record { apps = map Catalog.manual_app manual_apps ++ apps } in
    let e' : Engine = record e {
      catalog = c;
      catalog_generation = (e.catalog_generation + 1) % 2 ^ 64;
    } in
    (e', rw (built, rebuild_catalog) refl, refl, built)

-- the joined probes of a scan
abbrev probes : Config → List Listener → List SocketAddr → ℕ → List Joined → Engine → List Completed
probes cfg listeners extra now joined e =
    completed_of (to_probe cfg.discovery e (outcome cfg.discovery listeners extra).candidates now)
      joined

scanned : Config → List Listener → List SocketAddr → ℕ → List Joined → Engine → Engine
scanned cfg listeners extra now joined e =
    let o = outcome cfg.discovery listeners extra in
    let (cache, skipped) =
      absorb (drop_gone o.candidates e.cache) o.skipped (probes cfg listeners extra now joined e) in
    record e { cache = cache; last_scan = skipped }

scan_once-scanned :
    (cfg : Config) (apps : List AppConfig) (listeners : List Listener) (extra : List SocketAddr)
    (now : ℕ) (joined : List Joined) (e : Engine)
    → cfg.discovery.enabled ≡ true
    → scan_once cfg apps (some (listeners, extra)) now joined e
      ≡ rebuild_catalog apps (scanned cfg listeners extra now joined e)
unfolding scan_once scanned
scan_once-scanned cfg apps listeners extra now joined e enabled = rw enabled refl

candidate_at-contains :
    (cs : List Candidate) (i : ℕ) {c : Candidate}
    → candidate_at cs i ≡ some c
    → HashSet.contains (candidate_origins cs) c.origin ≡ true
unfolding candidate_at HashSet.contains
candidate_at-contains [] i h = cc
candidate_at-contains (d ∷ cs) zero {c} h =
    let same : d ≡ c = some-injective h in rw (same, eq_self c.origin) refl
candidate_at-contains (d ∷ cs) (suc i) {c} h =
    let later : HashSet.contains (candidate_origins cs) c.origin ≡ true =
      candidate_at-contains cs i h in
    ground arith

origins-filter :
    (keep : Candidate → Bool) (cs : List Candidate) (o : Origin)
    → HashSet.contains (candidate_origins (filter keep cs)) o ≡ true
    → HashSet.contains (candidate_origins cs) o ≡ true
unfolding HashSet.contains
origins-filter keep [] o m = ground arith
origins-filter keep (d ∷ cs) o m = ground (arith, origins-filter keep cs o)

-- a joined probe is of a candidate
completed_of-live :
    (keep : Candidate → Bool) (cs : List Candidate) (joined : List Joined)
    → All
        (λ t. HashSet.contains (candidate_origins cs) t.candidate.origin ≡ true)
        (completed_of (filter keep cs) joined)
unfolding completed_of
completed_of-live keep cs [] = tt
completed_of-live keep cs (j ∷ joined) =
    elim (Option-cases (candidate_at (filter keep cs) j.task)) [
      | inl unknown ↦ rw (unknown, All) (completed_of-live keep cs joined)
      | inr (c, e) ↦
          rw (e, All)
            (
              origins-filter keep cs c.origin (candidate_at-contains (filter keep cs) j.task e),
              completed_of-live keep cs joined,
            )
    ]

-- After a scan that found listeners, where discovery is enabled: the scan has a result, its cache
-- holds each origin once and holds candidates only, and every origin in the catalog is that of an
-- app that is configured at its end or of a candidate.
pub scan_once-exposed :
    (cfg : Config) (apps : List AppConfig) (listeners : List Listener) (extra : List SocketAddr)
    (now : ℕ) (joined : List Joined) (e : Engine)
    → cfg.discovery.enabled ≡ true
    → IsCache e.cache
    → (e' : Engine) × (scan_once cfg apps (some (listeners, extra)) now joined e ≡ some e')
      × IsGood (candidate_origins (outcome cfg.discovery listeners extra).candidates) e'.cache
      × ((o : Origin)
          → HashSet.contains (map (λ a. a.origin) e'.catalog.apps) o ≡ true
          → (HashSet.contains (manual_origins apps) o ≡ true)
            ⊎ (HashSet.contains
                  (candidate_origins (outcome cfg.discovery listeners extra).candidates)
                  o
                ≡ true))
unfolding scanned to_probe
scan_once-exposed cfg apps listeners extra now joined e enabled v =
    let found = outcome cfg.discovery listeners extra in
    let live = candidate_origins found.candidates in
    let kept = drop_gone found.candidates e.cache in
    let good : IsGood live (absorb kept found.skipped (probes cfg listeners extra now joined e)).0 =
      absorb-IsGood live (probes cfg listeners extra now joined e) kept found.skipped
        (completed_of-live _ found.candidates joined)
        (drop_gone-IsGood found.candidates e.cache v) in
    let (e', result, cache, built) =
      rebuild_catalog_total apps (scanned cfg listeners extra now joined e) in
    (
      e',
      scan_once-scanned cfg apps listeners extra now joined e enabled ∙ result,
      subst (IsGood live) (sym cache) good,
      served-live apps live _ good built,
    )
