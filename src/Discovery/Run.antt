-- ===== src/Discovery/Run.antt =====
-- discovery/mod.rs: the loop of the engine. What each scan reads, and what ends each wait, are
-- arguments.
use raemote_server.Prelude.{
  ℕ, ◌≡◌, refl, sym, ◌∙◌, subst, ◌⊎◌, inl, inr, true, List, [], ◌∷◌, ◌++◌, map, nat_instance,
  list_instance, option_instance, Bool-cases, Option, none, some,
}
use raemote_server.HashSet
use raemote_server.Catalog.{CatalogApp}
use raemote_server.Catalog.Rebuild.{manual_origins}
use raemote_server.Config.Schema.{Config, AppConfig}
use raemote_server.Discovery.Ip.{SocketAddr}
use raemote_server.Discovery.Listener.{Listener}
use raemote_server.Discovery.Model.{Origin, origin_instance}
use raemote_server.Discovery.Engine.{Joined, Engine, candidate_origins, outcome, scan_once}
use raemote_server.Discovery.Caching.{IsCache, IsGood}
use raemote_server.Discovery.Exposure.{rebuild_catalog_total, scan_once-exposed}

-- What one scan reads: the configuration at its start, the listeners, the instant of the choice of
-- candidates to probe, the joined probes, and the configured apps at its end.
pub record Cycle : Type 0 where
  pub config : Config
  pub found : Option (List Listener × List SocketAddr)
  pub now : ℕ
  pub joined : List Joined
  pub apps : List AppConfig

-- the end of a wait: the shutdown, or the trigger or the timer, which both lead to a scan
pub data Wake : Type 0 where
  stopped : Wake
  woken : Cycle → Wake

abbrev pub scan_cycle : Cycle → Engine → Option Engine
scan_cycle c e = scan_once c.config c.apps c.found c.now c.joined e

-- The loop, as far as the waits are given.
unfoldable pub run_loop : Engine → List Wake → Option Engine
run_loop e [] = some e
run_loop e (stopped ∷ wakes) = some e
run_loop e (woken c ∷ wakes) = elim (scan_cycle c e) [ none ↦ none | some e' ↦ run_loop e' wakes ]

unfoldable pub run_engine : Engine → Cycle → List Wake → Option Engine
run_engine e first wakes = elim (scan_cycle first e) [ none ↦ none | some e' ↦ run_loop e' wakes ]

scan_once-IsCache :
    (cfg : Config) (apps : List AppConfig) (found : Option (List Listener × List SocketAddr))
    (now : ℕ) (joined : List Joined) (e : Engine)
    → IsCache e.cache
    → (e' : Engine) × (scan_once cfg apps found now joined e ≡ some e') × IsCache e'.cache
unfolding scan_once
scan_once-IsCache cfg apps found now joined e v = elim (Bool-cases cfg.discovery.enabled) [
  | inr off ↦
      let (e', built, cache, _) = rebuild_catalog_total apps (record e { cache = [] }) in
      (
        e',
        rw (off, scan_once) built,
        subst IsCache (sym cache) (record { distinct = tt; keyed = tt }),
      )
  | inl on ↦ go found on
]
  where
    go :
        (found : Option (List Listener × List SocketAddr))
        → cfg.discovery.enabled ≡ true
        → (e' : Engine) × (scan_once cfg apps found now joined e ≡ some e') × IsCache e'.cache
    go none on = (e, rw (on, scan_once) refl, v)
    go (some (listeners, extra)) on =
        let (e', result, good, _) = scan_once-exposed cfg apps listeners extra now joined e on v in
        (e', result, good.0)

scan_cycle-IsCache :
    (c : Cycle) (e : Engine)
    → IsCache e.cache
    → (e' : Engine) × (scan_cycle c e ≡ some e') × IsCache e'.cache
scan_cycle-IsCache c e v = scan_once-IsCache c.config c.apps c.found c.now c.joined e v

loop-cycles :
    (e : Engine) (cycles : List Cycle)
    → IsCache e.cache
    → (e' : Engine) × IsCache e'.cache
      × ((wakes : List Wake) → run_loop e (map woken cycles ++ wakes) ≡ run_loop e' wakes)
unfolding run_loop
loop-cycles e [] v = (e, v, λ wakes. refl)
loop-cycles e (c ∷ cycles) v =
    let (e', scanned, v') = scan_cycle-IsCache c e v in
    let (e'', v'', same) = loop-cycles e' cycles v' in
    (e'', v'', λ wakes. rw (scanned, run_loop) (same wakes))

-- the catalog has origins of the apps and of candidates only
abbrev pub IsExposing : List AppConfig → List Origin → Engine → Type 0
IsExposing apps live e =
    (o : Origin)
    → HashSet.contains (map (λ (a : CatalogApp). a.origin) e.catalog.apps) o ≡ true
    → (HashSet.contains (manual_origins apps) o ≡ true) ⊎ (HashSet.contains live o ≡ true)

-- The engine that starts with an empty cache, whatever scans it has made, under whatever
-- configurations, with discovery switched on and off and with enumerations that failed, always goes
-- on; and if it is shut down after a last scan that was enabled and found listeners, whatever was to
-- come, every origin in its catalog is that of an app configured at the end of that scan or of a
-- candidate of it, and its cache holds each origin once and candidates only.
pub run_engine-exposed :
    (e : Engine) (first : Cycle) (cycles : List Cycle) (cfg : Config) (listeners : List Listener)
    (extra : List SocketAddr) (now : ℕ) (joined : List Joined) (apps : List AppConfig)
    (rest : List Wake)
    → e.cache ≡ []
    → cfg.discovery.enabled ≡ true
    → (e' : Engine) × (run_engine e first (
          map woken cycles
          ++ woken (record {
            config = cfg;
            found = some (listeners, extra);
            now = now;
            joined = joined;
            apps = apps;
          })
            ∷ stopped
            ∷ rest)
        ≡ some e')
      × IsGood (candidate_origins (outcome cfg.discovery listeners extra).candidates) e'.cache
      × IsExposing apps (candidate_origins (outcome cfg.discovery listeners extra).candidates) e'
unfolding run_engine run_loop
run_engine-exposed e first cycles cfg listeners extra now joined apps rest bare on =
    let last : Cycle = record {
      config = cfg;
      found = some (listeners, extra);
      now = now;
      joined = joined;
      apps = apps;
    } in
    let start : IsCache e.cache = subst IsCache (sym bare) (record { distinct = tt; keyed = tt }) in
    let (e1, scanned, v1) = scan_cycle-IsCache first e start in
    let (e2, v2, same) = loop-cycles e1 cycles v1 in
    let (e3, result, good, exposed) =
      scan_once-exposed cfg apps listeners extra now joined e2 on v2 in
    (
      e3,
      rw (scanned, run_engine) (same (woken last ∷ stopped ∷ rest) ∙ rw (result, run_loop) refl),
      good,
      exposed,
    )
