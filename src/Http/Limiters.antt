-- ===== src/Http/Limiters.antt =====
-- http.rs: the limiters of the devices, which a reload of the configuration (daemon.rs) makes stale. A
-- limiter is the settings that it is built from; the semaphore and the bucket are libraries.
use raemote_server.Prelude.{
  ℕ, ◌+◌, ◌%◌, ◌^◌, ◌≤◌, ◌<◌, ◌≡◌, refl, ap, ◌∙◌, subst, inl, inr, List, [], ◌∷◌, arith, Eq, ◌==◌,
  nat_instance, list_instance, if◌then◌else◌, Bool-cases, Option-cases, length, none, some, nat_eq,
  All,
}
use raemote_server.HashMap
use raemote_server.Config.Schema.{ServeConfig}

pub record NodeLimiter : Type 0 where
  pub max_concurrent : ℕ
  pub refill : ℕ
  pub interval_ms : ℕ
  pub max : ℕ

abbrev pub limiter_of : ServeConfig → NodeLimiter
limiter_of serve = record {
  max_concurrent = serve.max_concurrent_streams;
  refill = serve.rate_limit.refill;
  interval_ms = serve.rate_limit.interval_ms;
  max = serve.rate_limit.max;
}

-- the handler's part of the state, and what it shares with the daemon; both generations are `u64`
pub record Limiters (Node : Type 0) : Type 0 where
  pub limiters : List (Node × NodeLimiter)
  pub limiter_generation : ℕ
  pub config_generation : ℕ
  pub serve : ServeConfig

-- the daemon stores a new configuration, or a device connects
pub data Arrival (Node : Type 0) : Type 0 where
  reloaded : ServeConfig → Arrival Node
  connected : Node → Arrival Node

module _ {Node : Type 0} ⦃e : Eq Node⦄ where
  unfoldable pub refresh : Limiters Node → Limiters Node
  refresh h =
      if nat_eq h.config_generation h.limiter_generation
      then h
      else record h { limiters = []; limiter_generation = h.config_generation }

  unfoldable pub entry : Limiters Node → Node → Limiters Node × NodeLimiter
  entry h node = elim (HashMap.get h.limiters node) [
    | some limiter ↦ (h, limiter)
    | none ↦ (
      record h { limiters = HashMap.insert h.limiters node (limiter_of h.serve) },
      limiter_of h.serve,
    )
  ]

  unfoldable pub get_or_create_limiter : Limiters Node → Node → Limiters Node × NodeLimiter
  get_or_create_limiter h node = entry (refresh h) node

  unfoldable pub reload : Limiters Node → ServeConfig → Limiters Node
  reload h serve = record h {
    serve = serve;
    config_generation = (h.config_generation + 1) % 2 ^ 64;
  }

  unfoldable pub run : Limiters Node → List (Arrival Node) → Limiters Node
  run h [] = h
  run h (reloaded serve ∷ rest) = run (reload h serve) rest
  run h (connected node ∷ rest) = run (get_or_create_limiter h node).0 rest

  -- Where the generations agree, every limiter has the settings of the configuration.
  pub record IsCurrent (h : Limiters Node) : Type 0 where
    pub behind : h.limiter_generation ≤ h.config_generation
    pub current :
        h.limiter_generation ≡ h.config_generation
        → All (λ (p : Node × NodeLimiter). p.1 ≡ limiter_of h.serve) h.limiters

  Limited : Limiters Node → Type 0
  Limited h = All (λ (p : Node × NodeLimiter). p.1 ≡ limiter_of h.serve) h.limiters

  refresh-current :
      (h : Limiters Node)
      → IsCurrent h
      → Limited (refresh h)
        × ((refresh h).limiter_generation ≡ (refresh h).config_generation)
        × ((refresh h).serve ≡ h.serve)
        × ((refresh h).config_generation ≡ h.config_generation)
  unfolding refresh Limited
  refresh-current h v = elim (Bool-cases (nat_eq h.config_generation h.limiter_generation)) [
    | inl same ↦ rw (same, refresh) (v.current (ground arith), ground arith, refl, refl)
    | inr stale ↦ rw (stale, refresh) (tt, refl, refl, refl)
  ]

  get-All :
      (P : NodeLimiter → Type 0) (m : List (Node × NodeLimiter)) (node : Node) (l : NodeLimiter)
      → All (λ (p : Node × NodeLimiter). P p.1) m
      → HashMap.get m node ≡ some l
      → P l
  unfolding HashMap.get
  get-All P [] node l a h = ground arith
  get-All P ((k, v) ∷ m) node l a h = elim (Bool-cases (k == node)) [
    | inl same ↦ subst P (ground arith) a.0
    | inr other ↦ get-All P m node l a.1 (ground arith)
  ]

  remove-All :
      (P : NodeLimiter → Type 0) (m : List (Node × NodeLimiter)) (node : Node)
      → All (λ (p : Node × NodeLimiter). P p.1) m
      → All (λ (p : Node × NodeLimiter). P p.1) (HashMap.remove m node)
  unfolding HashMap.remove
  remove-All P [] node a = tt
  remove-All P ((k, v) ∷ m) node a = elim (Bool-cases (k == node)) [
    | inl same ↦ rw same (remove-All P m node a.1)
    | inr other ↦ rw other (a.0, remove-All P m node a.1)
  ]

  entry-current :
      (h : Limiters Node) (node : Node)
      → Limited h
      → Limited (entry h node).0
        × ((entry h node).1 ≡ limiter_of h.serve)
        × ((entry h node).0.limiter_generation ≡ h.limiter_generation)
        × ((entry h node).0.config_generation ≡ h.config_generation)
        × ((entry h node).0.serve ≡ h.serve)
  unfolding entry Limited HashMap.insert
  entry-current h node a = elim (Option-cases (HashMap.get h.limiters node)) [
    | inl missing ↦
        rw (missing, entry)
          (
            (refl, remove-All (λ l. l ≡ limiter_of h.serve) h.limiters node a),
            refl,
            refl,
            refl,
            refl,
          )
    | inr (l, present) ↦
        rw (present, entry)
          (a, get-All (λ x. x ≡ limiter_of h.serve) h.limiters node l a present, refl, refl, refl)
  ]

  get_or_create-IsCurrent :
      (h : Limiters Node) (node : Node)
      → IsCurrent h
      → IsCurrent (get_or_create_limiter h node).0
        × ((get_or_create_limiter h node).1 ≡ limiter_of h.serve)
        × ((get_or_create_limiter h node).0.config_generation ≡ h.config_generation)
        × ((get_or_create_limiter h node).0.serve ≡ h.serve)
  unfolding get_or_create_limiter Limited
  get_or_create-IsCurrent h node v =
      let (limited, level, serve, generation) = refresh-current h v in
      let (limited', given, level', generation', serve') = entry-current (refresh h) node limited in
      (
        record { behind = omega (arith, level, level', generation'); current = λ _. limited' },
        given ∙ ap limiter_of serve,
        generation' ∙ generation,
        serve' ∙ serve,
      )

  run-IsCurrent :
      (h : Limiters Node) (arrivals : List (Arrival Node))
      → h.config_generation + length arrivals < 2 ^ 64
      → IsCurrent h
      → IsCurrent (run h arrivals)
  unfolding run reload
  run-IsCurrent h [] l v = v
  run-IsCurrent h (reloaded serve ∷ rest) l v =
      run-IsCurrent (reload h serve) rest (ground arith) (record {
        behind = omega (arith, v.behind);
        current = λ same. absurd (omega (arith, same, v.behind));
      })
  run-IsCurrent h (connected node ∷ rest) l v =
      let (v', _, generation, _) = get_or_create-IsCurrent h node v in
      run-IsCurrent (get_or_create_limiter h node).0 rest (omega (arith, generation)) v'

  -- From a state without limiters whose generations agree, along any reloads and connections, fewer
  -- than would wrap the generation around, a connection gets a limiter with the settings of the
  -- configuration that was loaded last.
  pub get_or_create_limiter-current :
      (h : Limiters Node) (arrivals : List (Arrival Node)) (node : Node)
      → h.limiters ≡ []
      → h.limiter_generation ≡ h.config_generation
      → h.config_generation + length arrivals < 2 ^ 64
      → (get_or_create_limiter (run h arrivals) node).1 ≡ limiter_of (run h arrivals).serve
  get_or_create_limiter-current h arrivals node none_yet level l =
      (get_or_create-IsCurrent (run h arrivals) node (
        run-IsCurrent h arrivals l
          (record { behind = omega (arith, level); current = λ _. rw none_yet tt }))).1
