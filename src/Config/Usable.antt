-- ===== src/Config/Usable.antt =====
-- config.rs: what a configuration that passes the check guarantees.
use raemote_server.Prelude.{
  ℕ, ◌<◌, ◌≡◌, refl, sym, ◌∙◌, ◌↔◌, Bool, true, false, not, ◌&&◌, List, [], ◌∷◌, ◌++◌, map, arith,
  nat_instance, list_instance, eq_iff, ◌≤◌, subst, some-injective, Option, none, some, is_empty,
  nat_eq, All,
}
use raemote_server.HashSet
use raemote_server.Config.Schema.{Config, AppConfig}
use raemote_server.Config.Validate.{report, short_token, app_errors, errors, validate}
use raemote_server.Text.{Text, trim}
use raemote_server.Text.Utf8

-- The ports are nonzero and the names differ from one another.
pub record IsServable (apps : List AppConfig) : Type 0 where
  pub ports : All (λ (a : AppConfig). 0 < a.port) apps
  pub distinct : HashSet.IsUnique (map (λ a. a.name) apps)

is_empty-append : {A : Type 0} (xs ys : List A) → is_empty (xs ++ ys) ≡ (is_empty xs && is_empty ys)
is_empty-append [] ys = refl
is_empty-append (x ∷ xs) ys = refl

is_empty-report : (b : Bool) (t : Text) → is_empty (report b t) ≡ not b
unfolding report
is_empty-report true t = refl
is_empty-report false t = refl

-- every later name is none of `names`
abbrev Fresh : List Text → List AppConfig → Type 0
Fresh names = All (λ (a : AppConfig). HashSet.contains names a.name ≡ false)

Fresh-insert :
    (names : List Text) (t : Text) (apps : List AppConfig)
    → Fresh (HashSet.insert names t) apps
    → Fresh names apps × (HashSet.contains (map (λ a. a.name) apps) t ≡ false)
unfolding HashSet.contains
Fresh-insert names t [] h = (tt, refl)
Fresh-insert names t (a ∷ apps) h =
    let rest = Fresh-insert names t apps h.1 in
    let now = h.0 in
    let inserted = HashSet.contains-insert names t a.name in
    ((ground arith, rest.0), ground (arith, rest.1, eq_iff t a.name, eq_iff a.name t))

Fresh-insert_back :
    (names : List Text) (t : Text) (apps : List AppConfig)
    → Fresh names apps
    → HashSet.contains (map (λ a. a.name) apps) t ≡ false
    → Fresh (HashSet.insert names t) apps
unfolding HashSet.contains
Fresh-insert_back names t [] h n = tt
Fresh-insert_back names t (a ∷ apps) h n =
    let now = h.0 in
    (
      ground (arith, HashSet.contains-insert names t a.name, eq_iff t a.name, eq_iff a.name t),
      Fresh-insert_back names t apps h.1 (ground arith),
    )

is_empty-app_errors :
    (names : List Text) (a : AppConfig) (apps : List AppConfig)
    → is_empty (app_errors names (a ∷ apps)) ≡ (
        not (HashSet.contains names a.name)
        && not (nat_eq a.port 0)
        && is_empty (app_errors (HashSet.insert names a.name) apps))
unfolding app_errors
is_empty-app_errors names a apps = simp (is_empty-append, is_empty-report)

app_errors-IsServable :
    (names : List Text) (apps : List AppConfig)
    → is_empty (app_errors names apps) ≡ true
    → IsServable apps × Fresh names apps
app_errors-IsServable names [] h = (record { ports = tt; distinct = tt }, tt)
app_errors-IsServable names (a ∷ apps) h =
    let step = sym (is_empty-app_errors names a apps) ∙ h in
    let rest = app_errors-IsServable (HashSet.insert names a.name) apps (ground (arith, step)) in
    let fresh = Fresh-insert names a.name apps rest.1 in
    (
      record {
        ports = (ground (arith, step), rest.0.ports);
        distinct = (fresh.1, rest.0.distinct);
      },
      (ground (arith, step), fresh.0),
    )

app_errors-empty :
    (names : List Text) (apps : List AppConfig)
    → IsServable apps
    → Fresh names apps
    → is_empty (app_errors names apps) ≡ true
unfolding app_errors
app_errors-empty names [] v f = refl
app_errors-empty names (a ∷ apps) v f =
    let rest =
      app_errors-empty (HashSet.insert names a.name) apps
        (record { ports = v.ports.1; distinct = v.distinct.1 })
        (Fresh-insert_back names a.name apps f.1 v.distinct.0) in
    let port = v.ports.0 in
    let fresh = f.0 in is_empty-app_errors names a apps ∙ ground (arith, rest, port, fresh)

-- The bounds are positive, and a fixed token has at least 16 bytes around which blanks do not count.
pub record IsBounded (c : Config) : Type 0 where
  pub token_ttl_secs : 0 < c.bind.token_ttl_secs
  pub token : (t : Text) → c.bind.token ≡ some t → 16 ≤ Utf8.len (trim t)
  pub max_failed_attempts : 0 < c.bind.max_failed_attempts
  pub bind_connections : 0 < c.bind.max_concurrent_connections
  pub invite_ttl_secs : 0 < c.bind.invite_ttl_secs
  pub max_pending_invites : 0 < c.bind.max_pending_invites
  pub max_concurrent_streams : 0 < c.serve.max_concurrent_streams
  pub refill : 0 < c.serve.rate_limit.refill
  pub interval_ms : 0 < c.serve.rate_limit.interval_ms
  pub burst : 0 < c.serve.rate_limit.max
  pub interval_secs : 0 < c.discovery.interval_secs
  pub recheck_secs : 0 < c.discovery.recheck_secs
  pub probe_timeout_ms : 0 < c.discovery.probe_timeout_ms
  pub max_concurrent_probes : 0 < c.discovery.max_concurrent_probes

positive : ℕ → Bool
positive n = not (nat_eq n 0)

abbrev bounds : Config → Bool
bounds c =
    positive c.bind.token_ttl_secs
    && (not (short_token c.bind.token)
        && (positive c.bind.max_failed_attempts
            && (positive c.bind.max_concurrent_connections
                && (positive c.bind.invite_ttl_secs
                    && (positive c.bind.max_pending_invites
                        && (positive c.serve.max_concurrent_streams
                            && (positive c.serve.rate_limit.refill
                                && (positive c.serve.rate_limit.interval_ms
                                    && (positive c.serve.rate_limit.max
                                        && (positive c.discovery.interval_secs
                                            && (positive c.discovery.recheck_secs
                                                && (positive c.discovery.probe_timeout_ms
                                                    && positive
                                                        c.discovery.max_concurrent_probes))))))))))))

and_assoc : (a b c : Bool) → (a && (b && c)) ≡ ((a && b) && c)
and_assoc true b c = refl
and_assoc false b c = refl

is_empty-errors : (c : Config) → is_empty (errors c) ≡ (bounds c && is_empty (app_errors [] c.apps))
unfolding errors positive
is_empty-errors c = simp (is_empty-append, is_empty-report, ← and_assoc)

positive_lem : (n : ℕ) → positive n ≡ true → 0 < n
unfolding positive
positive_lem n h = ground arith

lem_positive : (n : ℕ) → 0 < n → positive n ≡ true
unfolding positive
lem_positive n h = ground arith

long_token :
    (token : Option Text)
    → short_token token ≡ false
    → (t : Text) → token ≡ some t
    → 16 ≤ Utf8.len (trim t)
unfolding short_token
long_token none h t e = cc
long_token (some s) h t e = subst (λ x. 16 ≤ Utf8.len (trim x)) (some-injective e) (ground arith)

not_short :
    (token : Option Text)
    → ((t : Text) → token ≡ some t → 16 ≤ Utf8.len (trim t))
    → short_token token ≡ false
unfolding short_token
not_short none h = refl
not_short (some t) h = let long = h t refl in ground arith

bounds-IsBounded : (c : Config) → bounds c ≡ true → IsBounded c
bounds-IsBounded c h = record {
  token_ttl_secs = positive_lem _ (ground arith);
  token = long_token c.bind.token (ground arith);
  max_failed_attempts = positive_lem _ (ground arith);
  bind_connections = positive_lem _ (ground arith);
  invite_ttl_secs = positive_lem _ (ground arith);
  max_pending_invites = positive_lem _ (ground arith);
  max_concurrent_streams = positive_lem _ (ground arith);
  refill = positive_lem _ (ground arith);
  interval_ms = positive_lem _ (ground arith);
  burst = positive_lem _ (ground arith);
  interval_secs = positive_lem _ (ground arith);
  recheck_secs = positive_lem _ (ground arith);
  probe_timeout_ms = positive_lem _ (ground arith);
  max_concurrent_probes = positive_lem _ (ground arith);
}

IsBounded-bounds : (c : Config) → IsBounded c → bounds c ≡ true
IsBounded-bounds c v =
    rw
      (
        lem_positive _ v.token_ttl_secs,
        not_short c.bind.token v.token,
        lem_positive _ v.max_failed_attempts,
        lem_positive _ v.bind_connections,
        lem_positive _ v.invite_ttl_secs,
        lem_positive _ v.max_pending_invites,
        lem_positive _ v.max_concurrent_streams,
        lem_positive _ v.refill,
        lem_positive _ v.interval_ms,
        lem_positive _ v.burst,
        lem_positive _ v.interval_secs,
        lem_positive _ v.recheck_secs,
        lem_positive _ v.probe_timeout_ms,
        lem_positive _ v.max_concurrent_probes,
      )
      refl

validate-errors : (c : Config) → (validate c ≡ none) ↔ (is_empty (errors c) ≡ true)
unfolding validate
validate-errors c = go (errors c) refl
  where
    go : (es : List Text) → errors c ≡ es → (validate c ≡ none) ↔ (is_empty (errors c) ≡ true)
    go [] h = rw (h, validate) (λ k. refl, λ k. refl)
    go (e ∷ es) h = rw (h, validate) (λ k. ground arith, λ k. ground arith)

all-Fresh : (apps : List AppConfig) → Fresh [] apps
unfolding HashSet.contains
all-Fresh [] = tt
all-Fresh (a ∷ apps) = (refl, all-Fresh apps)

-- The check of a configuration succeeds exactly if its bounds are positive, its fixed token, if there
-- is one, has at least 16 bytes once trimmed, the ports of its apps are nonzero, and the names of its
-- apps differ from one another.
pub validate_iff : (c : Config) → (validate c ≡ none) ↔ (IsBounded c × IsServable c.apps)
validate_iff c = (
  λ h.
      let whole = sym (is_empty-errors c) ∙ (validate-errors c).0 h in
      (
        bounds-IsBounded c (ground (arith, whole)),
        (app_errors-IsServable [] c.apps (ground (arith, whole))).0,
      ),
  λ v.
      let bounded = IsBounded-bounds c v.0 in
      let apps = app_errors-empty [] c.apps v.1 (all-Fresh c.apps) in
      (validate-errors c).1 (is_empty-errors c ∙ rw (bounded, apps) refl),
)
