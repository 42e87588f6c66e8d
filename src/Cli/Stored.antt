-- ===== src/Cli/Stored.antt =====
-- bin/raemote.rs: what `config get` prints after `config set`.
use raemote_server.Prelude.{
  ℕ, ◌≡◌, refl, sym, ap, ◌∙◌, subst, inl, inr, Bool, true, false, [], ◌∷◌, arith, nat_instance,
  list_instance, option_instance, Bool-cases, Option-cases, Option, none, some, unwrap_or, is_empty,
  some-injective,
}
use mathlib.Core.Option
use raemote_server.HashMap
use raemote_server.Text.{Text, trim}
use raemote_server.Text.Decimal.{decimal, parse_uint, parse_uint-le, parse_uint-decimal}
use raemote_server.Auth.State.{max_u32, max_u64}
use raemote_server.Config.Schema.{Config}
use raemote_server.Config.Env.{Env, env_override, load, parse_bool}
use raemote_server.Config.Validate.{validate}
use raemote_server.Cli.Settings.{
  Key, server_name, token_ttl, failed_attempts, bind_connections, allow_invites, invite_ttl,
  pending_invites, streams, refill, interval, burst, proxy, relay_url, loopback_only,
  include_unattributed, keys, set_number, set_flag, set_value, show_bool, get_value, stored, assign,
  config_set, config_get, not_blank, filled, with_bind, with_serve, with_rate_limit, with_discovery,
  with_network,
}

-- a stored number is printed so that it is read back
number_again :
    (bound : ℕ) (put : Config → ℕ → Config) (get : Config → ℕ) (c : Config) (v : Text) {c' : Config}
    → ((n : ℕ) → get (put c n) ≡ n)
    → ((n : ℕ) → put (put c n) n ≡ put c n)
    → set_number bound (put c) v ≡ some c'
    → set_number bound (put c') (decimal (get c')) ≡ some c'
number_again bound put get c v {c'} same twice h = elim (Option-cases (parse_uint bound v)) [
  | inl bad ↦ cc (h, ap (Option.map (put c)) bad)
  | inr (n, good) ↦
      let made : put c n ≡ c' = some-injective (ap (Option.map (put c)) (sym good) ∙ h) in
      subst (λ (x : Config). set_number bound (put x) (decimal (get x)) ≡ some x) made
        (rw (same n, parse_uint-decimal bound n (parse_uint-le bound v good)) (ap some (twice n)))
]

parse_bool-show_bool : (b : Bool) → parse_bool (show_bool b) ≡ some b
unfolding parse_bool
parse_bool-show_bool true = refl
parse_bool-show_bool false = refl

flag_again :
    (put : Config → Bool → Config) (get : Config → Bool) (c : Config) (v : Text) {c' : Config}
    → ((b : Bool) → get (put c b) ≡ b)
    → ((b : Bool) → put (put c b) b ≡ put c b)
    → set_flag (put c) v ≡ some c'
    → set_flag (put c') (show_bool (get c')) ≡ some c'
flag_again put get c v {c'} same twice h = elim (Option-cases (parse_bool v)) [
  | inl bad ↦ cc (h, ap (Option.map (put c)) bad)
  | inr (b, good) ↦
      let made : put c b ≡ c' = some-injective (ap (Option.map (put c)) (sym good) ∙ h) in
      subst (λ (x : Config). set_flag (put x) (show_bool (get x)) ≡ some x) made
        (rw (same b, parse_bool-show_bool b) (ap some (twice b)))
]

trim_nil : trim [] ≡ []
unfolding trim
trim_nil = refl

not_blank_again : (v : Text) → not_blank (unwrap_or (not_blank v) []) ≡ not_blank v
not_blank_again v = elim (Bool-cases (is_empty (trim v))) [
  | inl blank ↦ rw (blank, trim_nil) refl
  | inr text ↦ rw (text, text) refl
]

filled_again : (v : Text) → filled (unwrap_or (filled v) []) ≡ filled v
filled_again [] = refl
filled_again (c ∷ v) = refl

-- setting what is printed changes nothing
set_value-get_value :
    (k : Key) (c : Config) (v : Text) {c' : Config}
    → set_value k c v ≡ some c'
    → set_value k c' (get_value k c') ≡ some c'
unfolding set_value get_value
set_value-get_value server_name c v h =
    subst (λ (x : Config). some (record x { name = not_blank (unwrap_or x.name []) }) ≡ some x)
      (some-injective h)
      (ap (λ (t : Option Text). some (record c { name = t })) (not_blank_again v))
set_value-get_value proxy c v h =
    subst
      (λ (x : Config).
        some (with_network x (record (x.network) { proxy = filled (unwrap_or x.network.proxy []) }))
        ≡ some x)
      (some-injective h)
      (ap (λ (t : Option Text). some (with_network c (record (c.network) { proxy = t })))
        (filled_again v))
set_value-get_value relay_url c v h =
    subst
      (λ (x : Config).
        some (
          with_network x
            (record (x.network) { relay_url = filled (unwrap_or x.network.relay_url []) }))
        ≡ some x)
      (some-injective h)
      (ap (λ (t : Option Text). some (with_network c (record (c.network) { relay_url = t })))
        (filled_again v))
set_value-get_value token_ttl c v h =
    number_again max_u64 (λ c n. with_bind c (record (c.bind) { token_ttl_secs = n }))
      (λ c. c.bind.token_ttl_secs) c v (λ n. refl) (λ n. refl) h
set_value-get_value failed_attempts c v h =
    number_again max_u32 (λ c n. with_bind c (record (c.bind) { max_failed_attempts = n }))
      (λ c. c.bind.max_failed_attempts) c v (λ n. refl) (λ n. refl) h
set_value-get_value bind_connections c v h =
    number_again max_u64 (λ c n. with_bind c (record (c.bind) { max_concurrent_connections = n }))
      (λ c. c.bind.max_concurrent_connections) c v (λ n. refl) (λ n. refl) h
set_value-get_value invite_ttl c v h =
    number_again max_u64 (λ c n. with_bind c (record (c.bind) { invite_ttl_secs = n }))
      (λ c. c.bind.invite_ttl_secs) c v (λ n. refl) (λ n. refl) h
set_value-get_value pending_invites c v h =
    number_again max_u64 (λ c n. with_bind c (record (c.bind) { max_pending_invites = n }))
      (λ c. c.bind.max_pending_invites) c v (λ n. refl) (λ n. refl) h
set_value-get_value streams c v h =
    number_again max_u64 (λ c n. with_serve c (record (c.serve) { max_concurrent_streams = n }))
      (λ c. c.serve.max_concurrent_streams) c v (λ n. refl) (λ n. refl) h
set_value-get_value refill c v h =
    number_again max_u64 (λ c n. with_rate_limit c (record (c.serve.rate_limit) { refill = n }))
      (λ c. c.serve.rate_limit.refill) c v (λ n. refl) (λ n. refl) h
set_value-get_value interval c v h =
    number_again max_u64
      (λ c n. with_rate_limit c (record (c.serve.rate_limit) { interval_ms = n }))
      (λ c. c.serve.rate_limit.interval_ms) c v (λ n. refl) (λ n. refl) h
set_value-get_value burst c v h =
    number_again max_u64 (λ c n. with_rate_limit c (record (c.serve.rate_limit) { max = n }))
      (λ c. c.serve.rate_limit.max) c v (λ n. refl) (λ n. refl) h
set_value-get_value allow_invites c v h =
    flag_again (λ c b. with_bind c (record (c.bind) { allow_invites = b }))
      (λ c. c.bind.allow_invites) c v (λ b. refl) (λ b. refl) h
set_value-get_value loopback_only c v h =
    flag_again (λ c b. with_discovery c (record (c.discovery) { loopback_only = b }))
      (λ c. c.discovery.loopback_only) c v (λ b. refl) (λ b. refl) h
set_value-get_value include_unattributed c v h =
    flag_again (λ c b. with_discovery c (record (c.discovery) { include_unattributed = b }))
      (λ c. c.discovery.include_unattributed) c v (λ b. refl) (λ b. refl) h

assign_again :
    (c : Config) (key value shown : Text) {c' : Config}
    → assign c key value ≡ stored c'
    → Option.map (λ k. get_value k c') (HashMap.get keys key) ≡ some shown
    → assign c' key shown ≡ stored c'
unfolding assign
assign_again c key value shown {c'} h g = elim (Option-cases (HashMap.get keys key)) [
  | inl missing ↦ ground (arith, missing)
  | inr (k, known) ↦ elim (Option-cases (set_value k c value)) [
    | inl bad ↦ ground (arith, known, bad)
    | inr (made, good) ↦ elim (Option-cases (validate made)) [
      | inr (message, wrong) ↦ ground (arith, known, good, wrong)
      | inl right ↦
          let same : made ≡ c' = ground (arith, known, good, right) in
          let printed : get_value k c' ≡ shown = ground (arith, known) in
          let again =
            set_value-get_value k c value {c' = c'}
              (subst (λ (x : Config). set_value k c value ≡ some x) same good) in
          let stable : set_value k c' shown ≡ some c' =
            subst (λ (t : Text). set_value k c' t ≡ some c') printed again in
          let checked = subst (λ (x : Config). validate x ≡ none) same right in
          rw (known, stable, assign, checked) refl
    ]
  ]
]

-- a saved configuration that the environment does not override is loaded as it is
load-saved :
    (from_str : Text → Option Config) (env : Env) (saved : Text) {c : Config}
    → from_str saved ≡ some c
    → env_override env c ≡ c
    → load from_str env (some (some saved)) ≡ some c
unfolding load
load-saved from_str env saved parsed kept = rw (load, parsed, kept) refl

-- After a `config set` that succeeded, whatever the file and the environment that it loaded and the text
-- that was set: if the configuration that it stores is saved as a text that parses to it, and the
-- environment overrides none of its settings with another value, then what `config get` prints of the
-- key can be set again, and this stores the same configuration.
pub config_set-config_get :
    (from_str : Text → Option Config) (env : Env) (file : Option (Option Text))
    (saved key value shown : Text) {c : Config}
    → config_set from_str env file key value ≡ stored c
    → from_str saved ≡ some c
    → env_override env c ≡ c
    → config_get from_str env (some (some saved)) key ≡ some shown
    → config_set from_str env (some (some saved)) key shown ≡ stored c
unfolding config_set config_get
config_set-config_get from_str env file saved key value shown {c} h parsed kept g =
    let loaded : load from_str env (some (some saved)) ≡ some c =
      load-saved from_str env saved parsed kept in
    elim (Option-cases (load from_str env file)) [
      | inl bad ↦ ground (arith, bad)
      | inr (c0, good) ↦
          rw (loaded, config_set)
            (assign_again c0 key value shown (rw (good, config_set) at h)
              (rw (loaded, config_get) at g))
    ]
