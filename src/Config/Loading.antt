-- ===== src/Config/Loading.antt =====
-- config.rs: the bound on failed attempts fits its type after loading, overrides included.
use raemote_server.Prelude.{
  ℕ, ◌≤◌, ◌≡◌, subst, inl, inr, arith, nat_instance, list_instance, Option-cases, Option, none,
  some, some-injective,
}
use raemote_server.Text.{Text}
use raemote_server.Text.Decimal.{parse_uint, parse_uint-le}
use raemote_server.Config.Schema.{Config}
use raemote_server.Config.Env.{Env, override_from_env, override_bind, env_override, load, reload}
use raemote_server.Auth.State.{max_u32}

-- the type `u32` of the field, which the reader of the file respects
abbrev pub IsTyped : (Text → Option Config) → Type 0
IsTyped from_str =
    (s : Text) (c : Config) → from_str s ≡ some c → c.bind.max_failed_attempts ≤ max_u32

override-le :
    (bound : ℕ) (env : Env) (key : Text) (val : ℕ)
    → val ≤ bound
    → override_from_env (parse_uint bound) env key val ≤ bound
unfolding override_from_env
override-le bound env key val h = elim (Option-cases (env key)) [
  | inl unset ↦ ground (arith, unset)
  | inr (t, set) ↦ elim (Option-cases (parse_uint bound t)) [
    | inl bad ↦ ground (arith, set, bad)
    | inr (n, good) ↦ ground (arith, set, good, parse_uint-le bound t good)
  ]
]

env_override-limit :
    (env : Env) (c : Config)
    → c.bind.max_failed_attempts ≤ max_u32
    → (env_override env c).bind.max_failed_attempts ≤ max_u32
unfolding env_override override_bind
env_override-limit env c h = override-le max_u32 env _ c.bind.max_failed_attempts h

pub load-limit :
    (from_str : Text → Option Config) (env : Env) (file : Option (Option Text)) {c : Config}
    → IsTyped from_str
    → load from_str env file ≡ some c
    → c.bind.max_failed_attempts ≤ max_u32
unfolding load
load-limit from_str env none {c} h e =
    subst (λ (x : Config). x.bind.max_failed_attempts ≤ max_u32) (some-injective e) (omega arith)
load-limit from_str env (some none) h e = cc
load-limit from_str env (some (some s)) {c} h e = elim (Option-cases (from_str s)) [
  | inl bad ↦ ground (arith, bad)
  | inr (c', good) ↦
      subst (λ (x : Config). x.bind.max_failed_attempts ≤ max_u32)
        (some-injective {a = env_override env c'} {b = c} (ground (arith, good)))
        (env_override-limit env c' (h s c' good))
]

pub reload-limit :
    (from_str : Text → Option Config) (env : Env) (file : Option (Option Text)) {c : Config}
    → IsTyped from_str
    → reload from_str env file ≡ some c
    → c.bind.max_failed_attempts ≤ max_u32
unfolding reload
reload-limit from_str env file {c} h e = elim (Option-cases (load from_str env file)) [
  | inl bad ↦ ground (arith, bad)
  | inr (c', good) ↦
      subst (λ (x : Config). x.bind.max_failed_attempts ≤ max_u32)
        (some-injective {a = record c' { key_path = none }} {b = c} (ground (arith, good)))
        (load-limit from_str env file h good)
]
