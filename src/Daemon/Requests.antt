-- ===== src/Daemon/Requests.antt =====
-- daemon.rs: the well-formedness of the daemon's state, kept by each request of the control socket.
use raemote_server.Prelude.{
  ℕ, ◌+◌, ◌*◌, ◌≡◌, refl, ◌∙◌, subst, inl, inr, arith, Eq, nat_instance, list_instance,
  Option-cases, Option, none, some, unwrap_or, some-injective,
}
use mathlib.Core.Option
use raemote_server.Text.{Text}
use raemote_server.Config.Schema.{Config}
use raemote_server.Config.Env.{reload}
use raemote_server.Config.Validate.{validate}
use raemote_server.Config.Loading.{IsTyped, reload-limit}
use raemote_server.Auth.State.{NodeIds, AuthState, nanos_per_sec}
use raemote_server.Auth.Store.{Toml}
use raemote_server.Auth.Operations.{
  revoke_locked, set_max_attempts, set_device_name, mint_token_with, revoke,
}
use raemote_server.Auth.Invariant
use raemote_server.Ipc.Protocol.{
  Request, hello, get_status, get_token, refresh_token, reload_config, list_authorized,
  revoke_authorized, rename_authorized, list_apps, discover_now, discover_report, shutdown,
  Response,
}
use raemote_server.Daemon.State.{DaemonState, World}
use raemote_server.Daemon.Handle.{
  refresh_reply, reload_reply, revoke_reply, rename_reply, scan, handle, apply, wait, max_polls,
  discover_now_timeout,
}

-- The configuration in use is one that passes its check, and the pairing follows its bound.
pub record IsValid {Node : Type 0} ⦃e : Eq Node⦄ (d : DaemonState Node) : Type 0 where
  pub auth : Invariant.IsValid d.auth
  pub config : validate d.config ≡ none
  pub limit : d.auth.max_attempts ≡ d.config.bind.max_failed_attempts

module _ {Node : Type 0} ⦃e : Eq Node⦄ (nodes : NodeIds Node) (fmt_short : Node → Text)
    (toml : Toml) (from_str : Text → Option Config) where
  -- a request that is never answered has changed nothing yet
  abbrev pub kept : DaemonState Node → Option (DaemonState Node × Response) → DaemonState Node
  kept d none = d
  kept d (some (d', resp)) = d'

  -- a call that is no new bound keeps it, and leaves the rest of the daemon as it is
  pub with_auth :
      (d : DaemonState Node) (s : AuthState Node)
      → Invariant.IsValid s
      → s.max_attempts ≡ d.auth.max_attempts
      → IsValid d
      → IsValid (record d { auth = s })
  with_auth d s v same w = record { auth = v; config = w.config; limit = same ∙ w.limit }

  refresh-IsValid :
      (w : World) (d : DaemonState Node) (ttl_secs : Option ℕ)
      → IsValid d
      → IsValid (refresh_reply nodes fmt_short toml from_str w d ttl_secs).0
  unfolding refresh_reply mint_token_with
  refresh-IsValid w d ttl_secs v =
      let ttl = unwrap_or ttl_secs d.config.bind.token_ttl_secs * nanos_per_sec in
      with_auth d _
        (Invariant.mint_token_with-IsValid nodes d.auth w.now w.unix_now w.random ttl
          d.config.bind.token v.auth)
        refl v

  reload-IsValid :
      (w : World) (d : DaemonState Node)
      → IsTyped from_str
      → IsValid d
      → IsValid (reload_reply nodes fmt_short toml from_str w d).0
  unfolding reload_reply apply set_max_attempts
  reload-IsValid w d typed v = elim (Option-cases (reload from_str w.env w.config_file)) [
    | inl bad ↦ rw (bad, reload_reply) v
    | inr (cfg, good) ↦ elim (Option-cases (validate cfg)) [
      | inr (e, wrong) ↦ rw (good, wrong, reload_reply) v
      | inl right ↦
          rw (good, right, reload_reply)
            (record {
              auth =
                  Invariant.set_max_attempts-IsValid nodes d.auth cfg.bind.max_failed_attempts
                    (reload-limit from_str w.env w.config_file typed good) v.auth;
              config = right;
              limit = refl;
            })
    ]
  ]

  revoke-IsValid :
      (w : World) (d : DaemonState Node) (node_id : Text)
      → IsValid d
      → IsValid (revoke_reply nodes fmt_short toml from_str w d node_id).0
  unfolding revoke_reply revoke revoke_locked
  revoke-IsValid w d node_id v = elim (Option-cases (nodes.from_text node_id)) [
    | inl bad ↦ rw (bad, revoke_reply) v
    | inr (id, good) ↦
        rw (good, revoke_reply)
          (with_auth d _ (Invariant.revoke-IsValid nodes toml d.auth w.disk w.names_disk id v.auth)
            (ground arith) v)
  ]

  rename-IsValid :
      (w : World) (d : DaemonState Node) (node_id name : Text)
      → IsValid d
      → IsValid (rename_reply nodes fmt_short toml from_str w d node_id name).0
  unfolding rename_reply set_device_name
  rename-IsValid w d node_id name v = elim (Option-cases (nodes.from_text node_id)) [
    | inl bad ↦ rw (bad, rename_reply) v
    | inr (id, good) ↦
        rw (good, rename_reply)
          (with_auth d _
            (Invariant.set_device_name-IsValid nodes toml d.auth w.names_disk id name v.auth)
            (ground arith) v)
  ]

  scanned-IsValid :
      (d : DaemonState Node) (polled : Option (DaemonState Node))
      (reply : DaemonState Node → Response)
      → IsValid d
      → ((d' : DaemonState Node) → polled ≡ some d' → IsValid d')
      → IsValid (kept d (Option.map (λ (d' : DaemonState Node). (d', reply d')) polled))
  scanned-IsValid d none reply v w = v
  scanned-IsValid d (some d') reply v w = w d' refl

  scan-IsValid :
      (w : World) (d d' : DaemonState Node)
      → IsValid d
      → scan nodes fmt_short toml from_str w d ≡ some d'
      → IsValid d'
  unfolding scan
  scan-IsValid w d d' v h =
      elim (Option-cases
        (wait max_polls d.engine.catalog_generation (w.now + discover_now_timeout) w.polls 0)) [
          | inl late ↦ ground (arith, late)
          | inr (p, found) ↦
              subst IsValid
                (some-injective {a = record d { engine = p.engine; discovery_trigger = p.trigger }}
                  {b = d'} (ground (arith, found)))
                (record { auth = v.auth; config = v.config; limit = v.limit })
        ]

  pub handle-IsValid :
      (w : World) (d : DaemonState Node) (req : Request)
      → IsTyped from_str
      → IsValid d
      → IsValid (kept d (handle nodes fmt_short toml from_str w d req))
  unfolding handle
  handle-IsValid w d (hello token) typed v = v
  handle-IsValid w d get_status typed v = v
  handle-IsValid w d get_token typed v = v
  handle-IsValid w d (refresh_token ttl_secs) typed v = refresh-IsValid w d ttl_secs v
  handle-IsValid w d reload_config typed v = reload-IsValid w d typed v
  handle-IsValid w d list_authorized typed v = v
  handle-IsValid w d (revoke_authorized node_id) typed v = revoke-IsValid w d node_id v
  handle-IsValid w d (rename_authorized node_id name) typed v = rename-IsValid w d node_id name v
  handle-IsValid w d list_apps typed v = v
  handle-IsValid w d discover_report typed v =
      scanned-IsValid d _ _ v (λ d' h. scan-IsValid w d d' v h)
  handle-IsValid w d discover_now typed v =
      scanned-IsValid d _ _ v (λ d' h. scan-IsValid w d d' v h)
  handle-IsValid w d shutdown typed v = record { auth = v.auth; config = v.config; limit = v.limit }
