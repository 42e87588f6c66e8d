-- ===== src/Daemon/Invariant.antt =====
-- daemon.rs: what holds of the daemon's state from its start on, along the requests of the control
-- socket and what the protocol handlers and the discovery engine do meanwhile.
use raemote_server.Prelude.{
  ◌*◌, ◌≤◌, ◌≡◌, refl, subst, inl, inr, List, [], ◌∷◌, arith, Eq, nat_instance, list_instance,
  Option-cases, Option, none, some, All, some-injective,
}
use raemote_server.Text.{Text}
use raemote_server.Config.Schema.{Config}
use raemote_server.Config.Env.{load}
use raemote_server.Config.Validate.{validate}
use raemote_server.Config.Loading.{IsTyped, load-limit}
use raemote_server.Catalog
use raemote_server.Discovery.Engine.{Engine}
use raemote_server.Auth.State.{NodeIds, AuthState, TokenInfo, max_u32, nanos_per_sec}
use raemote_server.Auth.Store.{Toml, load_at}
use raemote_server.Auth.Operations.{
  authenticate_locked, authenticate, grant, no_match, mint_invitation, set_device_name,
  mint_token_with,
}
use raemote_server.Auth.Trace.{
  Call, bind, mint, invite, revocation, renaming, limit, FitsU32, step, step-IsValid,
}
use raemote_server.Auth.Invariant
use raemote_server.Auth.Persistence.{load_at-IsValid}
use raemote_server.Ipc.Protocol.{Request}
use raemote_server.Daemon.State.{DaemonState, World}
use raemote_server.Daemon.Handle.{handle, initial, start_state}
use raemote_server.Daemon.Requests.{IsValid, kept, with_auth, handle-IsValid}

-- A step of the daemon: a request of the control socket, a call that a protocol handler makes, or the
-- end of a scan, with the engine's new state.
pub data Event (Node : Type 0) : Type 0 where
  requested : World → Request → Event Node
  called : Call Node → Event Node
  scanned : Engine → Event Node

-- The protocol handlers bind devices, mint invitations and rename devices.
abbrev pub IsProtocol : {Node : Type 0} → Event Node → Type 0
IsProtocol (called (mint now unix_now random ttl fixed)) = ⊥
IsProtocol (called (revocation disk names_disk node)) = ⊥
IsProtocol (called (limit val)) = ⊥
IsProtocol (called (bind now disk node presented)) = Unit
IsProtocol (called (invite now unix_now random ttl node max_pending)) = Unit
IsProtocol (called (renaming disk node name)) = Unit
IsProtocol (requested w req) = Unit
IsProtocol (scanned engine) = Unit

module _ {Node : Type 0} ⦃e : Eq Node⦄ (nodes : NodeIds Node) (fmt_short : Node → Text)
    (toml : Toml) (from_str : Text → Option Config) where
  unfoldable pub advance : DaemonState Node → Event Node → DaemonState Node
  advance d (requested w req) =
      kept nodes fmt_short toml from_str d (handle nodes fmt_short toml from_str w d req)
  advance d (called c) = record d { auth = step nodes toml d.auth c }
  advance d (scanned engine) = record d { engine = engine }

  unfoldable pub advance_all : DaemonState Node → List (Event Node) → DaemonState Node
  advance_all d [] = d
  advance_all d (event ∷ events) = advance_all (advance d event) events

  same_limit :
      (s : AuthState Node) (c : Call Node)
      → IsProtocol (called c)
      → (step nodes toml s c).max_attempts ≡ s.max_attempts
  unfolding step authenticate no_match mint_invitation set_device_name authenticate_locked grant
  same_limit s (bind now disk node presented) p = ground arith
  same_limit s (invite now unix_now random ttl node max_pending) p = ground arith
  same_limit s (renaming disk node name) p = ground arith
  same_limit s (mint now unix_now random ttl fixed) p = absurd p
  same_limit s (revocation disk names_disk node) p = absurd p
  same_limit s (limit val) p = absurd p

  advance-IsValid :
      (d : DaemonState Node) (event : Event Node)
      → IsTyped from_str
      → IsProtocol event
      → IsValid d
      → IsValid (advance d event)
  unfolding advance
  advance-IsValid d (scanned engine) typed p v = record {
    auth = v.auth;
    config = v.config;
    limit = v.limit;
  }
  advance-IsValid d (called c) typed p v =
      with_auth nodes fmt_short toml from_str d _
        (step-IsValid nodes toml d.auth c (fits c p) v.auth) (same_limit d.auth c p) v
    where
      fits : (c : Call Node) → IsProtocol (called c) → FitsU32 c
      fits (bind now disk node presented) p = p
      fits (invite now unix_now random ttl node max_pending) p = p
      fits (renaming disk node name) p = p
      fits (mint now unix_now random ttl fixed) p = absurd p
      fits (revocation disk names_disk node) p = absurd p
      fits (limit val) p = absurd p
  advance-IsValid d (requested w req) typed p v =
      handle-IsValid nodes fmt_short toml from_str w d req typed v

  advance_all-IsValid :
      (d : DaemonState Node) (events : List (Event Node))
      → IsTyped from_str
      → All IsProtocol events
      → IsValid d
      → IsValid (advance_all d events)
  unfolding advance_all
  advance_all-IsValid d [] typed p v = v
  advance_all-IsValid d (event ∷ events) typed p v =
      advance_all-IsValid (advance d event) events typed p.1 (advance-IsValid d event typed p.0 v)

  initial-IsValid :
      (w : World) (store names_file : Option Text) (node_id : Node) (config_path : Text)
      (cfg : Config) (catalog : Catalog.Catalog)
      → cfg.bind.max_failed_attempts ≤ max_u32
      → validate cfg ≡ none
      → IsValid
          (initial nodes fmt_short toml from_str w store names_file node_id config_path cfg
            catalog).0
  unfolding initial mint_token_with load_at
  initial-IsValid w store names_file node_id config_path cfg catalog typed right =
      let loaded = load_at nodes toml store names_file cfg.bind.max_failed_attempts in
      record {
        auth =
            Invariant.mint_token_with-IsValid nodes loaded w.now w.unix_now w.random
              (cfg.bind.token_ttl_secs * nanos_per_sec) cfg.bind.token
              (load_at-IsValid nodes toml store names_file cfg.bind.max_failed_attempts typed);
        config = right;
        limit = refl;
      }

  start_state-IsValid :
      (w : World) (store names_file : Option Text) (node_id : Node) (config_path : Text)
      {d : DaemonState Node} {token : TokenInfo}
      → IsTyped from_str
      → start_state nodes fmt_short toml from_str w store names_file node_id config_path
        ≡ some (d, token)
      → IsValid d
  unfolding start_state
  start_state-IsValid w store names_file node_id config_path {d} {token} typed h =
      elim (Option-cases (load from_str w.env w.config_file)) [
        | inl bad ↦ ground (arith, bad)
        | inr (cfg, good) ↦ elim (Option-cases (validate cfg)) [
          | inr (e, wrong) ↦ ground (arith, good, wrong)
          | inl right ↦ elim (Option-cases (Catalog.rebuild cfg.apps [])) [
            | inl late ↦ ground (arith, good, right, late)
            | inr (catalog, made) ↦
                subst (λ (x : DaemonState Node × TokenInfo). IsValid x.0)
                  (some-injective
                    {a = initial nodes fmt_short toml from_str w store names_file node_id
                      config_path cfg catalog}
                    {b = (d, token)} (ground (arith, good, right, made)))
                  (initial-IsValid w store names_file node_id config_path cfg catalog
                    (load-limit from_str w.env w.config_file typed good) right)
          ]
        ]
      ]

  -- The daemon starts with a configuration that passes its check, and keeps to one: whatever requests
  -- the control socket serves, whatever the protocol handlers call and whatever the scans find, the
  -- authorization state is well formed, the configuration in use passes its check, and the bound on
  -- failed attempts is that of the configuration in use.
  pub started-IsValid :
      (w : World) (store names_file : Option Text) (node_id : Node) (config_path : Text)
      {d : DaemonState Node} {token : TokenInfo} (events : List (Event Node))
      → IsTyped from_str
      → start_state nodes fmt_short toml from_str w store names_file node_id config_path
        ≡ some (d, token)
      → All IsProtocol events
      → IsValid (advance_all d events)
  started-IsValid w store names_file node_id config_path {d} events typed h p =
      advance_all-IsValid d events typed p
        (start_state-IsValid w store names_file node_id config_path typed h)
