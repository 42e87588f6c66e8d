-- ===== src/Daemon/Errors.antt =====
-- daemon.rs: what a request that is answered with an error leaves behind.
use raemote_server.Prelude.{
  ◌≡◌, sym, ◌∙◌, ◌⊎◌, inl, inr, false, List, map, arith, Eq, nat_instance, list_instance,
  Bool-cases, Option-cases, Option, some, some-pair,
}
use raemote_server.HashSet
use raemote_server.Text.{Text}
use raemote_server.Config.Schema.{Config}
use raemote_server.Auth.State.{NodeIds}
use raemote_server.Auth.Names.{sanitize_device_name}
use raemote_server.Auth.Store.{Disk, Toml, replace_file, save_names}
use raemote_server.Auth.Operations.{revoke_locked, revoke, set_device_name, rename}
use raemote_server.Ipc.Protocol.{
  Request, hello, get_status, get_token, refresh_token, reload_config, list_authorized,
  revoke_authorized, rename_authorized, list_apps, discover_now, discover_report, shutdown, error,
}
use raemote_server.Daemon.State.{DaemonState, World}
use raemote_server.Daemon.Handle.{refresh_reply, reload_reply, revoke_reply, rename_reply, handle}

save_names-failed :
    (toml : Toml) (disk : Disk) (old : Option Text) (names : List (Text × Text))
    → (save_names toml disk old names).1 ≡ false
    → (save_names toml disk old names).0 ≡ old
unfolding save_names replace_file
save_names-failed toml disk old names h = ground arith

module _ {Node : Type 0} ⦃e : Eq Node⦄ (nodes : NodeIds Node) (fmt_short : Node → Text)
    (toml : Toml) (from_str : Text → Option Config) where
  -- the state with other device names in memory
  abbrev pub renamed : DaemonState Node → List (Node × Text) → DaemonState Node
  renamed d names = record d {
    auth = record (d.auth) { inner = record (d.auth.inner) { names = names } };
  }

  reload_reply-error :
      (w : World) (d : DaemonState Node) (m : Text)
      → (reload_reply nodes fmt_short toml from_str w d).1 ≡ error m
      → (reload_reply nodes fmt_short toml from_str w d).0 ≡ d
  unfolding reload_reply
  reload_reply-error w d m h = ground arith

  revoke_reply-error :
      (w : World) (d : DaemonState Node) (node_id m : Text)
      → (revoke_reply nodes fmt_short toml from_str w d node_id).1 ≡ error m
      → (revoke_reply nodes fmt_short toml from_str w d node_id).0 ≡ d
  unfolding revoke_reply revoke revoke_locked
  revoke_reply-error w d node_id m h = ground arith

  rename_reply-error :
      (w : World) (d : DaemonState Node) (node_id name m : Text)
      → (rename_reply nodes fmt_short toml from_str w d node_id name).1 ≡ error m
      → ((rename_reply nodes fmt_short toml from_str w d node_id name).0 ≡ d)
        ⊎ ((m ≡ w.save_error)
            × (names : List (Node × Text)) × ((rename_reply nodes fmt_short toml from_str w d
                  node_id name).0
                ≡ renamed d names))
  unfolding rename_reply set_device_name
  rename_reply-error w d node_id name m h = elim (Option-cases (nodes.from_text node_id)) [
    | inl bad ↦ inl (ground (arith, bad))
    | inr (id, good) ↦
        let names = rename nodes d.auth.inner.names id (sanitize_device_name name) in
        let kept =
          save_names-failed toml w.names_disk d.auth.names_file
            (map (λ (p : Node × Text). (nodes.to_text p.0, p.1)) names) in
        elim (Bool-cases (HashSet.contains d.auth.inner.authenticated id)) [
          | inl there ↦ inr (ground (arith, good, there), names, ground (arith, good, there, kept))
          | inr away ↦ inl (ground (arith, good, away))
        ]
  ]

  -- A request that is answered with an error leaves the state of the daemon as it was, except for a
  -- renaming whose save failed: it has changed the device names in memory, and nothing else.
  pub handle-error :
      (w : World) (d d' : DaemonState Node) (req : Request) (m : Text)
      → handle nodes fmt_short toml from_str w d req ≡ some (d', error m)
      → (d' ≡ d) ⊎ ((m ≡ w.save_error) × (names : List (Node × Text)) × (d' ≡ renamed d names))
  unfolding handle refresh_reply
  handle-error w d d' (hello token) m h = inl (ground arith)
  handle-error w d d' get_status m h = inl (ground arith)
  handle-error w d d' get_token m h = inl (ground arith)
  handle-error w d d' (refresh_token ttl_secs) m h = inl (ground arith)
  handle-error w d d' reload_config m h =
      let (e1, e2) = some-pair h in inl (sym e1 ∙ reload_reply-error w d m e2)
  handle-error w d d' list_authorized m h = inl (ground arith)
  handle-error w d d' (revoke_authorized node_id) m h =
      let (e1, e2) = some-pair h in inl (sym e1 ∙ revoke_reply-error w d node_id m e2)
  handle-error w d d' (rename_authorized node_id name) m h =
      let (e1, e2) = some-pair h in
      elim (rename_reply-error w d node_id name m e2) [
        | inl same ↦ inl (sym e1 ∙ same)
        | inr (e3, names, e4) ↦ inr (e3, names, sym e1 ∙ e4)
      ]
  handle-error w d d' list_apps m h = inl (ground arith)
  handle-error w d d' discover_report m h = inl (ground arith)
  handle-error w d d' discover_now m h = inl (ground arith)
  handle-error w d d' shutdown m h = inl (ground arith)
