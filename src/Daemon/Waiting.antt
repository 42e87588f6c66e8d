-- ===== src/Daemon/Waiting.antt =====
-- daemon.rs: every request is answered, and every connection to the daemon ends.
use raemote_server.Prelude.{
  ℕ, zero, suc, ◌+◌, ◌*◌, ◌≤◌, ◌≡◌, refl, sym, ◌∙◌, subst, true, List, arith, Eq, nat_instance,
  list_instance, Option, none, some, is_some,
}
use mathlib.Core.Option
use raemote_server.Text.{Text}
use raemote_server.Config.Schema.{Config}
use raemote_server.Auth.State.{NodeIds}
use raemote_server.Auth.Store.{Toml}
use raemote_server.Ipc.Protocol.{
  Request, hello, get_status, get_token, refresh_token, reload_config, list_authorized,
  revoke_authorized, rename_authorized, list_apps, discover_now, discover_report, shutdown,
}
use raemote_server.Ipc.Session.{Stream, Session, handle_client}
use raemote_server.Ipc.Handshake.{handle_client_total}
use raemote_server.Daemon.State.{DaemonState, Poll, World}
use raemote_server.Daemon.Handle.{wait, discover_now_timeout, scan, handle, answer}

-- two polls are 25 milliseconds apart, at least
abbrev pub IsPaced : World → Type 0
IsPaced w = (i : ℕ) → w.now + 25_000_000 * i ≤ (w.polls i).now

-- A look past the deadline ends the loop.
wait_total :
    (fuel : ℕ) (before deadline : ℕ) (polls : ℕ → Poll) (i : ℕ)
    → deadline ≤ (polls (i + fuel)).now
    → is_some (wait (suc fuel) before deadline polls i) ≡ true
unfolding wait
wait_total zero before deadline polls i h = ground (arith, h)
wait_total (suc fuel) before deadline polls i h =
    let same : suc i + fuel ≡ i + suc fuel = omega arith in
    ground (
      arith,
      wait_total fuel before deadline polls (suc i)
          (subst (λ n. deadline ≤ (polls n).now) (sym same) h),
    )

is_some-map : {A B : Type 0} (f : A → B) (a : Option A) → is_some (Option.map f a) ≡ is_some a
is_some-map f none = refl
is_some-map f (some a) = refl

module _ {Node : Type 0} ⦃e : Eq Node⦄ (nodes : NodeIds Node) (fmt_short : Node → Text)
    (toml : Toml) (from_str : Text → Option Config) where
  scan_total :
      (w : World) (d : DaemonState Node)
      → IsPaced w
      → is_some (scan nodes fmt_short toml from_str w d) ≡ true
  unfolding scan
  scan_total w d h =
      is_some-map _ _
      ∙ wait_total 120 d.engine.catalog_generation (w.now + discover_now_timeout) w.polls 0
          (omega (arith, h 120))

  -- Every request is answered: a request for a scan waits for at most 121 looks at the catalog.
  pub handle_total :
      (w : World) (d : DaemonState Node) (req : Request)
      → IsPaced w
      → is_some (handle nodes fmt_short toml from_str w d req) ≡ true
  unfolding handle
  handle_total w d (hello token) h = refl
  handle_total w d get_status h = refl
  handle_total w d get_token h = refl
  handle_total w d (refresh_token ttl_secs) h = refl
  handle_total w d reload_config h = refl
  handle_total w d list_authorized h = refl
  handle_total w d (revoke_authorized node_id) h = refl
  handle_total w d (rename_authorized node_id name) h = refl
  handle_total w d list_apps h = refl
  handle_total w d discover_report h = is_some-map _ _ ∙ scan_total w d h
  handle_total w d discover_now h = is_some-map _ _ ∙ scan_total w d h
  handle_total w d shutdown h = refl

  -- A connection to the daemon's socket ends when its stream does, whatever the client sends, if two
  -- looks at the catalog are 25 milliseconds apart: each request is answered within 121 of them, and
  -- the loop of the connection has fuel enough.
  pub connection_total :
      (from_utf8 : List ℕ → Option Text) (parse : Text → Option Request) (worlds : ℕ → World)
      (ipc_token : Text) (s : Session (DaemonState Node × ℕ)) (stream : Stream)
      → ((n : ℕ) → IsPaced (worlds n))
      → is_some (
          handle_client from_utf8 parse
            (answer nodes fmt_short toml from_str worlds)
            ipc_token
            s
            stream)
        ≡ true
  unfolding answer
  connection_total from_utf8 parse worlds ipc_token s stream h =
      handle_client_total from_utf8 parse _ (λ (d, n) req. answer_total d n req) ipc_token s stream
    where
      answer_total :
          (d : DaemonState Node) (n : ℕ) (req : Request)
          → is_some (answer nodes fmt_short toml from_str worlds (d, n) req) ≡ true
      answer_total d n req = is_some-map _ _ ∙ handle_total (worlds n) d req (h n)
