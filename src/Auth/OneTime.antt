-- ===== src/Auth/OneTime.antt =====
-- auth.rs: an invitation is redeemed at most once, along any sequence of calls.
use raemote_server.HashMap
use raemote_server.HashSet
use raemote_server.Prelude.{
  Bool-cases, inl, inr, ℕ, ◌+◌, min, ◌≡◌, ◌≢◌, refl, List, [], ◌∷◌, arith, Eq, nat_instance,
  list_instance, eq_iff, eq_self, Option, none, some, All,
}
use raemote_server.Text.{Text}
use raemote_server.Auth.Secret.{to_hex}
use raemote_server.Auth.State.{BindOutcome, bound_via_invitation, NodeIds, PendingToken, AuthState}
use raemote_server.Auth.Store.{Disk, Toml}
use raemote_server.Auth.Operations.{
  revoke_locked, live_invitations, no_match, authorize, grant, authenticate, revoke,
  mint_token_with, mint_invitation, set_max_attempts, set_device_name, max_ttl,
}
use raemote_server.Auth.Attempt.{
  pruned, Attempt, known, token, invited, refused, authenticate-Attempt, get-live,
}
use raemote_server.Auth.Invariant
use raemote_server.Auth.Trace.{
  Call, bind, mint, invite, revocation, renaming, limit, FitsU32, DrawsOther, step, run,
  step-IsValid, run-IsValid,
}

module _ {Node : Type 0} ⦃e : Eq Node⦄ (nodes : NodeIds Node) (toml : Toml) where
  -- no invitation is kept under the text
  abbrev Gone : Text → AuthState Node → Type 0
  Gone t s = HashMap.get s.inner.invitations t ≡ none

  pruned-Gone :
      (t : Text) (s : AuthState Node) (now : ℕ)
      → HashMap.IsMap s.inner.invitations
      → Gone t s
      → Gone t (pruned s now)
  pruned-Gone t s now v h = ground (arith, get-live now s.inner.invitations t v)

  no_match-invitations :
      (s : AuthState Node) (active : Option PendingToken)
      → (no_match s active).0.inner.invitations ≡ s.inner.invitations
  unfolding no_match
  no_match-invitations s none = refl
  no_match-invitations s (some p) = ground arith

  Attempt-Gone :
      (t : Text) {s : AuthState Node} {now : ℕ} {disk : Disk} {node : Node} {presented : Text}
      {r : AuthState Node × BindOutcome}
      → HashMap.IsMap s.inner.invitations
      → Attempt nodes s now disk node presented r
      → Gone t s
      → Gone t (r.0)
  unfolding grant authorize
  Attempt-Gone t v (known old) h = h
  Attempt-Gone t {s} {now} v (token new k) h = pruned-Gone t s now v h
  Attempt-Gone t {s} {now} {presented} v (invited i new miss found live) h = ground (
    arith,
    HashMap.get-remove (live_invitations now s.inner.invitations) presented t,
    pruned-Gone t s now v h,
  )
  Attempt-Gone t {s} {now} v (refused new miss gone) h =
      rw no_match-invitations (pruned-Gone t s now v h)

  revoke-Gone :
      (t : Text) (s : AuthState Node) (disk names_disk : Disk) (node : Node)
      → Gone t s
      → Gone t ((revoke nodes toml s disk names_disk node).0)
  unfolding revoke revoke_locked
  revoke-Gone t s disk names_disk node h =
      elim (Bool-cases (HashSet.contains s.inner.authenticated node)) [
        | inl old ↦ rw old h
        | inr new ↦ rw new h
      ]

  step-Gone :
      (t : Text) (s : AuthState Node) (c : Call Node)
      → DrawsOther t c
      → Invariant.IsValid s
      → Gone t s
      → Gone t (step nodes toml s c)
  unfolding step
  step-Gone t s (bind now disk node presented) d v h =
      Attempt-Gone t v.invites (authenticate-Attempt nodes s now disk node presented v.invites) h
  step-Gone t s (mint now unix_now random ttl fixed) d v h = unfold mint_token_with in h
  step-Gone t s (invite now unix_now random ttl node max_pending) d v h =
      unfold mint_invitation in
      ground (
        arith,
        pruned-Gone t s now v.invites h,
        HashMap.get-insert (live_invitations now s.inner.invitations) (to_hex random)
            (record { expires_at = now + min ttl max_ttl; created_by = node }) t,
        eq_iff (to_hex random) t,
      )
  step-Gone t s (revocation disk names_disk node) d v h = revoke-Gone t s disk names_disk node h
  step-Gone t s (renaming disk node name) d v h = unfold set_device_name in ground arith
  step-Gone t s (limit val) d v h = unfold set_max_attempts in h

  run-Gone :
      (t : Text) (s : AuthState Node) (calls : List (Call Node))
      → All FitsU32 calls
      → All (DrawsOther t) calls
      → Invariant.IsValid s
      → Gone t s
      → Gone t (run nodes toml s calls)
  unfolding run
  run-Gone t s [] f d v h = h
  run-Gone t s (c ∷ calls) f d v h =
      run-Gone t (step nodes toml s c) calls f.1 d.1 (step-IsValid nodes toml s c f.0 v)
        (step-Gone t s c d.0 v h)

  Attempt-spent :
      {s : AuthState Node} {now : ℕ} {disk : Disk} {node : Node} {presented : Text}
      {r : AuthState Node × BindOutcome}
      → Attempt nodes s now disk node presented r
      → r.1 ≡ bound_via_invitation
      → Gone presented (r.0)
  unfolding grant authorize no_match
  Attempt-spent (known old) o = cc
  Attempt-spent (token new k) o = cc
  Attempt-spent {s} {now} {presented} (invited i new miss found live) o =
      rw (HashMap.get-remove (live_invitations now s.inner.invitations) presented presented)
        (rw (eq_self presented))
  Attempt-spent (refused new miss gone) o = absurd (ground arith)

  Attempt-without :
      {s : AuthState Node} {now : ℕ} {disk : Disk} {node : Node} {presented : Text}
      {r : AuthState Node × BindOutcome}
      → Gone presented s
      → Attempt nodes s now disk node presented r
      → r.1 ≢ bound_via_invitation
  unfolding no_match
  Attempt-without h (known old) o = cc
  Attempt-without h (token new k) o = cc
  Attempt-without h (invited i new miss found live) o = cc
  Attempt-without h (refused new miss gone) o = absurd (ground arith)

  -- From a well-formed state: once a device was let in by an invitation, no later attempt with the
  -- same text is, by any device and at any instant, along any calls that draw no new invitation with
  -- that text and whose bounds on attempts are of type `u32`.
  pub redeemed_once :
      (s : AuthState Node) (now later : ℕ) (disk disk' : Disk) (node other : Node) (t : Text)
      (calls : List (Call Node))
      → Invariant.IsValid s
      → (authenticate nodes s now disk node t).1 ≡ bound_via_invitation
      → All FitsU32 calls
      → All (DrawsOther t) calls
      → let after = run nodes toml (authenticate nodes s now disk node t).0 calls in
        (authenticate nodes after later disk' other t).1 ≢ bound_via_invitation
  redeemed_once s now later disk disk' node other t calls v o f d =
      let s' = (authenticate nodes s now disk node t).0 in
      let after = run nodes toml s' calls in
      let v' = Invariant.authenticate-IsValid nodes s now disk node t v in
      let valid = run-IsValid nodes toml s' calls f v' in
      let spent_t = Attempt-spent (authenticate-Attempt nodes s now disk node t v.invites) o in
      Attempt-without (run-Gone t s' calls f d v' spent_t)
        (authenticate-Attempt nodes after later disk' other t valid.invites)
