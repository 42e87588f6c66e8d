-- ===== src/Http/Serve.antt =====
-- http.rs: a connection of the HTTP protocol, from its opening to its end, among the calls by which
-- other tasks change the authorization state.
use raemote_server.Prelude.{
  ℕ, ◌+◌, ◌≡◌, refl, false, List, [], ◌∷◌, arith, Eq, ◌==◌, nat_instance, list_instance, eq_self,
  if◌then◌else◌, All,
}
use raemote_server.HashMap
use raemote_server.Text.{Text, codes}
use raemote_server.Auth.Access
use raemote_server.Auth.Invariant
use raemote_server.Auth.State.{NodeIds, AuthState}
use raemote_server.Auth.Store.{Disk, Toml}
use raemote_server.Auth.Operations.{
  is_authorized, revoke, mint_token_with, mint_invitation, set_device_name, set_max_attempts,
}
use raemote_server.Auth.Trace.{
  Call, bind, mint, invite, revocation, renaming, limit, FitsU32, step, step-IsValid,
}

-- What happens in turn: a call of another task, a stream that the device opens, or the loss of the
-- connection.
pub data Event (Node : Type 0) : Type 0 where
  call : Call Node → Event Node
  stream : Event Node
  lost : Event Node

pub data Outcome : Type 0 where
  running ended : Outcome
  closed : (error_code : ℕ) → (reason : Text) → Outcome

abbrev pub Fits : {Node : Type 0} → Event Node → Type 0
Fits (call c) = FitsU32 c
Fits stream = Unit
Fits lost = Unit

abbrev BindsOther : {Node : Type 0} ⦃e : Eq Node⦄ → Node → Call Node → Type 0
BindsOther device (bind now disk node presented) = (node == device) ≡ false
BindsOther device (mint now unix_now random ttl fixed) = Unit
BindsOther device (invite now unix_now random ttl node max_pending) = Unit
BindsOther device (revocation disk names_disk node) = Unit
BindsOther device (renaming disk node name) = Unit
BindsOther device (limit val) = Unit

-- no pairing attempt of the device itself
abbrev pub IsOther : {Node : Type 0} ⦃e : Eq Node⦄ → Node → Event Node → Type 0
IsOther device (call c) = BindsOther device c
IsOther device stream = Unit
IsOther device lost = Unit

module _ {Node : Type 0} ⦃e : Eq Node⦄ (nodes : NodeIds Node) (toml : Toml) where
  -- the loop of `accept`: how many streams are handed to a task that serves them, and how it ends
  unfoldable pub accept_loop : AuthState Node → Node → List (Event Node) → ℕ × Outcome
  accept_loop s device [] = (0, running)
  accept_loop s device (call c ∷ events) = accept_loop (step nodes toml s c) device events
  accept_loop s device (stream ∷ events) =
      let (served, outcome) = accept_loop s device events in
      if is_authorized s device then (served + 1, outcome) else (0, closed 401 (codes "revoked"))
  accept_loop s device (lost ∷ events) = (0, ended)

  unfoldable pub accept : AuthState Node → Node → List (Event Node) → ℕ × Outcome
  accept s device events =
      if is_authorized s device
      then accept_loop s device events
      else (0, closed 401 (codes "unauthorized"))

  step-unauthorized :
      (s : AuthState Node) (device : Node) (c : Call Node)
      → BindsOther device c
      → HashMap.IsMap s.inner.invitations
      → is_authorized s device ≡ false
      → is_authorized (step nodes toml s c) device ≡ false
  unfolding step
  step-unauthorized s device (bind now disk node presented) o v h =
      ground (arith, Access.is_authorized-authenticate nodes s now disk node presented device v)
  step-unauthorized s device (mint now unix_now random ttl fixed) o v h =
      unfold mint_token_with is_authorized in h
  step-unauthorized s device (invite now unix_now random ttl node max_pending) o v h =
      unfold mint_invitation is_authorized in ground arith
  step-unauthorized s device (revocation disk names_disk node) o v h =
      ground (arith, Access.is_authorized-revoke nodes toml s disk names_disk node device)
  step-unauthorized s device (renaming disk node name) o v h =
      unfold set_device_name is_authorized in ground arith
  step-unauthorized s device (limit val) o v h = unfold set_max_attempts is_authorized in h

  accept_loop-unauthorized :
      (s : AuthState Node) (device : Node) (events : List (Event Node))
      → All Fits events
      → All (IsOther device) events
      → Invariant.IsValid s
      → is_authorized s device ≡ false
      → (accept_loop s device events).0 ≡ 0
  unfolding accept_loop
  accept_loop-unauthorized s device [] f o v h = refl
  accept_loop-unauthorized s device (call c ∷ events) f o v h =
      accept_loop-unauthorized (step nodes toml s c) device events f.1 o.1
        (step-IsValid nodes toml s c f.0 v) (step-unauthorized s device c o.0 v.invites h)
  accept_loop-unauthorized s device (stream ∷ events) f o v h = rw h refl
  accept_loop-unauthorized s device (lost ∷ events) f o v h = refl

  -- From a well-formed state: once a device is revoked, its open connection hands no further stream
  -- to a task that serves it, whatever calls are interleaved with its streams, as long as none is a
  -- pairing attempt of that device and the new bounds on attempts are of type `u32`. A connection
  -- that it opens next is closed with the code 401.
  pub revoke-accept_loop :
      (s : AuthState Node) (device : Node) (disk names_disk : Disk) (events : List (Event Node))
      → Invariant.IsValid s
      → All Fits events
      → All (IsOther device) events
      → ((accept_loop s device (call (revocation disk names_disk device) ∷ events)).0 ≡ 0)
        × (accept (revoke nodes toml s disk names_disk device).0 device events
            ≡ (0, closed 401 (codes "unauthorized")))
  unfolding accept_loop accept step
  revoke-accept_loop s device disk names_disk events v f o =
      let gone : is_authorized (revoke nodes toml s disk names_disk device).0 device ≡ false =
        ground (
          arith,
          Access.is_authorized-revoke nodes toml s disk names_disk device device,
          eq_self device,
        ) in
      (
        accept_loop-unauthorized (revoke nodes toml s disk names_disk device).0 device events f o
            (Invariant.revoke-IsValid nodes toml s disk names_disk device v) gone,
        rw (gone, accept) refl,
      )
