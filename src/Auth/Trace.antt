-- ===== src/Auth/Trace.antt =====
-- auth.rs: sequences of calls, as the handlers and the operator make them, and what holds along each.
use raemote_server.Prelude.{
  ℕ, ◌≤◌, ◌≢◌, List, [], ◌∷◌, Eq, nat_instance, list_instance, Option, All,
}
use raemote_server.Text.{Text}
use raemote_server.Auth.Secret.{to_hex}
use raemote_server.Auth.State.{NodeIds, AuthState, max_u32}
use raemote_server.Auth.Store.{Disk, Toml}
use raemote_server.Auth.Operations.{
  authenticate, revoke, mint_token_with, mint_invitation, set_max_attempts, set_device_name,
}
use raemote_server.Auth.Invariant

pub data Call (Node : Type 0) : Type 0 where
  bind : (now : ℕ) → Disk → Node → Text → Call Node
  mint : (now unix_now : ℕ) → (random : List ℕ) → (ttl : ℕ) → Option Text → Call Node
  invite : (now unix_now : ℕ) → (random : List ℕ) → (ttl : ℕ) → Node → (max_pending : ℕ) → Call Node
  revocation : Disk → Disk → Node → Call Node
  renaming : Disk → Node → Text → Call Node
  limit : ℕ → Call Node

-- the type `u32` of the argument
abbrev pub FitsU32 : {Node : Type 0} → Call Node → Type 0
FitsU32 (limit val) = val ≤ max_u32
FitsU32 (bind now disk node presented) = Unit
FitsU32 (mint now unix_now random ttl fixed) = Unit
FitsU32 (invite now unix_now random ttl node max_pending) = Unit
FitsU32 (revocation disk names_disk node) = Unit
FitsU32 (renaming disk node name) = Unit

-- no invitation of the call is kept under this text
abbrev pub DrawsOther : {Node : Type 0} → Text → Call Node → Type 0
DrawsOther t (invite now unix_now random ttl node max_pending) = to_hex random ≢ t
DrawsOther t (limit val) = Unit
DrawsOther t (bind now disk node presented) = Unit
DrawsOther t (mint now unix_now random ttl fixed) = Unit
DrawsOther t (revocation disk names_disk node) = Unit
DrawsOther t (renaming disk node name) = Unit

module _ {Node : Type 0} ⦃e : Eq Node⦄ (nodes : NodeIds Node) (toml : Toml) where
  unfoldable pub step : AuthState Node → Call Node → AuthState Node
  step s (bind now disk node presented) = (authenticate nodes s now disk node presented).0
  step s (mint now unix_now random ttl fixed) = (mint_token_with s now unix_now random ttl fixed).0
  step s (invite now unix_now random ttl node max_pending) =
      (mint_invitation s now unix_now random ttl node max_pending).0
  step s (revocation disk names_disk node) = (revoke nodes toml s disk names_disk node).0
  step s (renaming disk node name) = (set_device_name nodes toml s disk node name).0
  step s (limit val) = set_max_attempts s val

  unfoldable pub run : AuthState Node → List (Call Node) → AuthState Node
  run s [] = s
  run s (c ∷ calls) = run (step s c) calls

  pub step-IsValid :
      (s : AuthState Node) (c : Call Node)
      → FitsU32 c
      → Invariant.IsValid s
      → Invariant.IsValid (step s c)
  unfolding step
  step-IsValid s (bind now disk node presented) f v =
      Invariant.authenticate-IsValid nodes s now disk node presented v
  step-IsValid s (mint now unix_now random ttl fixed) f v =
      Invariant.mint_token_with-IsValid nodes s now unix_now random ttl fixed v
  step-IsValid s (invite now unix_now random ttl node max_pending) f v =
      Invariant.mint_invitation-IsValid nodes s now unix_now random ttl node max_pending v
  step-IsValid s (revocation disk names_disk node) f v =
      Invariant.revoke-IsValid nodes toml s disk names_disk node v
  step-IsValid s (renaming disk node name) f v =
      Invariant.set_device_name-IsValid nodes toml s disk node name v
  step-IsValid s (limit val) f v = Invariant.set_max_attempts-IsValid nodes s val f v

  -- Every sequence of calls, in any order and at any instants, keeps a well-formed state well formed,
  -- if the new bounds on attempts are of type `u32`.
  pub run-IsValid :
      (s : AuthState Node) (calls : List (Call Node))
      → All FitsU32 calls
      → Invariant.IsValid s
      → Invariant.IsValid (run s calls)
  unfolding run
  run-IsValid s [] f v = v
  run-IsValid s (c ∷ calls) f v = run-IsValid (step s c) calls f.1 (step-IsValid s c f.0 v)
