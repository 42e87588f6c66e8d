-- ===== src/Auth/Invariant.antt =====
-- auth.rs: the well-formedness of the state, kept by every method and by loading.
use raemote_server.HashMap
use raemote_server.HashSet
use raemote_server.Prelude.{
  ℕ, ◌≤◌, ◌<◌, max, ◌≡◌, refl, inl, inr, true, List, arith, Eq, ◌==◌, nat_instance, list_instance,
  eq_iff, if◌then◌else◌, Bool-cases, length, Option, none, some, is_some, leb,
}
use raemote_server.Text.{Text}
use raemote_server.Auth.Names.{sanitize_device_name}
use raemote_server.Auth.Secret.{to_hex}
use raemote_server.Auth.State.{BindOutcome, NodeIds, PendingToken, AuthState, max_u32}
use raemote_server.Auth.Store.{Disk, Toml}
use raemote_server.Auth.Operations.{
  revoke_locked, active_token, live_invitations, no_match, authorize, grant, authenticate, revoke,
  mint_token_with, mint_invitation, set_max_attempts, rename, set_device_name,
}
use raemote_server.Auth.Attempt.{
  pruned, spent, Attempt, known, token, invited, refused, authenticate-Attempt, live-IsMap,
}

-- `limit` is the type `u32` of the bound. `attempts` keeps the failure counter from overflowing while
-- there is a token to attack.
pub record IsValid {Node : Type 0} ⦃e : Eq Node⦄ (s : AuthState Node) : Type 0 where
  pub devices : HashSet.IsUnique s.inner.authenticated
  pub distinct_names : HashMap.IsMap s.inner.names
  pub named :
      (id : Node)
      → is_some (HashMap.get s.inner.names id) ≡ true
      → HashSet.contains s.inner.authenticated id ≡ true
  pub invites : HashMap.IsMap s.inner.invitations
  pub attempts : is_some s.inner.pending ≡ true → s.inner.failed_attempts < max_u32
  pub limit : s.max_attempts ≤ max_u32

module _ {Node : Type 0} ⦃e : Eq Node⦄ (nodes : NodeIds Node) where
  grant-IsValid :
      (s : AuthState Node) (disk : Disk) (node : Node)
      → IsValid s
      → IsValid (grant nodes s disk node)
  unfolding grant authorize
  grant-IsValid s disk node v = record {
    devices = HashSet.insert-IsUnique s.inner.authenticated node v.devices;
    distinct_names = v.distinct_names;
    named =
        λ id h. ground (arith, HashSet.contains-insert s.inner.authenticated node id, v.named id h);
    invites = v.invites;
    attempts = λ h. omega arith;
    limit = v.limit;
  }

  no_match-IsValid :
      (s : AuthState Node) (active : Option PendingToken)
      → (is_some active ≡ true → is_some s.inner.pending ≡ true)
      → IsValid s
      → IsValid ((no_match s active).0)
  unfolding no_match
  no_match-IsValid s none h v = record {
    devices = v.devices;
    distinct_names = v.distinct_names;
    named = v.named;
    invites = v.invites;
    attempts = λ p. cc;
    limit = v.limit;
  }
  no_match-IsValid s (some active) h v = record {
    devices = ground arith;
    distinct_names = ground arith;
    named = λ id n. ground (arith, v.named id);
    invites = ground arith;
    attempts = λ p. ground (arith, v.attempts (h refl));
    limit = ground arith;
  }

  active_token-pending :
      (now : ℕ) (pending : Option PendingToken)
      → is_some (active_token now pending) ≡ true
      → is_some pending ≡ true
  unfolding active_token
  active_token-pending now none h = h
  active_token-pending now (some p) h = refl

  pruned-IsValid : (s : AuthState Node) (now : ℕ) → IsValid s → IsValid (pruned s now)
  pruned-IsValid s now v = record {
    devices = v.devices;
    distinct_names = v.distinct_names;
    named = v.named;
    invites = live-IsMap now s.inner.invitations v.invites;
    attempts = v.attempts;
    limit = v.limit;
  }

  spent-IsValid : (s : AuthState Node) (t : Text) → IsValid s → IsValid (spent s t)
  spent-IsValid s t v = record {
    devices = v.devices;
    distinct_names = v.distinct_names;
    named = v.named;
    invites = HashMap.remove-IsMap s.inner.invitations t v.invites;
    attempts = v.attempts;
    limit = v.limit;
  }

  -- A bind attempt keeps the state well formed, whatever its outcome; the failure counter does not
  -- overflow.
  pub authenticate-IsValid :
      (s : AuthState Node) (now : ℕ) (disk : Disk) (node : Node) (presented : Text)
      → IsValid s
      → IsValid ((authenticate nodes s now disk node presented).0)
  authenticate-IsValid s now disk node presented v =
      go (authenticate-Attempt nodes s now disk node presented v.invites)
    where
      go :
          {r : AuthState Node × BindOutcome}
          → Attempt nodes s now disk node presented r
          → IsValid (r.0)
      go (known old) = v
      go (token new h) = grant-IsValid (pruned s now) disk node (pruned-IsValid s now v)
      go (invited i new miss found live) =
          grant-IsValid (spent (pruned s now) presented) disk node
            (spent-IsValid (pruned s now) presented (pruned-IsValid s now v))
      go (refused new miss gone) =
          no_match-IsValid (pruned s now) (active_token now s.inner.pending)
            (active_token-pending now s.inner.pending) (pruned-IsValid s now v)

  pub revoke-IsValid :
      (toml : Toml) (s : AuthState Node) (disk names_disk : Disk) (node : Node)
      → IsValid s
      → IsValid ((revoke nodes toml s disk names_disk node).0)
  unfolding revoke revoke_locked
  revoke-IsValid toml s disk names_disk node v =
      elim (Bool-cases (HashSet.contains s.inner.authenticated node)) [
        | inl old ↦
            rw (old, revoke, revoke_locked)
              (record {
                devices = HashSet.remove-IsUnique s.inner.authenticated node v.devices;
                distinct_names = HashMap.remove-IsMap s.inner.names node v.distinct_names;
                named = λ id h. ground (
                  arith,
                  HashMap.get-remove s.inner.names node id,
                  HashSet.contains-remove s.inner.authenticated node id,
                  v.named id,
                );
                invites = v.invites;
                attempts = v.attempts;
                limit = v.limit;
              })
        | inr new ↦ rw (new, revoke, revoke_locked) v
      ]

  rename-IsMap :
      (names : List (Node × Text)) (node : Node) (clean : Option Text)
      → HashMap.IsMap names
      → HashMap.IsMap (rename nodes names node clean)
  unfolding rename
  rename-IsMap names node none v = HashMap.remove-IsMap names node v
  rename-IsMap names node (some c) v = HashMap.insert-IsMap names node c v

  -- what a renamed map holds
  pub get-rename :
      (names : List (Node × Text)) (node : Node) (clean : Option Text) (j : Node)
      → HashMap.get (rename nodes names node clean) j
        ≡ (if node == j then clean else HashMap.get names j)
  unfolding rename
  get-rename names node none j = HashMap.get-remove names node j
  get-rename names node (some c) j = HashMap.get-insert names node c j

  pub set_device_name-IsValid :
      (toml : Toml) (s : AuthState Node) (disk : Disk) (node : Node) (name : Text)
      → IsValid s
      → IsValid ((set_device_name nodes toml s disk node name).0)
  unfolding set_device_name
  set_device_name-IsValid toml s disk node name v =
      elim (Bool-cases (HashSet.contains s.inner.authenticated node)) [
        | inl old ↦ rw old (record {
          devices = v.devices;
          distinct_names =
              rename-IsMap s.inner.names node (sanitize_device_name name) v.distinct_names;
          named = λ id h. ground (
            arith,
            get-rename s.inner.names node (sanitize_device_name name) id,
            eq_iff node id,
            v.named id,
          );
          invites = v.invites;
          attempts = v.attempts;
          limit = v.limit;
        })
        | inr new ↦ rw new v
      ]

  pub mint_token_with-IsValid :
      (s : AuthState Node) (now unix_now : ℕ) (random : List ℕ) (ttl : ℕ) (fixed : Option Text)
      → IsValid s
      → IsValid ((mint_token_with s now unix_now random ttl fixed).0)
  unfolding mint_token_with
  mint_token_with-IsValid s now unix_now random ttl fixed v = record {
    devices = v.devices;
    distinct_names = v.distinct_names;
    named = v.named;
    invites = v.invites;
    attempts = λ h. omega arith;
    limit = v.limit;
  }

  pub mint_invitation-IsValid :
      (s : AuthState Node) (now unix_now : ℕ) (random : List ℕ) (ttl : ℕ) (created_by : Node)
      (max_pending : ℕ)
      → IsValid s
      → IsValid ((mint_invitation s now unix_now random ttl created_by max_pending).0)
  unfolding mint_invitation
  mint_invitation-IsValid s now unix_now random ttl created_by max_pending v =
      let live = live_invitations now s.inner.invitations in
      let kept = live-IsMap now s.inner.invitations v.invites in
      elim (Bool-cases (leb (max max_pending 1) (length live))) [
        | inl full ↦ rw full (pruned-IsValid s now v)
        | inr room ↦ rw room (record {
          devices = v.devices;
          distinct_names = v.distinct_names;
          named = v.named;
          invites = HashMap.insert-IsMap live (to_hex random) _ kept;
          attempts = v.attempts;
          limit = v.limit;
        })
      ]

  pub set_max_attempts-IsValid :
      (s : AuthState Node) (val : ℕ) → val ≤ max_u32 → IsValid s → IsValid (set_max_attempts s val)
  unfolding set_max_attempts
  set_max_attempts-IsValid s val h v = record {
    devices = v.devices;
    distinct_names = v.distinct_names;
    named = v.named;
    invites = v.invites;
    attempts = v.attempts;
    limit = h;
  }
