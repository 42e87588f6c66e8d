-- ===== src/Auth/Simulation.antt =====
-- auth.rs: every sequence of calls is a run of the policy.
use raemote_server.Prelude.{
  ℕ, ◌+◌, min, max, ◌≡◌, refl, ap, ◌∙◌, inl, inr, Bool, not, ◌&&◌, List, [], ◌∷◌, arith, Eq, ◌==◌,
  nat_instance, list_instance, option_instance, Bool-cases, length, Option, none, some, leb, All,
}
use raemote_server.HashMap
use raemote_server.HashSet
use raemote_server.Text.{Text}
use raemote_server.Auth.Secret.{to_hex}
use raemote_server.Auth.State.{BindOutcome, NodeIds, AuthState}
use raemote_server.Auth.Store.{Disk, Toml}
use raemote_server.Auth.Operations.{
  revoke_locked, live_invitations, is_authorized, authenticate, revoke, mint_token_with,
  mint_invitation, set_max_attempts, set_device_name, max_ttl,
}
use raemote_server.Auth.Attempt.{authenticate-Attempt}
use raemote_server.Auth.Access.{is_authorized-revoke}
use raemote_server.Auth.Invariant
use raemote_server.Auth.Trace.{
  Call, bind, mint, invite, revocation, renaming, limit, FitsU32, step, run, step-IsValid,
}
use raemote_server.Auth.Policy.{
  Policy, expire, attempt, Step, attempted, minted, granted, full, withdrawn, renamed, limited, Run,
  finished, and_then,
}
use raemote_server.Auth.Refinement.{
  token_of, expiry_of, Implements, pruned-Implements, Agrees, Attempt-Implements,
}

module _ {Node : Type 0} ⦃e : Eq Node⦄ (nodes : NodeIds Node) (toml : Toml) where
  -- what the caller of `authenticate` is told
  unfoldable pub bind_reply : AuthState Node → Call Node → Option BindOutcome
  bind_reply s (bind now disk node presented) =
      some (authenticate nodes s now disk node presented).1
  bind_reply s (mint now unix_now random ttl fixed) = none
  bind_reply s (invite now unix_now random ttl node max_pending) = none
  bind_reply s (revocation disk names_disk node) = none
  bind_reply s (renaming disk node name) = none
  bind_reply s (limit val) = none

  unfoldable pub bind_replies : AuthState Node → List (Call Node) → List (Option BindOutcome)
  bind_replies s [] = []
  bind_replies s (c ∷ calls) = bind_reply s c ∷ bind_replies (step nodes toml s c) calls

  -- a step of the policy that the call answers to
  abbrev Simulated : AuthState Node → Policy Node → Call Node → Type 0
  Simulated s p c =
      (q : Policy Node) × Step p c (bind_reply s c) q × Implements (step nodes toml s c) q

  bind-Simulated :
      (s : AuthState Node) (p : Policy Node) (now : ℕ) (disk : Disk) (node : Node)
      (presented : Text)
      → Invariant.IsValid s
      → Implements s p
      → Simulated s p (bind now disk node presented)
  unfolding step bind_reply
  bind-Simulated s p now disk node presented v m =
      let r = authenticate nodes s now disk node presented in
      let (same, told) : Agrees nodes toml r (attempt now node presented p) =
        Attempt-Implements nodes toml s p now disk node presented v m
          (authenticate-Attempt nodes s now disk node presented v.invites) in
      ((attempt now node presented p).0, rw told attempted, same)

  invite-Simulated :
      (s : AuthState Node) (p : Policy Node) (now unix_now : ℕ) (random : List ℕ) (ttl : ℕ)
      (node : Node) (max_pending : ℕ)
      → Invariant.IsValid s
      → Implements s p
      → (q : Policy Node) × Step p (invite now unix_now random ttl node max_pending) none q
        × Implements (mint_invitation s now unix_now random ttl node max_pending).0 q
  unfolding mint_invitation is_authorized
  invite-Simulated s p now unix_now random ttl node max_pending v m =
      let kept = pruned-Implements nodes toml s p now v.invites m in
      elim (Bool-cases
        (leb (max max_pending 1) (length (live_invitations now s.inner.invitations)))) [
          | inl many ↦ rw many (expire now p, full, kept)
          | inr few ↦ rw few (
            _,
            granted,
            record {
              allows = m.allows;
              token = m.token;
              invites = λ text. ground (
                arith,
                HashMap.get-insert (live_invitations now s.inner.invitations) (to_hex random)
                    (record { expires_at = now + min ttl max_ttl; created_by = node }) text,
                kept.invites text,
              );
              failures = m.failures;
              limit = m.limit;
            },
          )
        ]

  -- the fields that neither a revocation nor a name touches
  abbrev Keeps : AuthState Node → AuthState Node → Type 0
  Keeps s t =
      (t.inner.pending ≡ s.inner.pending)
      × (t.inner.invitations ≡ s.inner.invitations)
      × (t.inner.failed_attempts ≡ s.inner.failed_attempts)
      × (t.max_attempts ≡ s.max_attempts)

  Keeps-Implements :
      (s t : AuthState Node) (p : Policy Node) (allowed : Node → Bool)
      → Keeps s t
      → ((j : Node) → is_authorized t j ≡ allowed j)
      → Implements s p
      → Implements t (record p { allows = allowed })
  Keeps-Implements s t p allowed (pending, invitations, failures, limit') allows m = record {
    allows = allows;
    token = ap token_of pending ∙ m.token;
    invites = λ text. ap (λ i. expiry_of (HashMap.get i text)) invitations ∙ m.invites text;
    failures = failures ∙ m.failures;
    limit = limit' ∙ m.limit;
  }

  revoke-Keeps :
      (s : AuthState Node) (disk names_disk : Disk) (node : Node)
      → Keeps s (revoke nodes toml s disk names_disk node).0
  unfolding revoke revoke_locked
  revoke-Keeps s disk names_disk node =
      elim (Bool-cases (HashSet.contains s.inner.authenticated node)) [
        | inl held ↦ rw held (refl, refl, refl, refl)
        | inr free ↦ rw free (refl, refl, refl, refl)
      ]

  set_device_name-Keeps :
      (s : AuthState Node) (disk : Disk) (node : Node) (name : Text)
      → Keeps s (set_device_name nodes toml s disk node name).0
        × ((set_device_name nodes toml s disk node name).0.inner.authenticated
            ≡ s.inner.authenticated)
  unfolding set_device_name
  set_device_name-Keeps s disk node name =
      elim (Bool-cases (HashSet.contains s.inner.authenticated node)) [
        | inl held ↦ rw held ((refl, refl, refl, refl), refl)
        | inr free ↦ rw free ((refl, refl, refl, refl), refl)
      ]

  revocation-Simulated :
      (s : AuthState Node) (p : Policy Node) (disk names_disk : Disk) (node : Node)
      → Implements s p
      → Simulated s p (revocation disk names_disk node)
  unfolding step bind_reply
  revocation-Simulated s p disk names_disk node m = (
    _,
    withdrawn,
    Keeps-Implements s _ p _ (revoke-Keeps s disk names_disk node)
        (λ j.
          (is_authorized-revoke nodes toml s disk names_disk node j).0
          ∙ ap (λ b. not (node == j) && b) (m.allows j))
        m,
  )

  renaming-Simulated :
      (s : AuthState Node) (p : Policy Node) (disk : Disk) (node : Node) (name : Text)
      → Implements s p
      → Simulated s p (renaming disk node name)
  unfolding step bind_reply is_authorized
  renaming-Simulated s p disk node name m =
      let (kept, devices) = set_device_name-Keeps s disk node name in
      (
        _,
        renamed,
        Keeps-Implements s _ p _ kept (λ j. ap (λ d. HashSet.contains d j) devices ∙ m.allows j) m,
      )

  step-Simulated :
      (s : AuthState Node) (p : Policy Node) (c : Call Node)
      → Invariant.IsValid s
      → Implements s p
      → Simulated s p c
  unfolding step bind_reply mint_token_with set_max_attempts is_authorized
  step-Simulated s p (bind now disk node presented) v m =
      bind-Simulated s p now disk node presented v m
  step-Simulated s p (mint now unix_now random ttl fixed) v m = (
    _,
    minted,
    record {
      allows = m.allows;
      token = refl;
      invites = m.invites;
      failures = refl;
      limit = m.limit;
    },
  )
  step-Simulated s p (invite now unix_now random ttl node max_pending) v m =
      invite-Simulated s p now unix_now random ttl node max_pending v m
  step-Simulated s p (revocation disk names_disk node) v m =
      revocation-Simulated s p disk names_disk node m
  step-Simulated s p (renaming disk node name) v m = renaming-Simulated s p disk node name m
  step-Simulated s p (limit val) v m = (
    _,
    limited,
    record {
      allows = m.allows;
      token = m.token;
      invites = m.invites;
      failures = m.failures;
      limit = refl;
    },
  )

  -- The state refines the policy, which has no lists, files, names or machine words. From a
  -- well-formed state that implements a policy, every sequence of calls whose bounds are of type
  -- `u32` is a run of that policy: there is a policy that the final state implements, and a run
  -- that leads to it in which every bind attempt has exactly the outcome that `authenticate`
  -- returns. An invitation is the one call that the policy allows to go two ways.
  pub run-refines :
      (s : AuthState Node) (p : Policy Node) (calls : List (Call Node))
      → All FitsU32 calls
      → Invariant.IsValid s
      → Implements s p
      → (q : Policy Node) × Run p calls (bind_replies s calls) q
        × Implements (run nodes toml s calls) q
  unfolding run bind_replies
  run-refines s p [] f v m = (p, finished, m)
  run-refines s p (c ∷ calls) f v m =
      let (q, taken, same) = step-Simulated s p c v m in
      let (q', rest, same') =
        run-refines (step nodes toml s c) q calls f.1 (step-IsValid nodes toml s c f.0 v) same in
      (q', and_then taken rest, same')
