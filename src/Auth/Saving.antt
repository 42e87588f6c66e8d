-- ===== src/Auth/Saving.antt =====
-- auth.rs: the saves of the set of devices. A call takes the entries under the lock and writes them
-- after it is released, so between the two other calls can run: here both are steps of their own.
use raemote_server.HashSet
use raemote_server.Prelude.{
  ℕ, zero, suc, max, ◌≡◌, refl, inl, inr, List, [], ◌∷◌, ◌++◌, arith, Eq, nat_instance,
  list_instance, option_instance, Bool-cases, Option-cases, length, Option, none, some, leb,
}
use raemote_server.Text.{Text}
use raemote_server.Auth.State.{NodeIds, AuthState}
use raemote_server.Auth.Store.{Disk}
use raemote_server.Auth.Operations.{
  entries, active_token, live_invitations, matches, scan_invitations, no_match, authorize,
  save_entries, authenticate_locked, revoke_locked, mint_token_with, mint_invitation,
}
use raemote_server.Auth.Attempt.{pruned}

-- `waiting` holds the entries that calls have taken and not written yet, in the order of the calls.
pub record Shared (Node : Type 0) : Type 0 where
  pub auth : AuthState Node
  pub waiting : List (List Text)

-- The locked part of a call, or a write of one of the entries that wait, which later calls can
-- overtake.
pub data Act (Node : Type 0) : Type 0 where
  attempt : (now : ℕ) → Node → (presented : Text) → Act Node
  removal : Node → Act Node
  token : (now unix_now : ℕ) → (random : List ℕ) → (ttl : ℕ) → Option Text → Act Node
  invitation :
      (now unix_now : ℕ) → (random : List ℕ) → (ttl : ℕ) → Node → (max_pending : ℕ) → Act Node
  write : (i : ℕ) → Disk → Act Node

unfoldable pub take_out : ℕ → List (List Text) → Option (List Text × List (List Text))
take_out i [] = none
take_out zero (w ∷ ws) = some (w, ws)
take_out (suc i) (w ∷ ws) = elim (take_out i ws) [
  | none ↦ none
  | some (taken, rest) ↦ some (taken, w ∷ rest)
]

abbrev pub queue : List (List Text) → Option (List Text) → List (List Text)
queue waiting none = waiting
queue waiting (some entries) = waiting ++ entries ∷ []

abbrev pub saved_entries : Option (List Text × List (Text × Text)) → Option (List Text)
saved_entries none = none
saved_entries (some (entries, names)) = some entries

module _ {Node : Type 0} ⦃e : Eq Node⦄ (nodes : NodeIds Node) where
  unfoldable pub act : Shared Node → Act Node → Shared Node
  act s (attempt now node presented) =
      let (after, (taken, outcome)) = authenticate_locked nodes s.auth now node presented in
      record { auth = after; waiting = queue s.waiting taken }
  act s (removal node) =
      let (after, taken) = revoke_locked nodes s.auth node in
      record { auth = after; waiting = queue s.waiting (saved_entries taken) }
  act s (token now unix_now random ttl fixed) = record s {
    auth = (mint_token_with s.auth now unix_now random ttl fixed).0;
  }
  act s (invitation now unix_now random ttl node max_pending) = record s {
    auth = (mint_invitation s.auth now unix_now random ttl node max_pending).0;
  }
  act s (write i disk) = elim (take_out i s.waiting) [
    | none ↦ s
    | some (taken, rest) ↦ record { auth = save_entries nodes disk taken s.auth; waiting = rest }
  ]

  unfoldable pub interleave : Shared Node → List (Act Node) → Shared Node
  interleave s [] = s
  interleave s (a ∷ acts) = interleave (act s a) acts

  -- A step that changes the set takes the entries of the new one, and leaves the file.
  abbrev pub IsTaken : AuthState Node → AuthState Node → Option (List Text) → Type 0
  IsTaken s after none =
      (after.inner.authenticated ≡ s.inner.authenticated) × (after.store ≡ s.store)
  IsTaken s after (some taken) =
      (taken ≡ entries nodes after.inner.authenticated) × (after.store ≡ s.store)

  no_match-IsTaken : (s : AuthState Node) (active : _) → IsTaken s ((no_match s active).0) none
  unfolding no_match
  no_match-IsTaken s none = (refl, refl)
  no_match-IsTaken s (some p) = ground arith

  pub attempt-IsTaken :
      (s : AuthState Node) (now : ℕ) (node : Node) (presented : Text)
      → let (after, (taken, outcome)) = authenticate_locked nodes s now node presented in
        IsTaken s after taken
  unfolding authenticate_locked authorize
  attempt-IsTaken s now node presented =
      let live = live_invitations now s.inner.invitations in
      elim (Bool-cases (HashSet.contains s.inner.authenticated node)) [
        | inl old ↦ rw old (refl, refl)
        | inr new ↦ elim (Bool-cases (matches (active_token now s.inner.pending) presented)) [
          | inl hit ↦ rw (new, hit) (refl, refl)
          | inr miss ↦ elim (Option-cases (scan_invitations presented none live)) [
            | inl absent ↦
                rw (new, miss, absent)
                  (no_match-IsTaken (pruned s now) (active_token now s.inner.pending))
            | inr (found, there) ↦ rw (new, miss, there) (refl, refl)
          ]
        ]
      ]

  pub removal-IsTaken :
      (s : AuthState Node) (node : Node)
      → let (after, taken) = revoke_locked nodes s node in IsTaken s after (saved_entries taken)
  unfolding revoke_locked
  removal-IsTaken s node = elim (Bool-cases (HashSet.contains s.inner.authenticated node)) [
    | inl old ↦ rw old (refl, refl)
    | inr new ↦ rw new (refl, refl)
  ]

  pub invitation-IsTaken :
      (s : AuthState Node) (now unix_now : ℕ) (random : List ℕ) (ttl : ℕ) (node : Node)
      (max_pending : ℕ)
      → IsTaken s ((mint_invitation s now unix_now random ttl node max_pending).0) none
  unfolding mint_invitation
  invitation-IsTaken s now unix_now random ttl node max_pending =
      elim (Bool-cases
        (leb (max max_pending 1) (length (live_invitations now s.inner.invitations)))) [
          | inl full ↦ rw full (refl, refl)
          | inr room ↦ rw room (refl, refl)
        ]
