-- ===== src/Auth/Access.antt =====
-- auth.rs: what a bind attempt, a revocation and the other calls do to the set of authorized devices.
use raemote_server.HashMap
use raemote_server.HashSet
use raemote_server.Prelude.{
  ℕ, ◌≡◌, refl, ◌↔◌, ◌⊎◌, inl, inr, true, false, not, ◌&&◌, ◌||◌, arith, Eq, ◌==◌, nat_instance,
  list_instance, eq_iff, Option, none, some,
}
use raemote_server.Text.{Text}
use raemote_server.Auth.State.{BindOutcome, is_allowed, NodeIds, PendingToken, AuthState}
use raemote_server.Auth.Store.{Disk, Toml}
use raemote_server.Auth.Operations.{
  revoke_locked, active_token, no_match, authorize, grant, authenticate, is_authorized, revoke,
}
use raemote_server.Auth.Attempt.{
  HoldsToken, Redeemable, pruned, spent, Attempt, known, token, invited, refused,
  authenticate-Attempt,
}

module _ {Node : Type 0} ⦃e : Eq Node⦄ (nodes : NodeIds Node) where
  pub is_authorized-grant :
      (s : AuthState Node) (disk : Disk) (node j : Node)
      → is_authorized (grant nodes s disk node) j ≡ (node == j || is_authorized s j)
  unfolding is_authorized grant authorize
  is_authorized-grant s disk node j = HashSet.contains-insert s.inner.authenticated node j

  no_match-keeps :
      (s : AuthState Node) (active : Option PendingToken)
      → ((no_match s active).0.inner.authenticated ≡ s.inner.authenticated)
        × (is_allowed (no_match s active).1 ≡ false)
  unfolding no_match
  no_match-keeps s none = (refl, refl)
  no_match-keeps s (some p) = ground arith

  module _ (s : AuthState Node) (now : ℕ) (disk : Disk) (node : Node) (presented : Text) where
    Attempt-access :
        (j : Node) {r : AuthState Node × BindOutcome}
        → Attempt nodes s now disk node presented r
        → is_authorized r.0 j ≡ (is_authorized s j || (node == j && is_allowed r.1))
    unfolding is_authorized
    Attempt-access j (known old) = ground (arith, eq_iff node j)
    Attempt-access j (token new h) = ground (arith, is_authorized-grant (pruned s now) disk node j)
    Attempt-access j (invited i new miss found live) =
        ground (arith, is_authorized-grant (spent (pruned s now) presented) disk node j)
    Attempt-access j (refused new miss none_left) =
        ground (arith, no_match-keeps (pruned s now) (active_token now s.inner.pending))

    -- Over a state whose invitations have distinct keys, after a bind attempt a device is authorized
    -- exactly if it was before, or it is the device that attempted and the outcome is one that allows.
    pub is_authorized-authenticate :
        (j : Node)
        → HashMap.IsMap s.inner.invitations
        → is_authorized (authenticate nodes s now disk node presented).0 j ≡ (
            is_authorized s j
            || (node == j && is_allowed (authenticate nodes s now disk node presented).1))
    is_authorized-authenticate j v =
        Attempt-access j (authenticate-Attempt nodes s now disk node presented v)

    Attempt-justified :
        {r : AuthState Node × BindOutcome}
        → Attempt nodes s now disk node presented r
        → is_allowed r.1 ≡ true
        → (is_authorized s node ≡ true)
          ⊎ (HoldsToken s.inner.pending now presented
              ⊎ Redeemable s.inner.invitations now presented)
    unfolding is_authorized
    Attempt-justified (known old) a = inl old
    Attempt-justified (token new h) a = inr (inl h)
    Attempt-justified (invited i new miss found live) a = inr (inr (i, found, live))
    Attempt-justified (refused new miss none_left) a =
        ground (arith, no_match-keeps (pruned s now) (active_token now s.inner.pending))

    Attempt-granted :
        {r : AuthState Node × BindOutcome}
        → Attempt nodes s now disk node presented r
        → (is_authorized s node ≡ true)
          ⊎ (HoldsToken s.inner.pending now presented
              ⊎ Redeemable s.inner.invitations now presented)
        → is_allowed r.1 ≡ true
    unfolding is_authorized
    Attempt-granted (known old) j = refl
    Attempt-granted (token new h) j = refl
    Attempt-granted (invited i new miss found live) j = refl
    Attempt-granted (refused new miss gone) (inl old) = cc
    Attempt-granted (refused new miss gone) (inr (inl h)) = absurd (miss h)
    Attempt-granted (refused new miss gone) (inr (inr h)) = absurd (gone h)

    -- Over a state whose invitations have distinct keys, a bind attempt is allowed exactly if the
    -- device is authorized already, or the text is the pairing token and that has not expired, or
    -- the text is the key of an invitation that has not expired.
    pub is_allowed-authenticate_iff :
        HashMap.IsMap s.inner.invitations
        → (is_allowed (authenticate nodes s now disk node presented).1 ≡ true) ↔ (
            (is_authorized s node ≡ true)
            ⊎ (HoldsToken s.inner.pending now presented
                ⊎ Redeemable s.inner.invitations now presented))
    is_allowed-authenticate_iff v =
        let attempt = authenticate-Attempt nodes s now disk node presented v in
        (Attempt-justified attempt, Attempt-granted attempt)

  -- Revoking a device takes exactly that device out of the set, and says whether it was there.
  pub is_authorized-revoke :
      (toml : Toml) (s : AuthState Node) (disk names_disk : Disk) (node j : Node)
      → (is_authorized (revoke nodes toml s disk names_disk node).0 j
          ≡ (not (node == j) && is_authorized s j))
        × ((revoke nodes toml s disk names_disk node).1 ≡ is_authorized s node)
  unfolding is_authorized revoke revoke_locked
  is_authorized-revoke toml s disk names_disk node j =
      ground (arith, HashSet.contains-remove s.inner.authenticated node j, eq_iff node j)
