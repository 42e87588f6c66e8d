-- ===== src/Auth/Redeem.antt =====
-- auth.rs: a token or an invitation that was minted lets a device in while it is not expired.
use raemote_server.Prelude.{
  ℕ, ◌+◌, ◌≤◌, ◌<◌, min, max, ◌≡◌, refl, ◌∙◌, inl, inr, true, List, [], ◌∷◌, arith, Eq,
  nat_instance, list_instance, eq_self, Bool-cases, length, Option, none, some, is_some, leb,
}
use raemote_server.HashMap
use raemote_server.Text.{Text}
use raemote_server.Auth.Access
use raemote_server.Auth.Invariant
use raemote_server.Auth.Secret.{to_hex}
use raemote_server.Auth.State.{NodeIds, AuthState, Invitation, TokenInfo, is_allowed}
use raemote_server.Auth.Store.{Disk}
use raemote_server.Auth.Operations.{
  authenticate, mint_token_with, mint_invitation, live_invitations, max_ttl,
}

module _ {Node : Type 0} ⦃e : Eq Node⦄ (nodes : NodeIds Node) where
  -- From a well-formed state: a pairing token that was just minted, at random or with a fixed text,
  -- lets in every device that presents it before the lifetime, at most 100 years, is over.
  pub mint_token_with-authenticate :
      (s : AuthState Node) (now unix_now : ℕ) (random : List ℕ) (ttl : ℕ) (fixed : Option Text)
      (later : ℕ) (disk : Disk) (node : Node)
      → Invariant.IsValid s
      → later < now + min ttl max_ttl
      → let (s', token) = mint_token_with s now unix_now random ttl fixed in
        is_allowed (authenticate nodes s' later disk node token.token_hex).1 ≡ true
  unfolding mint_token_with
  mint_token_with-authenticate s now unix_now random ttl fixed later disk node v l =
      let s' = (mint_token_with s now unix_now random ttl fixed).0 in
      let token = (mint_token_with s now unix_now random ttl fixed).1 in
      (Access.is_allowed-authenticate_iff nodes s' later disk node token.token_hex v.invites).1
        (inr (inl (_, refl, l, refl)))

  minted-get :
      (s : AuthState Node) (now unix_now : ℕ) (random : List ℕ) (ttl : ℕ) (created_by : Node)
      (max_pending : ℕ) {info : TokenInfo}
      → (mint_invitation s now unix_now random ttl created_by max_pending).1 ≡ some info
      → HashMap.get
          (mint_invitation s now unix_now random ttl created_by max_pending).0.inner.invitations
          info.token_hex
        ≡ some (record { expires_at = now + min ttl max_ttl; created_by = created_by })
  unfolding mint_invitation
  minted-get s now unix_now random ttl created_by max_pending {info} m =
      let live = live_invitations now s.inner.invitations in
      let i : Invitation Node = record {
        expires_at = now + min ttl max_ttl;
        created_by = created_by;
      } in
      elim (Bool-cases (leb (max max_pending 1) (length live))) [
        | inl full ↦ ground arith
        | inr room ↦
            let same : to_hex random ≡ info.token_hex = ground arith in
            rw (room, mint_invitation, ← same)
              (HashMap.get-insert live (to_hex random) i (to_hex random)
                ∙ rw (eq_self (to_hex random)) refl)
      ]

  length-remove :
      (m : List (Text × Invitation Node)) (t : Text) → length (HashMap.remove m t) ≤ length m
  unfolding HashMap.remove
  length-remove [] t = omega arith
  length-remove ((k, i) ∷ m) t = ground (arith, length-remove m t)

  -- From a well-formed state: an invitation that was just minted lets in every device that presents
  -- it before the lifetime, at most 100 years, is over.
  pub mint_invitation-authenticate :
      (s : AuthState Node) (now unix_now : ℕ) (random : List ℕ) (ttl : ℕ) (created_by : Node)
      (max_pending : ℕ) {info : TokenInfo} (later : ℕ) (disk : Disk) (node : Node)
      → Invariant.IsValid s
      → (mint_invitation s now unix_now random ttl created_by max_pending).1 ≡ some info
      → later < now + min ttl max_ttl
      → is_allowed
          (authenticate nodes
            (mint_invitation s now unix_now random ttl created_by max_pending).0
            later
            disk
            node
            info.token_hex).1
        ≡ true
  mint_invitation-authenticate s now unix_now random ttl created_by max_pending {info} later disk
        node v m l =
      let s' = (mint_invitation s now unix_now random ttl created_by max_pending).0 in
      let v' =
        Invariant.mint_invitation-IsValid nodes s now unix_now random ttl created_by max_pending
          v in
      (Access.is_allowed-authenticate_iff nodes s' later disk node info.token_hex v'.invites).1 (
        inr (
          inr (
            record { expires_at = now + min ttl max_ttl; created_by = created_by },
            minted-get s now unix_now random ttl created_by max_pending m,
            l,
          )))

  -- A refused invitation means that as many are unexpired as the configured bound, or one where that is
  -- zero, allows; after a granted one, no more than that are outstanding.
  pub mint_invitation-bounded :
      (s : AuthState Node) (now unix_now : ℕ) (random : List ℕ) (ttl : ℕ) (created_by : Node)
      (max_pending : ℕ)
      → ((mint_invitation s now unix_now random ttl created_by max_pending).1 ≡ none
          → max max_pending 1 ≤ length (live_invitations now s.inner.invitations))
        × (is_some (mint_invitation s now unix_now random ttl created_by max_pending).1 ≡ true
            → length
                (mint_invitation s now unix_now random ttl created_by
                  max_pending).0.inner.invitations
              ≤ max max_pending 1)
  unfolding mint_invitation HashMap.insert
  mint_invitation-bounded s now unix_now random ttl created_by max_pending =
      let live = live_invitations now s.inner.invitations in
      elim (Bool-cases (leb (max max_pending 1) (length live))) [
        | inl full ↦ rw (full, mint_invitation) (λ h. ground arith, λ h. ground arith)
        | inr room ↦
            rw (room, mint_invitation)
              (λ h. ground arith, λ h. ground (arith, length-remove live (to_hex random)))
      ]
