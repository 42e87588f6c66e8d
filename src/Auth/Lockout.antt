-- ===== src/Auth/Lockout.antt =====
-- auth.rs: failed attempts are counted, and the last one allowed revokes the token.
use raemote_server.HashMap
use raemote_server.HashSet
use raemote_server.Prelude.{
  ℕ, zero, suc, ◌+◌, ◌≤◌, ◌<◌, ◌≡◌, ◌≢◌, false, List, [], ◌∷◌, arith, Eq, nat_instance,
  list_instance, length, Option, none, some, All,
}
use raemote_server.Text.{Text}
use raemote_server.Auth.State.{
  BindOutcome, token_mismatch, revoked, NodeIds, PendingToken, AuthState, max_u32,
}
use raemote_server.Auth.Store.{Disk}
use raemote_server.Auth.Operations.{active_token, live_invitations, no_match, authenticate}
use raemote_server.Auth.Attempt.{
  pruned, Attempt, known, token, invited, refused, authenticate-Attempt, live-IsMap, get-live,
}

pub record Bind (Node : Type 0) : Type 0 where
  pub now : ℕ
  pub disk : Disk
  pub node : Node
  pub presented : Text

active_alive :
    (pending : Option PendingToken) (p : PendingToken) (now : ℕ)
    → pending ≡ some p
    → now < p.expires_at
    → active_token now pending ≡ some p
unfolding active_token
active_alive none p now h a = cc
active_alive (some q) p now h a = ground arith

module _ {Node : Type 0} ⦃e : Eq Node⦄ (nodes : NodeIds Node) where
  -- several attempts in a row, with their outcomes
  pub binds : AuthState Node → List (Bind Node) → AuthState Node × List BindOutcome
  binds s [] = (s, [])
  binds s (b ∷ bs) =
      let (s', outcome) = authenticate nodes s b.now b.disk b.node b.presented in
      let (s'', outcomes) = binds s' bs in (s'', outcome ∷ outcomes)

  -- The attempt is by an unknown device, while the token is alive, and presents neither the token
  -- nor an invitation.
  pub record IsWrong (s : AuthState Node) (p : PendingToken) (b : Bind Node) : Type 0 where
    pub stranger : HashSet.contains s.inner.authenticated b.node ≡ false
    pub alive : b.now < p.expires_at
    pub mistaken : b.presented ≢ p.token_hex
    pub uninvited : HashMap.get s.inner.invitations b.presented ≡ none

  -- The outcomes of `n` failures: mismatches, and a revocation at the end.
  abbrev pub failures : ℕ → List BindOutcome
  failures zero = []
  failures (suc zero) = revoked ∷ []
  failures (suc (suc n)) = token_mismatch ∷ failures (suc n)

  wrong_step :
      (s : AuthState Node) (p : PendingToken) (b : Bind Node)
      → HashMap.IsMap s.inner.invitations
      → s.inner.pending ≡ some p
      → IsWrong s p b
      → authenticate nodes s b.now b.disk b.node b.presented ≡ no_match (pruned s b.now) (some p)
  wrong_step s p b v h w = go (authenticate-Attempt nodes s b.now b.disk b.node b.presented v)
    where
      go :
          {r : AuthState Node × BindOutcome}
          → Attempt nodes s b.now b.disk b.node b.presented r
          → r ≡ no_match (pruned s b.now) (some p)
      go (known old) = cc (w.stranger)
      go (token new (q, e', live, same)) = ground arith
      go (invited i new miss found live) = ground arith
      go (refused new miss gone) = rw (active_alive s.inner.pending p b.now h w.alive)

  -- the state after a failure that is not the last
  after_failure : AuthState Node → ℕ → AuthState Node
  after_failure s now = record s {
    inner = record (s.inner) {
      invitations = live_invitations now s.inner.invitations;
      failed_attempts = s.inner.failed_attempts + 1;
    };
  }

  no_match_early :
      (s : AuthState Node) (p : PendingToken) (now : ℕ)
      → s.max_attempts ≤ max_u32
      → s.inner.failed_attempts + 1 < s.max_attempts
      → no_match (pruned s now) (some p) ≡ (after_failure s now, token_mismatch)
  unfolding no_match after_failure
  no_match_early s p now l h = ground arith

  no_match_last :
      (s : AuthState Node) (p : PendingToken) (now : ℕ)
      → s.max_attempts ≤ max_u32
      → s.inner.failed_attempts + 1 ≡ s.max_attempts
      → ((no_match (pruned s now) (some p)).1 ≡ revoked)
        × ((no_match (pruned s now) (some p)).0.inner.pending ≡ none)
        × ((no_match (pruned s now) (some p)).0.inner.authenticated ≡ s.inner.authenticated)
  unfolding no_match
  no_match_last s p now l h = ground arith

  after_failure-IsWrong :
      (s : AuthState Node) (now : ℕ) (p : PendingToken) (bs : List (Bind Node))
      → HashMap.IsMap s.inner.invitations
      → All (IsWrong s p) bs
      → All (IsWrong (after_failure s now) p) bs
  unfolding after_failure
  after_failure-IsWrong s now p [] v h = tt
  after_failure-IsWrong s now p (b ∷ bs) v h = (
    record {
      stranger = h.0.stranger;
      alive = h.0.alive;
      mistaken = h.0.mistaken;
      uninvited = ground (arith, get-live now s.inner.invitations b.presented v, h.0.uninvited);
    },
    after_failure-IsWrong s now p bs v h.1,
  )

  -- Over a state whose invitations have distinct keys and whose bound is of type `u32`, let a token be
  -- pending and a number of attempts be left that is at least one. If that many
  -- attempts in a row are wrong, each but the last is answered by a mismatch and the last by a
  -- revocation; then no token is pending, and the authorized devices are the same.
  pub lockout :
      (s : AuthState Node) (p : PendingToken) (b : Bind Node) (bs : List (Bind Node))
      → HashMap.IsMap s.inner.invitations
      → s.inner.pending ≡ some p
      → s.max_attempts ≤ max_u32
      → s.inner.failed_attempts + length (b ∷ bs) ≡ s.max_attempts
      → All (IsWrong s p) (b ∷ bs)
      → ((binds s (b ∷ bs)).1 ≡ failures (length (b ∷ bs)))
        × ((binds s (b ∷ bs)).0.inner.pending ≡ none)
        × ((binds s (b ∷ bs)).0.inner.authenticated ≡ s.inner.authenticated)
  unfolding binds after_failure
  lockout s p b [] v h l n w =
      rw (wrong_step s p b v h w.0)
        (let (o, gone, same) = no_match_last s p b.now l (omega arith) in (rw o, gone, same))
  lockout s p b (c ∷ bs) v h l n w =
      rw (wrong_step s p b v h w.0, no_match_early s p b.now l (omega arith))
        (let (o, gone, same) =
            lockout (after_failure s b.now) p c bs (live-IsMap b.now s.inner.invitations v) h l
              (omega arith) (after_failure-IsWrong s b.now p (c ∷ bs) v w.1) in
          (rw o, gone, same))
