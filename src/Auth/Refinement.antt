-- ===== src/Auth/Refinement.antt =====
-- auth.rs: the authorization state does what its policy says.
use raemote_server.Prelude.{
  ℕ, ◌+◌, ◌%◌, ◌^◌, ◌<◌, ◌≡◌, refl, sym, ap, ◌∙◌, inl, inr, true, false, ◌||◌, arith, Eq, ◌==◌,
  nat_instance, list_instance, option_instance, eq_iff, Bool-cases, Option-cases, Option, none,
  some, is_some, option_filter, ltb, leb,
}
use raemote_server.HashMap
use raemote_server.Text.{Text}
use raemote_server.Auth.State.{BindOutcome, NodeIds, PendingToken, Invitation, AuthState, max_u32}
use raemote_server.Auth.Store.{Disk, Toml}
use raemote_server.Auth.Operations.{active_token, is_authorized, no_match, grant, authorize}
use raemote_server.Auth.Attempt.{
  pruned, spent, HoldsToken, Redeemable, Attempt, known, token, invited, refused, get-live,
}
use raemote_server.Auth.Access.{is_authorized-grant}
use raemote_server.Auth.Invariant
use raemote_server.Auth.Policy.{
  Policy, live, is_active, is_token, expire, admit, spend, miss, attempt,
}

abbrev pub token_of : Option PendingToken → Option (Text × ℕ)
token_of none = none
token_of (some t) = some (t.token_hex, t.expires_at)

abbrev pub expiry_of : {Node : Type 0} → Option (Invitation Node) → Option ℕ
expiry_of none = none
expiry_of (some i) = some i.expires_at

pub record Implements {Node : Type 0} ⦃e : Eq Node⦄ (s : AuthState Node) (p : Policy Node)
    : Type 0 where
  pub allows : (node : Node) → is_authorized s node ≡ p.allows node
  pub token : token_of s.inner.pending ≡ p.token
  pub invites : (text : Text) → expiry_of (HashMap.get s.inner.invitations text) ≡ p.invites text
  pub failures : s.inner.failed_attempts ≡ p.failures
  pub limit : s.max_attempts ≡ p.bound_on_failures

pub expiry_of-filter :
    {Node : Type 0} (now : ℕ) (i : Option (Invitation Node))
    → expiry_of (option_filter (λ i. ltb now i.expires_at) i) ≡ live now (expiry_of i)
expiry_of-filter now none = refl
expiry_of-filter now (some i) = ground arith

is_active-token_of :
    (now : ℕ) (t : Option PendingToken) → is_some (active_token now t) ≡ is_active now (token_of t)
unfolding active_token
is_active-token_of now none = refl
is_active-token_of now (some t) = ground arith

active-pending :
    (now : ℕ) (t : Option PendingToken) → is_some (active_token now t) ≡ true → is_some t ≡ true
unfolding active_token
active-pending now none h = cc
active-pending now (some t) h = refl

module _ {Node : Type 0} ⦃e : Eq Node⦄ (nodes : NodeIds Node) (toml : Toml) where
  pub pruned-Implements :
      (s : AuthState Node) (p : Policy Node) (now : ℕ)
      → HashMap.IsMap s.inner.invitations
      → Implements s p
      → Implements (pruned s now) (expire now p)
  unfolding is_authorized
  pruned-Implements s p now v r = record {
    allows = r.allows;
    token = r.token;
    invites = λ text.
        ap expiry_of (get-live now s.inner.invitations text v)
        ∙ (expiry_of-filter now (HashMap.get s.inner.invitations text)
            ∙ ap (live now) (r.invites text));
    failures = r.failures;
    limit = r.limit;
  }

  spent-Implements :
      (s : AuthState Node) (p : Policy Node) (text : Text)
      → Implements s p
      → Implements (spent s text) (spend text p)
  unfolding is_authorized
  spent-Implements s p used r = record {
    allows = r.allows;
    token = r.token;
    invites =
        λ text. ground (arith, HashMap.get-remove s.inner.invitations used text, r.invites text);
    failures = r.failures;
    limit = r.limit;
  }

  grant-Implements :
      (s : AuthState Node) (p : Policy Node) (disk : Disk) (node : Node)
      → Implements s p
      → Implements (grant nodes s disk node) (admit node p)
  unfolding grant authorize
  grant-Implements s p disk node r = record {
    allows = λ j. is_authorized-grant nodes s disk node j ∙ ap (λ b. node == j || b) (r.allows j);
    token = r.token;
    invites = r.invites;
    failures = refl;
    limit = r.limit;
  }

  no_match-Implements :
      (s : AuthState Node) (p : Policy Node) (active : Option PendingToken)
      → (is_some active ≡ true → s.inner.failed_attempts < max_u32)
      → Implements s p
      → Implements (no_match s active).0 (miss (is_some active) p).0
        × ((no_match s active).1 ≡ (miss (is_some active) p).1)
  unfolding no_match is_authorized
  no_match-Implements s p none few r = (
    record {
      allows = r.allows;
      token = refl;
      invites = r.invites;
      failures = r.failures;
      limit = r.limit;
    },
    refl,
  )
  no_match-Implements s p (some t) few r =
      let counted : (s.inner.failed_attempts + 1) % 2 ^ 32 ≡ p.failures + 1 =
        omega (arith, few refl, r.failures) in
      rw (counted, r.limit)
        (elim (Bool-cases (leb p.bound_on_failures (p.failures + 1))) [
          | inl spent_up ↦ rw spent_up (
            record {
              allows = r.allows;
              token = refl;
              invites = r.invites;
              failures = refl;
              limit = refl;
            },
            refl,
          )
          | inr left ↦ rw left (
            record {
              allows = r.allows;
              token = r.token;
              invites = r.invites;
              failures = refl;
              limit = refl;
            },
            refl,
          )
        ])

  HoldsToken-is_token :
      (t : Option PendingToken) (now : ℕ) (presented : Text)
      → HoldsToken t now presented
      → is_token now presented (token_of t) ≡ true
  HoldsToken-is_token none now presented (t, e', live', same) = cc
  HoldsToken-is_token (some t) now presented (t', e', live', same) =
      ground (arith, eq_iff presented t.token_hex)

  is_token-HoldsToken :
      (t : Option PendingToken) (now : ℕ) (presented : Text)
      → is_token now presented (token_of t) ≡ true
      → HoldsToken t now presented
  is_token-HoldsToken none now presented h = cc
  is_token-HoldsToken (some t) now presented h =
      (t, refl, ground arith, ground (arith, eq_iff presented t.token_hex))

  no_token :
      (s : AuthState Node) (p : Policy Node) (now : ℕ) (presented : Text)
      → Implements s p
      → ¬ HoldsToken s.inner.pending now presented
      → is_token now presented p.token ≡ false
  no_token s p now presented m other = elim (Bool-cases (is_token now presented p.token)) [
    | inl held ↦
        absurd
          (other (is_token-HoldsToken _ now presented (ap (is_token now presented) m.token ∙ held)))
    | inr free ↦ free
  ]

  no_invite :
      (s : AuthState Node) (p : Policy Node) (now : ℕ) (presented : Text)
      → Implements s p
      → ¬ Redeemable s.inner.invitations now presented
      → live now (p.invites presented) ≡ none
  no_invite s p now presented m gone =
      elim (Option-cases (HashMap.get s.inner.invitations presented)) [
        | inl absent ↦ ground (arith, m.invites presented)
        | inr (i, found) ↦ elim (Bool-cases (ltb now i.expires_at)) [
          | inl alive ↦ absurd (gone (i, found, ground arith))
          | inr dead ↦ ground (arith, m.invites presented)
        ]
      ]

  -- a result that the policy has too
  abbrev pub Agrees : AuthState Node × BindOutcome → Policy Node × BindOutcome → Type 0
  Agrees r q = Implements r.0 q.0 × (r.1 ≡ q.1)

  pub Attempt-Implements :
      (s : AuthState Node) (p : Policy Node) (now : ℕ) (disk : Disk) (node : Node)
      (presented : Text) {r : AuthState Node × BindOutcome}
      → Invariant.IsValid s
      → Implements s p
      → Attempt nodes s now disk node presented r
      → Agrees r (attempt now node presented p)
  unfolding is_authorized
  Attempt-Implements s p now disk node presented v m (known old) =
      rw (sym (m.allows node) ∙ old) (m, refl)
  Attempt-Implements s p now disk node presented v m (token new h) =
      let held =
        ap (is_token now presented) (sym m.token) ∙ HoldsToken-is_token _ now presented h in
      rw (sym (m.allows node) ∙ new, held)
        (grant-Implements _ _ disk node (pruned-Implements s p now v.invites m), refl)
  Attempt-Implements s p now disk node presented v m (invited i new other found alive) =
      let not_token = no_token s p now presented m other in
      let redeemable : live now (p.invites presented) ≡ some i.expires_at =
        ground (arith, m.invites presented) in
      rw (sym (m.allows node) ∙ new, not_token, redeemable)
        (
          grant-Implements _ _ disk node
              (spent-Implements _ _ presented (pruned-Implements s p now v.invites m)),
          refl,
        )
  Attempt-Implements s p now disk node presented v m (refused new other gone) =
      let not_token = no_token s p now presented m other in
      let dead : live now (p.invites presented) ≡ none = no_invite s p now presented m gone in
      let active = sym (is_active-token_of now s.inner.pending ∙ ap (is_active now) m.token) in
      rw (sym (m.allows node) ∙ new, not_token, dead, active)
        (no_match-Implements (pruned s now) (expire now p) (active_token now s.inner.pending)
          (λ h. v.attempts (active-pending now s.inner.pending h))
          (pruned-Implements s p now v.invites m))
