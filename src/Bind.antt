-- ===== src/Bind.antt =====
-- bind.rs: the pairing protocol. A connection arrives with the number of free permits of the
-- semaphore and what its stream delivers before the ten seconds are over. `from_utf8_lossy` is a
-- parameter, and so are the printed node ids.
use raemote_server.Prelude.{
  ℕ, zero, suc, ◌≤◌, ◌≡◌, ◌≢◌, refl, ap, ◌∙◌, subst, ◌↔◌, ◌⊎◌, inl, inr, true, false, List, [],
  ◌++◌, arith, Eq, nat_instance, list_instance, eq_iff, eq_self, if◌then◌else◌, Bool-cases, length,
  Option, some, ltb,
}
use raemote_server.HashMap
use raemote_server.Text.{Text, codes, trim}
use raemote_server.Text.Trim
use raemote_server.Auth.State.{
  BindOutcome, bound, bound_via_invitation, already_authorized, no_active_token, token_mismatch,
  revoked, is_allowed, deny_reason, NodeIds, AuthState, PendingToken,
}
use raemote_server.Auth.Store.{Disk}
use raemote_server.Auth.Operations.{is_authorized, authenticate}
use raemote_server.Auth.Access
use raemote_server.Auth.Attempt.{HoldsToken, Redeemable}

abbrev pub max_bind_request : ℕ
max_bind_request = 512

-- What becomes of the reply: it is written, or writing fails, or the time is up before.
pub data Sending : Type 0 where
  written write_failed late : Sending

-- What the stream delivers: nothing before the timeout, an error, or bytes.
pub data Exchange : Type 0 where
  silent broken : Exchange
  received : (bytes : List ℕ) → (sending : Sending) → Exchange

pub data Ending : Type 0 where
  closed : (error_code : ℕ) → (reason : Text) → Ending
  failed : Ending
  replied : Text → Ending

abbrev pub reply : BindOutcome → Text
reply outcome =
    if is_allowed outcome
    then codes "OK\n"
    else codes "DENY " ++ (deny_reason outcome ++ codes "\n")

abbrev text_of : Ending → Text
text_of (replied t) = t
text_of failed = []
text_of (closed error_code reason) = []

abbrev timeout : Ending
timeout = closed 408 (codes "bind timeout")

unfoldable pub ending : Sending → BindOutcome → Ending
ending written outcome = replied (reply outcome)
ending write_failed outcome = failed
ending late outcome = timeout

module _ {Node : Type 0} ⦃e : Eq Node⦄ (nodes : NodeIds Node)
    (from_utf8_lossy : List ℕ → Text) where
  unfoldable pub accept :
      AuthState Node → (permits now : ℕ) → Disk → Node → Exchange → AuthState Node × Ending
  accept s zero now disk node x = (s, closed 503 (codes "too many bind connections"))
  accept s (suc permits) now disk node silent = (s, timeout)
  accept s (suc permits) now disk node broken = (s, failed)
  accept s (suc permits) now disk node (received bytes sending) =
      let presented = trim (from_utf8_lossy bytes) in
      let (s', outcome) = authenticate nodes s now disk node presented in
      if ltb max_bind_request (length bytes) then (s, failed) else (s', ending sending outcome)

  reply_iff : (o : BindOutcome) → (reply o ≡ codes "OK\n") ↔ (is_allowed o ≡ true)
  unfolding deny_reason
  reply_iff bound = (λ h. refl, λ h. refl)
  reply_iff bound_via_invitation = (λ h. refl, λ h. refl)
  reply_iff already_authorized = (λ h. refl, λ h. refl)
  reply_iff no_active_token = (λ h. ground arith, λ h. ground arith)
  reply_iff token_mismatch = (λ h. ground arith, λ h. ground arith)
  reply_iff revoked = (λ h. ground arith, λ h. ground arith)

  is_authorized_after :
      (s : AuthState Node) (now : ℕ) (disk : Disk) (node : Node) (presented : Text)
      → HashMap.IsMap s.inner.invitations
      → is_authorized (authenticate nodes s now disk node presented).0 node
        ≡ is_allowed (authenticate nodes s now disk node presented).1
  is_authorized_after s now disk node presented v =
      let old = (Access.is_allowed-authenticate_iff nodes s now disk node presented v).1 in
      elim (Bool-cases (is_authorized s node)) [
        | inl old_one ↦ ground (
          arith,
          Access.is_authorized-authenticate nodes s now disk node presented node v,
          old (inl old_one),
        )
        | inr new ↦ ground (
          arith,
          Access.is_authorized-authenticate nodes s now disk node presented node v,
          eq_self node,
        )
      ]

  -- Over a state whose invitations have distinct keys, where a permit is free, the request is short
  -- enough and the reply is written, the reply is "OK" exactly if the device is authorized
  -- afterwards.
  pub accept-ok_iff :
      (s : AuthState Node) (permits now : ℕ) (disk : Disk) (node : Node) (bytes : List ℕ)
      → HashMap.IsMap s.inner.invitations
      → length bytes ≤ max_bind_request
      → ((accept s (suc permits) now disk node (received bytes written)).1 ≡ replied (codes "OK\n"))
        ↔ (is_authorized (accept s (suc permits) now disk node (received bytes written)).0 node
            ≡ true)
  unfolding accept ending
  accept-ok_iff s permits now disk node bytes v l =
      let presented = trim (from_utf8_lossy bytes) in
      let o = (authenticate nodes s now disk node presented).1 in
      let after = is_authorized_after s now disk node presented v in
      let short : ltb max_bind_request (length bytes) ≡ false = ground arith in
      rw (short, accept, after)
        (λ h. (reply_iff o).0 (ap text_of h), λ h. ap replied ((reply_iff o).1 h))

  -- Over a state whose invitations have distinct keys: a connection changes the authorization of no
  -- device but the one that connects, and takes it from none.
  pub is_authorized-accept :
      (s : AuthState Node) (permits now : ℕ) (disk : Disk) (node j : Node) (x : Exchange)
      → HashMap.IsMap s.inner.invitations
      → (is_authorized (accept s permits now disk node x).0 j ≡ is_authorized s j)
        ⊎ ((j ≡ node) × (is_authorized (accept s permits now disk node x).0 j ≡ true))
  unfolding accept
  is_authorized-accept s zero now disk node j x v = inl refl
  is_authorized-accept s (suc permits) now disk node j silent v = inl refl
  is_authorized-accept s (suc permits) now disk node j broken v = inl refl
  is_authorized-accept s (suc permits) now disk node j (received bytes sending) v =
      let presented = trim (from_utf8_lossy bytes) in
      elim (Bool-cases (ltb max_bind_request (length bytes))) [
        | inl long ↦ rw (long, accept) (inl refl)
        | inr short ↦
            rw (short, accept)
              (let after = Access.is_authorized-authenticate nodes s now disk node presented j v in
                ground (arith, after, eq_iff node j))
      ]

  token_only :
      (s : AuthState Node) (now : ℕ) (disk : Disk) (node : Node) (presented : Text)
      → HashMap.IsMap s.inner.invitations
      → is_authorized s node ≡ false
      → ¬ HoldsToken s.inner.pending now presented
      → ((t : Text) → ¬ Redeemable s.inner.invitations now t)
      → is_authorized (authenticate nodes s now disk node presented).0 node ≡ false
  token_only s now disk node presented v new miss gone =
      is_authorized_after s now disk node presented v
      ∙ elim (Bool-cases (is_allowed (authenticate nodes s now disk node presented).1)) [
        | inr refused ↦ refused
        | inl allowed ↦
            elim ((Access.is_allowed-authenticate_iff nodes s now disk node presented v).0
              allowed) [
                | inl old ↦ cc (old, new)
                | inr (inl held) ↦ absurd (miss held)
                | inr (inr gift) ↦ absurd (gone presented gift)
              ]
      ]

  trimmed-HoldsToken :
      (text : Text) (now : ℕ) (p : PendingToken) (pending : Option PendingToken)
      → pending ≡ some p
      → trim p.token_hex ≢ p.token_hex
      → ¬ HoldsToken pending now (trim text)
  trimmed-HoldsToken text now p pending e u (q, e', live, same) =
      let own : q.token_hex ≡ p.token_hex = cc in
      u (subst (λ t. trim t ≡ t) (same ∙ own) (Trim.trim_idem text))

  -- Over a state whose invitations have distinct keys and none of which can be redeemed: if the
  -- pending token differs from its own trimmed form, then no connection of the pairing protocol,
  -- whatever it sends, authorizes a device that is not authorized.
  pub untrimmed_token_useless :
      (s : AuthState Node) (permits now : ℕ) (disk : Disk) (node : Node) (x : Exchange)
      (p : PendingToken)
      → HashMap.IsMap s.inner.invitations
      → ((t : Text) → ¬ Redeemable s.inner.invitations now t)
      → s.inner.pending ≡ some p
      → trim p.token_hex ≢ p.token_hex
      → is_authorized s node ≡ false
      → is_authorized (accept s permits now disk node x).0 node ≡ false
  unfolding accept
  untrimmed_token_useless s zero now disk node x p v gone e u new = new
  untrimmed_token_useless s (suc permits) now disk node silent p v gone e u new = new
  untrimmed_token_useless s (suc permits) now disk node broken p v gone e u new = new
  untrimmed_token_useless s (suc permits) now disk node (received bytes sending) p v gone e u new =
      let text = from_utf8_lossy bytes in
      elim (Bool-cases (ltb max_bind_request (length bytes))) [
        | inl long ↦ rw (long, accept) new
        | inr short ↦
            rw (short, accept)
              (token_only s now disk node (trim text) v new
                (trimmed-HoldsToken text now p s.inner.pending e u) gone)
      ]
