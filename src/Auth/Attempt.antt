-- ===== src/Auth/Attempt.antt =====
-- auth.rs: the ways in which `authenticate` can go, with the comparison of bytes read as equality of
-- texts and the scan of the invitations read as a lookup.
use raemote_server.HashMap
use raemote_server.HashSet
use raemote_server.Prelude.{
  ℕ, ◌<◌, ◌≡◌, refl, ◌∙◌, inl, inr, true, false, List, [], ◌∷◌, arith, Eq, ◌==◌, nat_instance,
  list_instance, eq_iff, Bool-cases, Option-cases, Option, none, some, option_filter, ltb,
}
use raemote_server.Text.{Text}
use raemote_server.Auth.Secret.{constant_time_eq-as_bytes}
use raemote_server.Auth.State.{
  BindOutcome, bound, bound_via_invitation, already_authorized, NodeIds, PendingToken, Invitation,
  AuthState,
}
use raemote_server.Auth.Store.{Disk}
use raemote_server.Auth.Operations.{
  finish, granted, authenticate_locked, active_token, live_invitations, matches, scan_invitations,
  no_match, grant, authenticate,
}

-- the unexpired pairing token is the presented text
abbrev pub HoldsToken : Option PendingToken → ℕ → Text → Type 0
HoldsToken pending now presented =
    (p : PendingToken) × (pending ≡ some p) × (now < p.expires_at) × (presented ≡ p.token_hex)

abbrev pub pruned : {Node : Type 0} → AuthState Node → ℕ → AuthState Node
pruned s now = record s {
  inner = record (s.inner) { invitations = live_invitations now s.inner.invitations };
}

-- an unexpired invitation is kept under the presented text
abbrev pub Redeemable : {Node : Type 0} → List (Text × Invitation Node) → ℕ → Text → Type 0
Redeemable {Node} m now presented =
    (i : Invitation Node) × (HashMap.get m presented ≡ some i) × (now < i.expires_at)

-- the state without the invitation
abbrev pub spent : {Node : Type 0} → AuthState Node → Text → AuthState Node
spent s token_hex = record s {
  inner = record (s.inner) { invitations = HashMap.remove s.inner.invitations token_hex };
}

module _ {Node : Type 0} where
  scan_absent :
      (presented : Text) (matched : Option (Text × Node)) (m : List (Text × Invitation Node))
      → HashMap.get m presented ≡ none
      → scan_invitations presented matched m ≡ matched
  unfolding scan_invitations HashMap.get
  scan_absent presented matched [] h = refl
  scan_absent presented matched ((t, i) ∷ m) h = elim (Bool-cases (presented == t)) [
    | inl same ↦ ground (arith, eq_iff presented t, eq_iff t presented)
    | inr other ↦
        rw (constant_time_eq-as_bytes presented t, other)
          (scan_absent presented matched m (ground (arith, eq_iff presented t, eq_iff t presented)))
  ]

  -- The scan finds the invitation that a lookup finds.
  scan-get :
      (presented : Text) (matched : Option (Text × Node)) (m : List (Text × Invitation Node))
      {i : Invitation Node}
      → HashMap.IsMap m
      → HashMap.get m presented ≡ some i
      → scan_invitations presented matched m ≡ some (presented, i.created_by)
  unfolding scan_invitations HashMap.get
  scan-get presented matched [] v h = cc
  scan-get presented matched ((t, j) ∷ m) {i} v h = elim (Bool-cases (presented == t)) [
    | inl same ↦
        let e : presented ≡ t = (eq_iff presented t).0 same in
        rw (constant_time_eq-as_bytes presented t, same)
          (scan_absent presented (some (t, j.created_by)) m (ground (arith, eq_iff t presented))
            ∙ ground (arith, eq_iff t presented))
    | inr other ↦
        rw (constant_time_eq-as_bytes presented t, other)
          (scan-get presented matched m {i = i} v.1
            (ground (arith, eq_iff presented t, eq_iff t presented)))
  ]

pub live-IsMap :
    {Node : Type 0} (now : ℕ) (m : List (Text × Invitation Node))
    → HashMap.IsMap m
    → HashMap.IsMap (live_invitations now m)
unfolding live_invitations
live-IsMap now m v = HashMap.retain-IsMap _ m v

pub get-live :
    {Node : Type 0} (now : ℕ) (m : List (Text × Invitation Node)) (k : Text)
    → HashMap.IsMap m
    → HashMap.get (live_invitations now m) k
      ≡ option_filter (λ i. ltb now i.expires_at) (HashMap.get m k)
unfolding live_invitations
get-live now m k v = HashMap.get-retain _ m k v

live-Redeemable :
    {Node : Type 0} (now : ℕ) (m : List (Text × Invitation Node)) (k : Text)
    → HashMap.IsMap m
    → {i : Invitation Node} → HashMap.get (live_invitations now m) k ≡ some i
    → (HashMap.get m k ≡ some i) × (now < i.expires_at)
live-Redeemable now m k v h = ground (arith, get-live now m k v)

not_Redeemable :
    {Node : Type 0} (now : ℕ) (m : List (Text × Invitation Node)) (k : Text)
    → HashMap.IsMap m
    → HashMap.get (live_invitations now m) k ≡ none
    → ¬ Redeemable m now k
not_Redeemable now m k v h (i, found, live) = ground (arith, get-live now m k v)

matches-HoldsToken :
    (pending : Option PendingToken) (now : ℕ) (presented : Text)
    → matches (active_token now pending) presented ≡ true
    → HoldsToken pending now presented
unfolding matches active_token
matches-HoldsToken none now presented h = cc
matches-HoldsToken (some p) now presented h = elim (Bool-cases (ltb now p.expires_at)) [
  | inl live ↦ (
    p,
    refl,
    ground arith,
    (eq_iff presented p.token_hex).0 (rw (live, constant_time_eq-as_bytes) at h),
  )
  | inr dead ↦ ground arith
]

HoldsToken-matches :
    (pending : Option PendingToken) (now : ℕ) (presented : Text)
    → HoldsToken pending now presented
    → matches (active_token now pending) presented ≡ true
unfolding matches active_token
HoldsToken-matches none now presented (p, e, live, same) = cc
HoldsToken-matches (some q) now presented (p, e, live, same) =
    ground (arith, constant_time_eq-as_bytes presented q.token_hex, eq_iff presented q.token_hex)

module _ {Node : Type 0} ⦃e : Eq Node⦄ (nodes : NodeIds Node) (s : AuthState Node) (now : ℕ)
    (disk : Disk) (node : Node) (presented : Text) where
  pub data Attempt : AuthState Node × BindOutcome → Type 0 where
    known : HashSet.contains s.inner.authenticated node ≡ true → Attempt (s, already_authorized)
    token :
        HashSet.contains s.inner.authenticated node ≡ false
        → HoldsToken s.inner.pending now presented
        → Attempt (grant nodes (pruned s now) disk node, bound)
    invited :
        (i : Invitation Node)
        → HashSet.contains s.inner.authenticated node ≡ false
        → ¬ HoldsToken s.inner.pending now presented
        → HashMap.get s.inner.invitations presented ≡ some i
        → now < i.expires_at
        → Attempt (grant nodes (spent (pruned s now) presented) disk node, bound_via_invitation)
    refused :
        HashSet.contains s.inner.authenticated node ≡ false
        → ¬ HoldsToken s.inner.pending now presented
        → ¬ Redeemable s.inner.invitations now presented
        → Attempt (no_match (pruned s now) (active_token now s.inner.pending))

  by_invitation :
      HashMap.IsMap s.inner.invitations
      → HashSet.contains s.inner.authenticated node ≡ false
      → ¬ HoldsToken s.inner.pending now presented
      → Attempt (
          finish nodes disk
            (elim (scan_invitations presented none (live_invitations now s.inner.invitations)) [
              | some (token_hex, created_by) ↦
                  granted nodes (spent (pruned s now) token_hex) node bound_via_invitation
              | none ↦ (
                (no_match (pruned s now) (active_token now s.inner.pending)).0,
                (none, (no_match (pruned s now) (active_token now s.inner.pending)).1),
              )
            ]))
  unfolding grant
  by_invitation v new miss =
      let m = s.inner.invitations in
      elim (Option-cases (HashMap.get (live_invitations now m) presented)) [
        | inl gone ↦
            rw (scan_absent presented none _ gone)
              (refused new miss (not_Redeemable now m presented v gone))
        | inr (i, found) ↦
            let (kept, live) = live-Redeemable now m presented v found in
            rw (scan-get presented none _ (live-IsMap now m v) found) (invited i new miss kept live)
      ]

  pub authenticate-Attempt :
      HashMap.IsMap s.inner.invitations → Attempt (authenticate nodes s now disk node presented)
  unfolding authenticate authenticate_locked grant
  authenticate-Attempt v = elim (Bool-cases (HashSet.contains s.inner.authenticated node)) [
    | inl old ↦ rw old (known old)
    | inr new ↦ elim (Bool-cases (matches (active_token now s.inner.pending) presented)) [
      | inl hit ↦ rw (new, hit) (token new (matches-HoldsToken s.inner.pending now presented hit))
      | inr miss ↦
          rw (new, miss) (by_invitation v new (λ h. cc (HoldsToken-matches _ now presented h)))
    ]
  ]
