-- ===== src/Auth/Expulsion.antt =====
-- auth.rs: a revoked device after calls that overlap.
use raemote_server.HashSet
use raemote_server.Prelude.{
  ℕ, zero, suc, ◌<◌, ◌≡◌, refl, ap, ◌∙◌, subst, inl, inr, false, ◌&&◌, List, [], ◌∷◌, arith, Eq,
  ◌==◌, nat_instance, list_instance, option_instance, eq_self, Bool-cases, Option-cases, length,
  Option, none, some, All, All-append, some-injective,
}
use raemote_server.Text.{Text}
use raemote_server.Auth.State.{NodeIds, AuthState}
use raemote_server.Auth.Store.{Disk, Toml, replace_file, save_authorized, load_authorized, load_at}
use raemote_server.Auth.Operations.{
  entries, active_token, live_invitations, matches, scan_invitations, no_match, authorize,
  authenticate_locked, revoke_locked, mint_token_with, mint_invitation, is_authorized,
}
use raemote_server.Auth.Attempt.{pruned}
use raemote_server.Auth.Persistence.{healthy, load-save}
use raemote_server.Auth.Saving.{
  Shared, Act, attempt, removal, token, invitation, write, take_out, queue, act, interleave,
  IsTaken, attempt-IsTaken, removal-IsTaken, invitation-IsTaken,
}

-- no bind attempt of the device
abbrev pub IsOther : {Node : Type 0} → ⦃e : Eq Node⦄ → Node → Act Node → Type 0
IsOther j (attempt now node presented) = (node == j) ≡ false
IsOther j (removal node) = Unit
IsOther j (token now unix_now random ttl fixed) = Unit
IsOther j (invitation now unix_now random ttl node max_pending) = Unit
IsOther j (write i disk) = Unit

module _ {Node : Type 0} ⦃e : Eq Node⦄ (nodes : NodeIds Node) (j : Node) where
  -- entries of a set without the device
  abbrev Lacks : List Text → Type 0
  Lacks taken = (ids : List Node) × (taken ≡ entries nodes ids) × (HashSet.contains ids j ≡ false)

  abbrev IsOut : Shared Node → Type 0
  IsOut s = (HashSet.contains s.auth.inner.authenticated j ≡ false) × All Lacks s.waiting

  abbrev IsErased : Shared Node → Type 0
  IsErased s = HashSet.contains (load_authorized nodes s.auth.store) j ≡ false

  no_match-out :
      (s : AuthState Node) (active : _)
      → HashSet.contains s.inner.authenticated j ≡ false
      → HashSet.contains ((no_match s active).0).inner.authenticated j ≡ false
  unfolding no_match
  no_match-out s none h = h
  no_match-out s (some p) h = ground arith

  insert-out :
      (ids : List Node) (node : Node)
      → (node == j) ≡ false
      → HashSet.contains ids j ≡ false
      → HashSet.contains (HashSet.insert ids node) j ≡ false
  insert-out ids node other h = ground (arith, HashSet.contains-insert ids node j)

  attempt-out :
      (s : AuthState Node) (now : ℕ) (node : Node) (presented : Text)
      → (node == j) ≡ false
      → HashSet.contains s.inner.authenticated j ≡ false
      → HashSet.contains ((authenticate_locked nodes s now node presented).0).inner.authenticated j
        ≡ false
  unfolding authenticate_locked authorize
  attempt-out s now node presented other h =
      let live = live_invitations now s.inner.invitations in
      let grown = insert-out s.inner.authenticated node other h in
      elim (Bool-cases (HashSet.contains s.inner.authenticated node)) [
        | inl old ↦ rw old h
        | inr new ↦ elim (Bool-cases (matches (active_token now s.inner.pending) presented)) [
          | inl hit ↦ rw (new, hit) grown
          | inr miss ↦ elim (Option-cases (scan_invitations presented none live)) [
            | inl absent ↦
                rw (new, miss, absent)
                  (no_match-out (pruned s now) (active_token now s.inner.pending) h)
            | inr (found, there) ↦ rw (new, miss, there) grown
          ]
        ]
      ]

  removal-out :
      (s : AuthState Node) (node : Node)
      → HashSet.contains s.inner.authenticated j ≡ false
      → HashSet.contains ((revoke_locked nodes s node).0).inner.authenticated j ≡ false
  unfolding revoke_locked
  removal-out s node h = elim (Bool-cases (HashSet.contains s.inner.authenticated node)) [
    | inl old ↦ rw old (ground (arith, HashSet.contains-remove s.inner.authenticated node j))
    | inr new ↦ rw new h
  ]

  queue-Lacks :
      (s after : AuthState Node) (waiting : List (List Text)) (taken : Option (List Text))
      → IsTaken nodes s after taken
      → HashSet.contains after.inner.authenticated j ≡ false
      → All Lacks waiting
      → All Lacks (queue waiting taken)
  queue-Lacks s after waiting none t h l = l
  queue-Lacks s after waiting (some taken) (now, file) h l =
      All-append Lacks waiting (taken ∷ []) l ((after.inner.authenticated, now, h), tt)

  taken-IsErased :
      (s after : AuthState Node) (taken : Option (List Text))
      → IsTaken nodes s after taken
      → HashSet.contains (load_authorized nodes s.store) j ≡ false
      → HashSet.contains (load_authorized nodes after.store) j ≡ false
  taken-IsErased s after none (same, file) h = rw file h
  taken-IsErased s after (some taken) (now, file) h = rw file h

  take_out-Lacks :
      (i : ℕ) (waiting : List (List Text)) {taken : List Text} {rest : List (List Text)}
      → take_out i waiting ≡ some (taken, rest)
      → All Lacks waiting
      → Lacks taken × All Lacks rest
  unfolding take_out
  take_out-Lacks i [] h l = cc
  take_out-Lacks zero (w ∷ ws) {taken} {rest} h l =
      subst (λ (p : List Text × List (List Text)). Lacks p.0 × All Lacks p.1) (some-injective h) l
  take_out-Lacks (suc i) (w ∷ ws) {taken} {rest} h l = elim (Option-cases (take_out i ws)) [
    | inl missing ↦ cc
    | inr (p, found) ↦
        let (lacks, others) = take_out-Lacks i ws {taken = p.0} {rest = p.1} found l.1 in
        let same : (p.0, w ∷ p.1) ≡ (taken, rest) = some-injective (rw found at h) in
        subst (λ (q : List Text × List (List Text)). Lacks q.0 × All Lacks q.1) same
          (lacks, (l.0, others))
  ]

  take_out_total :
      (i : ℕ) (waiting : List (List Text))
      → i < length waiting
      → (p : List Text × List (List Text)) × (take_out i waiting ≡ some p)
  unfolding take_out
  take_out_total i [] h = ground arith
  take_out_total zero (w ∷ ws) h = ((w, ws), refl)
  take_out_total (suc i) (w ∷ ws) h =
      let (p, found) = take_out_total i ws (omega arith) in ((p.0, w ∷ p.1), rw found refl)

  -- a successful write of entries without the device
  written :
      (old : Option Text) (taken : List Text)
      → Lacks taken
      → HashSet.contains (load_authorized nodes (save_authorized healthy old taken).0) j ≡ false
  written old taken (ids, now, out) = rw now (load-save nodes old ids j ∙ out)

  any_written :
      (disk : Disk) (old : Option Text) (taken : List Text)
      → Lacks taken
      → HashSet.contains (load_authorized nodes old) j ≡ false
      → HashSet.contains (load_authorized nodes (save_authorized disk old taken).0) j ≡ false
  unfolding save_authorized replace_file
  any_written disk old taken lacks h = elim (Bool-cases (disk.can_write && disk.can_rename)) [
    | inl good ↦ rw good (written old taken lacks)
    | inr bad ↦ rw bad h
  ]

  act-IsOut : (s : Shared Node) (a : Act Node) → IsOther j a → IsOut s → IsOut (act nodes s a)
  unfolding act mint_token_with
  act-IsOut s (attempt now node presented) other (out, lacks) =
      let after = (authenticate_locked nodes s.auth now node presented).0 in
      let still = attempt-out s.auth now node presented other out in
      (
        still,
        queue-Lacks s.auth after s.waiting _ (attempt-IsTaken nodes s.auth now node presented) still
            lacks,
      )
  act-IsOut s (removal node) other (out, lacks) =
      let after = (revoke_locked nodes s.auth node).0 in
      let still = removal-out s.auth node out in
      (still, queue-Lacks s.auth after s.waiting _ (removal-IsTaken nodes s.auth node) still lacks)
  act-IsOut s (token now unix_now random ttl fixed) other (out, lacks) = (out, lacks)
  act-IsOut s (invitation now unix_now random ttl node max_pending) other (out, lacks) =
      let same = invitation-IsTaken nodes s.auth now unix_now random ttl node max_pending in
      (ap (λ (ids : List Node). HashSet.contains ids j) same.0 ∙ out, lacks)
  act-IsOut s (write i disk) other (out, lacks) = elim (Option-cases (take_out i s.waiting)) [
    | inl missing ↦ rw (missing, act) (out, lacks)
    | inr (p, found) ↦
        rw (found, act) (out, (take_out-Lacks i s.waiting {taken = p.0} {rest = p.1} found lacks).1)
  ]

  act-IsErased : (s : Shared Node) (a : Act Node) → IsOut s → IsErased s → IsErased (act nodes s a)
  unfolding act mint_token_with
  act-IsErased s (attempt now node presented) out h =
      taken-IsErased s.auth ((authenticate_locked nodes s.auth now node presented).0) _
        (attempt-IsTaken nodes s.auth now node presented) h
  act-IsErased s (removal node) out h =
      taken-IsErased s.auth ((revoke_locked nodes s.auth node).0) _
        (removal-IsTaken nodes s.auth node) h
  act-IsErased s (token now unix_now random ttl fixed) out h = h
  act-IsErased s (invitation now unix_now random ttl node max_pending) out h =
      taken-IsErased s.auth ((mint_invitation s.auth now unix_now random ttl node max_pending).0)
        none (invitation-IsTaken nodes s.auth now unix_now random ttl node max_pending) h
  act-IsErased s (write i disk) (out, lacks) h = elim (Option-cases (take_out i s.waiting)) [
    | inl missing ↦ rw (missing, act) h
    | inr (p, found) ↦
        rw (found, act)
          (any_written disk s.auth.store p.0
            ((take_out-Lacks i s.waiting {taken = p.0} {rest = p.1} found lacks).0) h)
  ]

  interleave-IsOut :
      (s : Shared Node) (acts : List (Act Node))
      → All (IsOther j) acts
      → IsOut s
      → IsOut (interleave nodes s acts)
  unfolding interleave
  interleave-IsOut s [] o h = h
  interleave-IsOut s (a ∷ acts) o h =
      interleave-IsOut (act nodes s a) acts o.1 (act-IsOut s a o.0 h)

  interleave-IsErased :
      (s : Shared Node) (acts : List (Act Node))
      → All (IsOther j) acts
      → IsOut s
      → IsErased s
      → IsErased (interleave nodes s acts)
  unfolding interleave
  interleave-IsErased s [] o out h = h
  interleave-IsErased s (a ∷ acts) o out h =
      interleave-IsErased (act nodes s a) acts o.1 (act-IsOut s a o.0 out) (act-IsErased s a out h)

  write-IsErased :
      (s : Shared Node) (i : ℕ)
      → i < length s.waiting
      → IsOut s
      → IsErased (act nodes s (write i healthy))
  unfolding act
  write-IsErased s i h (out, lacks) =
      let (p, found) = take_out_total i s.waiting h in
      rw (found, act)
        (written s.auth.store p.0
          ((take_out-Lacks i s.waiting {taken = p.0} {rest = p.1} found lacks).0))

  removal-IsOut : (s : Shared Node) → s.waiting ≡ [] → IsOut (act nodes s (removal j))
  unfolding act revoke_locked
  removal-IsOut s bare = elim (Bool-cases (HashSet.contains s.auth.inner.authenticated j)) [
    | inl old ↦
        let gone : HashSet.contains (HashSet.remove s.auth.inner.authenticated j) j ≡ false =
          ground (arith, HashSet.contains-remove s.auth.inner.authenticated j j, eq_self j) in
        rw (old, bare) (gone, ((_, refl, gone), tt))
    | inr new ↦ rw (new, bare) (new, tt)
  ]

  -- If a device is revoked while no save waits, and from then on bind attempts of other devices,
  -- revocations, new tokens, new invitations and saves run interleaved, a save being apart from the call
  -- that it is of, in any order and with any outcome: once a save that waited has succeeded, no restart
  -- authorizes the device.
  pub restart-removal :
      (toml : Toml) (s : Shared Node) (before after : List (Act Node)) (i max_attempts : ℕ)
      → s.waiting ≡ []
      → All (IsOther j) before
      → All (IsOther j) after
      → i < length (interleave nodes (act nodes s (removal j)) before).waiting
      → let saved =
          act nodes (interleave nodes (act nodes s (removal j)) before) (write i healthy) in
        let end = (interleave nodes saved after).auth in
        is_authorized (load_at nodes toml end.store end.names_file max_attempts) j ≡ false
  unfolding is_authorized load_at
  restart-removal toml s before after i max_attempts bare o o' h =
      let removed = interleave-IsOut (act nodes s (removal j)) before o (removal-IsOut s bare) in
      let mid = interleave nodes (act nodes s (removal j)) before in
      interleave-IsErased (act nodes mid (write i healthy)) after o'
        (act-IsOut mid (write i healthy) tt removed) (write-IsErased mid i h removed)
