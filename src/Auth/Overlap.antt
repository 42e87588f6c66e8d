-- ===== src/Auth/Overlap.antt =====
-- auth.rs: what a restart finds after calls that overlap.
use raemote_server.HashSet
use raemote_server.Prelude.{
  ℕ, ◌≡◌, refl, sym, ap, ◌∙◌, List, [], ◌∷◌, ◌++◌, Eq, nat_instance, list_instance, option_instance,
  Option, none, some, All,
}
use raemote_server.Text.{Text}
use raemote_server.Auth.State.{NodeIds, AuthState}
use raemote_server.Auth.Store.{Toml, load_authorized, load_at}
use raemote_server.Auth.Operations.{
  entries, authenticate_locked, revoke_locked, mint_token_with, mint_invitation, is_authorized,
}
use raemote_server.Auth.Persistence.{healthy, Synced, load-save}
use raemote_server.Auth.Saving.{
  Shared, Act, attempt, removal, token, invitation, write, take_out, queue, act, interleave,
  IsTaken, attempt-IsTaken, removal-IsTaken, invitation-IsTaken,
}

abbrev last : List Text → List (List Text) → List Text
last w [] = w
last w (x ∷ ws) = last x ws

last-snoc : (w x : List Text) (ws : List (List Text)) → last w (ws ++ x ∷ []) ≡ x
last-snoc w x [] = refl
last-snoc w x (y ∷ ws) = last-snoc y x ws

-- Saves that run in the order of the calls, and succeed.
abbrev pub IsInOrder : {Node : Type 0} → Act Node → Type 0
IsInOrder (write i disk) = (i ≡ 0) × (disk ≡ healthy)
IsInOrder (attempt now node presented) = Unit
IsInOrder (removal node) = Unit
IsInOrder (token now unix_now random ttl fixed) = Unit
IsInOrder (invitation now unix_now random ttl node max_pending) = Unit

module _ {Node : Type 0} ⦃e : Eq Node⦄ (nodes : NodeIds Node) where
  -- The newest entries, where some wait, are those of the set, and else the file has them.
  abbrev IsFresh : AuthState Node → List (List Text) → Type 0
  IsFresh auth [] = Synced nodes auth
  IsFresh auth (w ∷ ws) = last w ws ≡ entries nodes auth.inner.authenticated

  queue-IsFresh :
      (s after : AuthState Node) (waiting : List (List Text)) (taken : Option (List Text))
      → IsTaken nodes s after taken
      → IsFresh s waiting
      → IsFresh after (queue waiting taken)
  queue-IsFresh s after [] none (same, file) f = λ j.
      ap (λ (t : Option Text). HashSet.contains (load_authorized nodes t) j) file
      ∙ f j
      ∙ ap (λ (ids : List Node). HashSet.contains ids j) (sym same)
  queue-IsFresh s after (w ∷ ws) none (same, file) f = f ∙ ap (entries nodes) (sym same)
  queue-IsFresh s after [] (some taken) (now, file) f = now
  queue-IsFresh s after (w ∷ ws) (some taken) (now, file) f = last-snoc w taken ws ∙ now

  same-IsFresh :
      (s after : AuthState Node) (waiting : List (List Text))
      → IsTaken nodes s after none
      → IsFresh s waiting
      → IsFresh after waiting
  same-IsFresh s after waiting t f = queue-IsFresh s after waiting none t f

  write-IsFresh :
      (auth : AuthState Node) (waiting : List (List Text))
      → IsFresh auth waiting
      → let s = act nodes (record { auth = auth; waiting = waiting }) (write 0 healthy) in
        IsFresh s.auth s.waiting
  unfolding act take_out
  write-IsFresh auth [] f = f
  write-IsFresh auth (w ∷ []) f = λ j. rw f (load-save nodes auth.store auth.inner.authenticated j)
  write-IsFresh auth (w ∷ x ∷ ws) f = f

  act-IsFresh :
      (s : Shared Node) (a : Act Node)
      → IsInOrder a
      → IsFresh s.auth s.waiting
      → let s' = act nodes s a in IsFresh s'.auth s'.waiting
  unfolding act mint_token_with
  act-IsFresh s (attempt now node presented) o f =
      queue-IsFresh s.auth (authenticate_locked nodes s.auth now node presented).0 s.waiting _
        (attempt-IsTaken nodes s.auth now node presented) f
  act-IsFresh s (removal node) o f =
      queue-IsFresh s.auth (revoke_locked nodes s.auth node).0 s.waiting _
        (removal-IsTaken nodes s.auth node) f
  act-IsFresh s (token now unix_now random ttl fixed) o f =
      same-IsFresh s.auth (mint_token_with s.auth now unix_now random ttl fixed).0 s.waiting
        (refl, refl) f
  act-IsFresh s (invitation now unix_now random ttl node max_pending) o f =
      same-IsFresh s.auth (mint_invitation s.auth now unix_now random ttl node max_pending).0
        s.waiting (invitation-IsTaken nodes s.auth now unix_now random ttl node max_pending) f
  act-IsFresh s (write i disk) (first, good) f = rw (first, good) (write-IsFresh s.auth s.waiting f)

  interleave-IsFresh :
      (s : Shared Node) (acts : List (Act Node))
      → All IsInOrder acts
      → IsFresh s.auth s.waiting
      → let s' = interleave nodes s acts in IsFresh s'.auth s'.waiting
  unfolding interleave
  interleave-IsFresh s [] o f = f
  interleave-IsFresh s (a ∷ acts) o f =
      interleave-IsFresh (act nodes s a) acts o.1 (act-IsFresh s a o.0 f)

  -- Where the file has the authorized devices and no save waits, and then bind attempts, revocations,
  -- new tokens, new invitations and saves run interleaved, a save being apart from the call that it is
  -- of: if the saves run in the order of those calls and succeed, then whenever none waits, a restart
  -- authorizes exactly the devices that are authorized.
  pub restart-interleave :
      (toml : Toml) (s : Shared Node) (acts : List (Act Node)) (j : Node) (max_attempts : ℕ)
      → s.waiting ≡ []
      → Synced nodes s.auth
      → All IsInOrder acts
      → (interleave nodes s acts).waiting ≡ []
      → let after = (interleave nodes s acts).auth in
        is_authorized (load_at nodes toml after.store after.names_file max_attempts) j
        ≡ is_authorized after j
  unfolding is_authorized load_at
  restart-interleave toml s acts j max_attempts bare synced o done =
      let fresh = interleave-IsFresh s acts o (rw bare synced) in
      let found : Synced nodes (interleave nodes s acts).auth = rw done at fresh in found j
