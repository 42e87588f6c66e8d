-- ===== src/Auth/Policy.antt =====
-- auth.rs: what the authorization state promises, with no lists, no files, no names and no machine
-- words: a predicate of devices, at most one token, and the expiry of every invitation.
use raemote_server.Prelude.{
  ℕ, ◌+◌, min, Bool, true, false, not, ◌&&◌, ◌||◌, List, [], ◌∷◌, Eq, ◌==◌, nat_instance,
  list_instance, option_instance, if◌then◌else◌, Option, none, some, is_some, unwrap_or,
  option_filter, ltb, leb,
}
use raemote_server.Text.{Text}
use raemote_server.Auth.Secret.{to_hex}
use raemote_server.Auth.State.{
  BindOutcome, bound, bound_via_invitation, already_authorized, no_active_token, token_mismatch,
  revoked,
}
use raemote_server.Auth.Operations.{max_ttl}
use raemote_server.Auth.Store.{Disk}
use raemote_server.Auth.Trace.{Call, bind, mint, invite, revocation, renaming, limit}

pub record Policy (Node : Type 0) : Type 0 where
  pub allows : Node → Bool
  pub token : Option (Text × ℕ)
  pub invites : Text → Option ℕ
  pub failures : ℕ
  pub bound_on_failures : ℕ

abbrev pub live : ℕ → Option ℕ → Option ℕ
live now = option_filter (ltb now)

abbrev pub is_active : ℕ → Option (Text × ℕ) → Bool
is_active now none = false
is_active now (some (text, expiry)) = ltb now expiry

abbrev pub is_token : ℕ → Text → Option (Text × ℕ) → Bool
is_token now presented none = false
is_token now presented (some (text, expiry)) = ltb now expiry && presented == text

abbrev pub expire : {Node : Type 0} → ℕ → Policy Node → Policy Node
expire now p = record p { invites = λ text. live now (p.invites text) }

abbrev pub admit : {Node : Type 0} ⦃e : Eq Node⦄ → Node → Policy Node → Policy Node
admit node p = record p { allows = λ other. node == other || p.allows other; failures = 0 }

abbrev pub spend : {Node : Type 0} → Text → Policy Node → Policy Node
spend used p = record p { invites = λ text. if used == text then none else p.invites text }

-- a wrong attempt, with a token to attack or without one
abbrev pub miss : {Node : Type 0} → Bool → Policy Node → Policy Node × BindOutcome
miss false p = (record p { token = none }, no_active_token)
miss true p =
    if leb p.bound_on_failures (p.failures + 1)
    then (record p { token = none; failures = p.failures + 1 }, revoked)
    else (record p { failures = p.failures + 1 }, token_mismatch)

abbrev pub attempt :
    {Node : Type 0} ⦃e : Eq Node⦄ → ℕ → Node → Text → Policy Node → Policy Node × BindOutcome
attempt now node presented p =
    if p.allows node
    then (p, already_authorized)
    else if is_token now presented p.token
    then (admit node (expire now p), bound)
    else if is_some (live now (p.invites presented))
    then (admit node (spend presented (expire now p)), bound_via_invitation)
    else miss (is_active now p.token) (expire now p)

-- A call, the outcome that the device sees, if there is one, and the policy behind it. An
-- invitation may be refused.
pub data Step {Node : Type 0} ⦃e : Eq Node⦄ (p : Policy Node)
    : Call Node → Option BindOutcome → Policy Node → Type 0 where
  attempted :
      {now : ℕ} {disk : Disk} {node : Node} {presented : Text}
      → Step p
          (bind now disk node presented)
          (some (attempt now node presented p).1)
          (attempt now node presented p).0
  minted :
      {now unix_now : ℕ} {random : List ℕ} {ttl : ℕ} {fixed : Option Text}
      → Step p (mint now unix_now random ttl fixed) none (record p {
        token = some (unwrap_or fixed (to_hex random), now + min ttl max_ttl);
        failures = 0;
      })
  granted :
      {now unix_now : ℕ} {random : List ℕ} {ttl : ℕ} {node : Node} {max_pending : ℕ}
      → Step p (invite now unix_now random ttl node max_pending) none (record p {
        invites = λ text.
            if to_hex random == text
            then some (now + min ttl max_ttl)
            else live now (p.invites text);
      })
  full :
      {now unix_now : ℕ} {random : List ℕ} {ttl : ℕ} {node : Node} {max_pending : ℕ}
      → Step p (invite now unix_now random ttl node max_pending) none (expire now p)
  withdrawn :
      {disk names_disk : Disk} {node : Node}
      → Step p
          (revocation disk names_disk node)
          none
          (record p { allows = λ other. not (node == other) && p.allows other })
  renamed : {disk : Disk} {node : Node} {name : Text} → Step p (renaming disk node name) none p
  limited : {val : ℕ} → Step p (limit val) none (record p { bound_on_failures = val })

pub data Run {Node : Type 0} ⦃e : Eq Node⦄
    : Policy Node → List (Call Node) → List (Option BindOutcome) → Policy Node → Type 0 where
  finished : {p : Policy Node} → Run p [] [] p
  and_then :
      {p q r : Policy Node} {c : Call Node} {o : Option BindOutcome} {calls : List (Call Node)}
      {outcomes : List (Option BindOutcome)}
      → Step p c o q
      → Run q calls outcomes r
      → Run p (c ∷ calls) (o ∷ outcomes) r
