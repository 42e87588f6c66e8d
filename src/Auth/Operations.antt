-- ===== src/Auth/Operations.antt =====
-- auth.rs: the methods of `AuthState`. Each takes the instants that it reads, the random bytes that
-- it draws and the outcome of its disk writes, and returns the new state with its result. The source
-- writes the files after the lock is released: `authenticate_locked` and `revoke_locked` are the part
-- under the lock, and `authenticate`, `revoke` and `set_device_name` are whole calls, during whose save
-- no other call saves.
use raemote_server.HashMap
use raemote_server.HashSet
use raemote_server.Sort
use raemote_server.Prelude.{
  ℕ, ◌+◌, ◌-◌, ◌*◌, ◌/◌, ◌%◌, ◌^◌, min, max, Bool, true, false, ◌&&◌, ◌||◌, List, [], ◌∷◌, map, Eq,
  ◌==◌, nat_instance, list_instance, if◌then◌else◌, length, Option, none, some, unwrap_or,
  option_filter, ltb, leb,
}
use raemote_server.Text.{Text}
use raemote_server.Text.Utf8.{as_bytes}
use raemote_server.Auth.Names.{default_device_name, sanitize_device_name}
use raemote_server.Auth.Secret.{constant_time_eq, to_hex}
use raemote_server.Auth.State.{
  BindOutcome, bound, bound_via_invitation, already_authorized, no_active_token, token_mismatch,
  revoked, NodeIds, TokenInfo, DeviceInfo, PendingToken, Invitation, Inner, AuthState,
  nanos_per_sec, max_u64,
}
use raemote_server.Auth.Store.{Disk, Toml, save_authorized, save_names}

-- `u64::saturating_add`
abbrev pub saturating_add : ℕ → ℕ → ℕ
saturating_add a b = min (a + b) max_u64

abbrev pub max_ttl : ℕ
max_ttl = 100 * 365 * 24 * 3600 * nanos_per_sec

-- an unexpired pairing token
unfoldable pub active_token : ℕ → Option PendingToken → Option PendingToken
active_token now = option_filter (λ p. ltb now p.expires_at)

unfoldable pub live_invitations :
    {Node : Type 0} → ℕ → List (Text × Invitation Node) → List (Text × Invitation Node)
live_invitations now = HashMap.retain (λ _ i. ltb now i.expires_at)

unfoldable pub matches : Option PendingToken → Text → Bool
matches none presented = false
matches (some p) presented = constant_time_eq (as_bytes presented) (as_bytes p.token_hex)

unfoldable pub is_authorized : {Node : Type 0} ⦃e : Eq Node⦄ → AuthState Node → Node → Bool
is_authorized s node = HashSet.contains s.inner.authenticated node

module _ {Node : Type 0} where
  unfoldable pub authorized_count : AuthState Node → ℕ
  authorized_count s = length s.inner.authenticated

  unfoldable pub set_max_attempts : AuthState Node → ℕ → AuthState Node
  set_max_attempts s val = record s { max_attempts = val }

  -- `now` is read twice
  unfoldable pub current_token_info : AuthState Node → ℕ → ℕ → Option TokenInfo
  current_token_info s now now' = elim s.inner.pending [
    | none ↦ none
    | some p ↦
        if ltb now p.expires_at
        then some (record {
          token_hex = p.token_hex;
          expires_at_unix = p.expires_at_unix;
          ttl = p.expires_at - now';
        })
        else none
  ]

  unfoldable pub mint_token_with :
      AuthState Node
      → (now unix_now : ℕ) → (random : List ℕ) → (ttl : ℕ) → Option Text
      → AuthState Node × TokenInfo
  mint_token_with s now unix_now random ttl fixed =
      let ttl' = min ttl max_ttl in
      let token_hex = unwrap_or fixed (to_hex random) in
      let expires_at_unix = saturating_add unix_now (ttl' / nanos_per_sec) in
      (
        record s {
          inner = record (s.inner) {
            pending = some (record {
              token_hex = token_hex;
              expires_at = now + ttl';
              expires_at_unix = expires_at_unix;
            });
            failed_attempts = 0;
          };
        },
        record { token_hex = token_hex; expires_at_unix = expires_at_unix; ttl = ttl' },
      )

  unfoldable pub mint_token :
      AuthState Node
      → (now unix_now : ℕ) → (random : List ℕ) → (ttl : ℕ) → AuthState Node × TokenInfo
  mint_token s now unix_now random ttl = mint_token_with s now unix_now random ttl none

  -- `none` is the error "too many outstanding invitations"
  unfoldable pub mint_invitation :
      AuthState Node
      → (now unix_now : ℕ) → (random : List ℕ) → (ttl : ℕ) → Node
      → (max_pending : ℕ) → AuthState Node × Option TokenInfo
  mint_invitation s now unix_now random ttl created_by max_pending =
      let ttl' = min ttl max_ttl in
      let live = live_invitations now s.inner.invitations in
      let token_hex = to_hex random in
      let invitation : Invitation Node = record {
        expires_at = now + ttl';
        created_by = created_by;
      } in
      if leb (max max_pending 1) (length live)
      then (record s { inner = record (s.inner) { invitations = live } }, none)
      else (
        record s {
          inner = record (s.inner) { invitations = HashMap.insert live token_hex invitation };
        },
        some (record {
          token_hex = token_hex;
          expires_at_unix = saturating_add unix_now (ttl' / nanos_per_sec);
          ttl = ttl';
        }),
      )

  -- The loop over every invitation: the last match wins.
  unfoldable pub scan_invitations :
      Text → Option (Text × Node) → List (Text × Invitation Node) → Option (Text × Node)
  scan_invitations presented matched [] = matched
  scan_invitations presented matched ((token_hex, invitation) ∷ rest) =
      scan_invitations presented
        (if constant_time_eq (as_bytes presented) (as_bytes token_hex)
          then some (token_hex, invitation.created_by)
          else matched)
        rest

  -- Step 3: a failure. The counter is a `u32`.
  unfoldable pub no_match : AuthState Node → Option PendingToken → AuthState Node × BindOutcome
  no_match s none = (record s { inner = record (s.inner) { pending = none } }, no_active_token)
  no_match s (some active) =
      let failed = (s.inner.failed_attempts + 1) % 2 ^ 32 in
      if leb s.max_attempts failed
      then (
        record s { inner = record (s.inner) { pending = none; failed_attempts = failed } },
        revoked,
      )
      else (record s { inner = record (s.inner) { failed_attempts = failed } }, token_mismatch)

module _ {Node : Type 0} ⦃e : Eq Node⦄ (nodes : NodeIds Node) where
  abbrev pub entries : List Node → List Text
  entries = map nodes.to_text

  abbrev pub name_entries : List (Node × Text) → List (Text × Text)
  name_entries = map (λ (p : Node × Text). (nodes.to_text p.0, p.1))

  unfoldable pub authorize : Inner Node → Node → Inner Node × List Text
  authorize inner node =
      let authenticated = HashSet.insert inner.authenticated node in
      (record inner { authenticated = authenticated; failed_attempts = 0 }, entries authenticated)

  -- The save that follows once the lock is released; a failed one is only logged.
  abbrev pub save_entries : Disk → List Text → AuthState Node → AuthState Node
  save_entries disk entries s = record s { store = (save_authorized disk s.store entries).0 }

  abbrev pub save_some : Disk → Option (List Text) → AuthState Node → AuthState Node
  save_some disk none s = s
  save_some disk (some entries) s = save_entries disk entries s

  -- authorize the node and persist the set
  unfoldable pub grant : AuthState Node → Disk → Node → AuthState Node
  grant s disk node =
      let (inner, entries) = authorize s.inner node in
      save_entries disk entries (record s { inner = inner })

  -- the node authorized under the lock, with the entries to save
  abbrev pub granted :
      AuthState Node → Node → BindOutcome → AuthState Node × (Option (List Text) × BindOutcome)
  granted s node outcome =
      let (inner, entries) = authorize s.inner node in
      (record s { inner = inner }, (some entries, outcome))

  -- what happens under the lock, with the entries to save
  unfoldable pub authenticate_locked :
      AuthState Node
      → (now : ℕ) → Node
      → (presented : Text) → AuthState Node × (Option (List Text) × BindOutcome)
  authenticate_locked s now node presented =
      let live = live_invitations now s.inner.invitations in
      let pruned = record s { inner = record (s.inner) { invitations = live } } in
      let active = active_token now s.inner.pending in
      let (failed, outcome) = no_match pruned active in
      let redeemed = λ (token_hex : Text). record pruned {
        inner = record (pruned.inner) { invitations = HashMap.remove live token_hex };
      } in
      if HashSet.contains s.inner.authenticated node
      then (s, (none, already_authorized))
      else if matches active presented
      then granted pruned node bound
      else elim (scan_invitations presented none live) [
        | some (token_hex, created_by) ↦ granted (redeemed token_hex) node bound_via_invitation
        | none ↦ (failed, (none, outcome))
      ]

  abbrev pub finish :
      Disk → AuthState Node × (Option (List Text) × BindOutcome) → AuthState Node × BindOutcome
  finish disk (after, (saved, outcome)) = (save_some disk saved after, outcome)

  -- a call during whose save no other call saves
  unfoldable pub authenticate :
      AuthState Node → (now : ℕ) → Disk → Node → (presented : Text) → AuthState Node × BindOutcome
  authenticate s now disk node presented = finish disk (authenticate_locked s now node presented)

  -- What happens under the lock, with the entries of both files where the device was authorized.
  unfoldable pub revoke_locked :
      AuthState Node → Node → AuthState Node × Option (List Text × List (Text × Text))
  revoke_locked s node =
      let authenticated = HashSet.remove s.inner.authenticated node in
      let names = HashMap.remove s.inner.names node in
      if HashSet.contains s.inner.authenticated node
      then (
        record s { inner = record (s.inner) { authenticated = authenticated; names = names } },
        some (entries authenticated, name_entries names),
      )
      else (s, none)

  -- the saves that follow
  abbrev save_both :
      Toml
      → Disk
      → Disk
      → AuthState Node × Option (List Text × List (Text × Text))
      → AuthState Node × Bool
  save_both toml disk names_disk (after, none) = (after, false)
  save_both toml disk names_disk (after, some (entries, names)) = (
    record after {
      store = (save_authorized disk after.store entries).0;
      names_file = (save_names toml names_disk after.names_file names).0;
    },
    true,
  )

  -- a call during whose saves no other call saves
  unfoldable pub revoke : Toml → AuthState Node → Disk → Disk → Node → AuthState Node × Bool
  revoke toml s disk names_disk node = save_both toml disk names_disk (revoke_locked s node)

  -- an empty name clears the entry
  unfoldable pub rename : List (Node × Text) → Node → Option Text → List (Node × Text)
  rename names node (some clean) = HashMap.insert names node clean
  rename names node none = HashMap.remove names node

  -- `none` is the error of a device that is not authorized, `some false` that of a failed save
  unfoldable pub set_device_name :
      Toml → AuthState Node → Disk → Node → Text → AuthState Node × Option Bool
  set_device_name toml s disk node name =
      let names = rename s.inner.names node (sanitize_device_name name) in
      let saved = save_names toml disk s.names_file (name_entries names) in
      if HashSet.contains s.inner.authenticated node
      then (
        record s { inner = record (s.inner) { names = names }; names_file = saved.0 },
        some saved.1,
      )
      else (s, none)

  abbrev pub display_name : AuthState Node → Node → Text
  display_name s id = unwrap_or (HashMap.get s.inner.names id) (default_device_name nodes id)

  -- by name, then by the printed id
  abbrev pub device_before : DeviceInfo Node → DeviceInfo Node → Bool
  device_before a b =
      Sort.text_lt a.name b.name
      || (a.name == b.name && Sort.text_lt (nodes.to_text a.node_id) (nodes.to_text b.node_id))

  unfoldable pub device_infos : AuthState Node → List (DeviceInfo Node)
  device_infos s =
      Sort.sort_by device_before
        (map (λ id. record { node_id = id; name = display_name s id }) s.inner.authenticated)
