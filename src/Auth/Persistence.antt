-- ===== src/Auth/Persistence.antt =====
-- auth.rs: what a restart finds. Loading gives a well-formed state, and the set of authorized devices
-- that was saved last.
use raemote_server.HashMap
use raemote_server.HashSet
use raemote_server.Prelude.{
  ℕ, ◌≤◌, ◌≡◌, ◌≢◌, refl, inl, inr, true, false, List, [], ◌∷◌, arith, Eq, nat_instance,
  list_instance, Bool-cases, Option-cases, Option, none, some, is_empty, All,
}
use raemote_server.Text.{Text, trim, lines, join}
use raemote_server.Text.Lines.{IsDark, IsDark-trim, lines-join}
use raemote_server.Auth.State.{NodeIds, AuthState, max_u32}
use raemote_server.Auth.Store.{
  Disk, Toml, replace_file, save_authorized, load_lines, load_authorized, load_names, parse_names,
  load_at,
}
use raemote_server.Auth.Operations.{entries}
use raemote_server.Auth.Invariant.{IsValid}

-- both calls of a save succeed
abbrev pub healthy : Disk
healthy = record { can_write = true; can_rename = true }

module _ {Node : Type 0} ⦃e : Eq Node⦄ (nodes : NodeIds Node) where
  load_lines-IsUnique : (ls : List Text) → HashSet.IsUnique (load_lines nodes ls)
  unfolding load_lines
  load_lines-IsUnique [] = tt
  load_lines-IsUnique (raw ∷ rest) = elim (Bool-cases (is_empty (trim raw))) [
    | inl blank ↦ rw blank (load_lines-IsUnique rest)
    | inr word ↦ elim (Option-cases (nodes.from_text (trim raw))) [
      | inl bad ↦ rw (word, bad) (load_lines-IsUnique rest)
      | inr (id, good) ↦
          rw (word, good)
            (HashSet.insert-IsUnique (load_lines nodes rest) id (load_lines-IsUnique rest))
    ]
  ]

  load_authorized-IsUnique : (store : Option Text) → HashSet.IsUnique (load_authorized nodes store)
  unfolding load_authorized
  load_authorized-IsUnique none = tt
  load_authorized-IsUnique (some content) = load_lines-IsUnique (lines content)

  parse_names-IsMap : (raw : List (Text × Text)) → HashMap.IsMap (parse_names nodes raw)
  unfolding parse_names
  parse_names-IsMap [] = tt
  parse_names-IsMap ((k, name) ∷ raw) = elim (Option-cases (nodes.from_text k)) [
    | inl bad ↦ rw (bad, parse_names) (parse_names-IsMap raw)
    | inr (id, good) ↦
        rw (good, parse_names)
          (HashMap.insert-IsMap (parse_names nodes raw) id name (parse_names-IsMap raw))
  ]

  load_names-IsMap :
      (toml : Toml) (names_file : Option Text) → HashMap.IsMap (load_names nodes toml names_file)
  unfolding load_names
  load_names-IsMap toml none = tt
  load_names-IsMap toml (some content) = elim (Option-cases (toml.from_str content)) [
    | inl bad ↦ rw (bad, load_names) tt
    | inr (raw, good) ↦ rw (good, load_names) (parse_names-IsMap raw)
  ]

  -- Whatever the two files hold, loading gives a well-formed state, if the bound on attempts is a
  -- `u32`.
  pub load_at-IsValid :
      (toml : Toml) (store names_file : Option Text) (max_attempts : ℕ)
      → max_attempts ≤ max_u32
      → IsValid (load_at nodes toml store names_file max_attempts)
  unfolding load_at
  load_at-IsValid toml store names_file max_attempts h =
      let names = load_names nodes toml names_file in
      let known = load_authorized nodes store in
      let distinct = load_names-IsMap toml names_file in
      let keep = λ (id : Node) (name : Text). HashSet.contains known id in
      record {
        devices = load_authorized-IsUnique store;
        distinct_names = HashMap.retain-IsMap keep names distinct;
        named = λ id k. ground (arith, HashMap.get-retain keep names id distinct);
        invites = tt;
        attempts = λ k. cc;
        limit = h;
      }

  contains-load_lines :
      (ids : List Node) (j : Node)
      → HashSet.contains (load_lines nodes (entries nodes ids)) j ≡ HashSet.contains ids j
  unfolding load_lines HashSet.contains
  contains-load_lines [] j = refl
  contains-load_lines (id ∷ ids) j = rw (
    IsDark-trim (nodes.to_text id) (nodes.to_text_dark id),
    not_empty (nodes.to_text id) (nodes.to_text-ne-nil id),
    nodes.from_text-to_text id,
    HashSet.contains-insert (load_lines nodes (entries nodes ids)) id j,
    contains-load_lines ids j,
  )
    where
      not_empty : (t : Text) → t ≢ [] → is_empty t ≡ false
      not_empty [] h = absurd (h refl)
      not_empty (c ∷ t) h = refl

  entries-IsDark : (ids : List Node) → All IsDark (entries nodes ids)
  entries-IsDark [] = tt
  entries-IsDark (id ∷ ids) = (nodes.to_text_dark id, entries-IsDark ids)

  pub load-save :
      (old : Option Text) (ids : List Node) (j : Node)
      → HashSet.contains
          (load_authorized nodes (save_authorized healthy old (entries nodes ids)).0)
          j
        ≡ HashSet.contains ids j
  unfolding load_authorized save_authorized replace_file
  load-save old [] j = unfold lines trim load_lines join in refl
  load-save old (id ∷ ids) j =
      rw (lines-join (nodes.to_text id) (entries nodes ids) (entries-IsDark (id ∷ ids)))
        (contains-load_lines (id ∷ ids) j)

  -- The file holds the authorized devices.
  abbrev pub Synced : AuthState Node → Type 0
  Synced s =
      (j : Node)
      → HashSet.contains (load_authorized nodes s.store) j
        ≡ HashSet.contains s.inner.authenticated j
