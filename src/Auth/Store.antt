-- ===== src/Auth/Store.antt =====
-- auth.rs: the two files. A save writes a temporary file and renames it, so it replaces the whole
-- file or leaves it; which of the two calls succeed is an argument.
use raemote_server.HashMap
use raemote_server.HashSet
use raemote_server.Prelude.{
  ℕ, ◌≡◌, Bool, true, false, ◌&&◌, List, [], ◌∷◌, ◌++◌, Eq, nat_instance, list_instance,
  if◌then◌else◌, Option, none, some, is_empty,
}
use raemote_server.Text.{Text, trim, lines, join}
use raemote_server.Auth.State.{NodeIds, AuthState}

pub record Disk : Type 0 where
  pub can_write : Bool
  pub can_rename : Bool

-- The new content of the file, and whether the save succeeded.
unfoldable pub replace_file : Disk → Option Text → Text → Option Text × Bool
replace_file disk old content =
    if disk.can_write && disk.can_rename then (some content, true) else (old, false)

-- What the program uses of the `toml` crate for a map of texts: reading what was printed gives the
-- same map, whose keys are distinct.
pub record Toml : Type 0 where
  pub to_string : List (Text × Text) → Option Text
  pub from_str : Text → Option (List (Text × Text))
  pub from_str-to_string :
      (m : List (Text × Text)) (s : Text)
      → HashMap.IsMap m
      → to_string m ≡ some s
      → (n : List (Text × Text)) × (from_str s ≡ some n)
        × HashMap.IsMap n
        × ((k : Text) → HashMap.get n k ≡ HashMap.get m k)

unfoldable pub save_authorized : Disk → Option Text → List Text → Option Text × Bool
save_authorized disk old entries = replace_file disk old (join (10 ∷ []) entries ++ 10 ∷ [])

unfoldable pub save_names : Toml → Disk → Option Text → List (Text × Text) → Option Text × Bool
save_names toml disk old names = elim (toml.to_string names) [
  | none ↦ (old, false)
  | some content ↦ replace_file disk old content
]

module _ {Node : Type 0} ⦃e : Eq Node⦄ (nodes : NodeIds Node) where
  unfoldable pub load_lines : List Text → List Node
  load_lines [] = []
  load_lines (raw ∷ rest) =
      let line = trim raw in
      let others = load_lines rest in
      if is_empty line
      then others
      else elim (nodes.from_text line) [ none ↦ others | some id ↦ HashSet.insert others id ]

  unfoldable pub load_authorized : Option Text → List Node
  load_authorized none = []
  load_authorized (some content) = load_lines (lines content)

  -- entries whose key is no node id are dropped
  unfoldable pub parse_names : List (Text × Text) → List (Node × Text)
  parse_names [] = []
  parse_names ((k, name) ∷ raw) = elim (nodes.from_text k) [
    | none ↦ parse_names raw
    | some id ↦ HashMap.insert (parse_names raw) id name
  ]

  unfoldable pub load_names : Toml → Option Text → List (Node × Text)
  load_names toml none = []
  load_names toml (some content) = elim (toml.from_str content) [
    | none ↦ []
    | some raw ↦ parse_names raw
  ]

  unfoldable pub load_at : Toml → Option Text → Option Text → ℕ → AuthState Node
  load_at toml store names_file max_attempts =
      let authenticated = load_authorized store in
      let names =
        HashMap.retain (λ id _. HashSet.contains authenticated id) (load_names toml names_file) in
      record {
        inner = record {
          pending = none;
          authenticated = authenticated;
          names = names;
          invitations = [];
          failed_attempts = 0;
        };
        store = store;
        names_file = names_file;
        max_attempts = max_attempts;
      }
