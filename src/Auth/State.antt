-- ===== src/Auth/State.antt =====
-- auth.rs: the data of the module. Instants and durations are numbers of nanoseconds. A node id is
-- a value of iroh's `EndpointId`, a type that the program does not define; `NodeIds` is what it uses
-- of it.
use raemote_server.Prelude.{
  ℕ, ◌-◌, ◌^◌, ◌≡◌, ◌≢◌, Bool, true, false, List, [], nat_instance, list_instance, Option, some,
  All,
}
use raemote_server.Text.{Text, codes, is_whitespace}

pub data BindOutcome : Type 0 where
  bound bound_via_invitation already_authorized no_active_token token_mismatch revoked : BindOutcome

abbrev pub is_allowed : BindOutcome → Bool
is_allowed bound = true
is_allowed bound_via_invitation = true
is_allowed already_authorized = true
is_allowed no_active_token = false
is_allowed token_mismatch = false
is_allowed revoked = false

unfoldable pub deny_reason : BindOutcome → Text
deny_reason no_active_token = codes "no active token"
deny_reason token_mismatch = codes "invalid token"
deny_reason revoked = codes "token revoked"
deny_reason bound = []
deny_reason bound_via_invitation = []
deny_reason already_authorized = []

-- `Display` and `FromStr` of `EndpointId`: the printed form is one word, and is read back.
pub record NodeIds (Node : Type 0) : Type 0 where
  pub to_text : Node → Text
  pub from_text : Text → Option Node
  pub from_text-to_text : (id : Node) → from_text (to_text id) ≡ some id
  pub to_text-ne-nil : (id : Node) → to_text id ≢ []
  pub to_text_dark : (id : Node) → All (λ c. is_whitespace c ≡ false) (to_text id)

pub record TokenInfo : Type 0 where
  pub token_hex : Text
  pub expires_at_unix : ℕ
  pub ttl : ℕ

pub record DeviceInfo (Node : Type 0) : Type 0 where
  pub node_id : Node
  pub name : Text

pub record PendingToken : Type 0 where
  pub token_hex : Text
  pub expires_at : ℕ
  pub expires_at_unix : ℕ

pub record Invitation (Node : Type 0) : Type 0 where
  pub expires_at : ℕ
  pub created_by : Node

pub record Inner (Node : Type 0) : Type 0 where
  pub pending : Option PendingToken
  pub authenticated : List Node
  pub names : List (Node × Text)
  pub invitations : List (Text × Invitation Node)
  pub failed_attempts : ℕ

-- `store` and `names_file` are the contents of the two files, `none` where a file is missing or
-- cannot be read.
pub record AuthState (Node : Type 0) : Type 0 where
  pub inner : Inner Node
  pub store : Option Text
  pub names_file : Option Text
  pub max_attempts : ℕ

abbrev pub nanos_per_sec : ℕ
nanos_per_sec = 1_000_000_000

abbrev pub max_u32 : ℕ
max_u32 = 2 ^ 32 - 1

abbrev pub max_u64 : ℕ
max_u64 = 2 ^ 64 - 1
