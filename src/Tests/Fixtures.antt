-- ===== src/Tests/Fixtures.antt =====
-- Two devices, a disk that works, and a printer of maps, for the tests.
use raemote_server.Prelude.{
  zero, suc, ◌≡◌, ◌≢◌, refl, sym, ap, ◌∙◌, subst, ◌↔◌, Bool, true, false, List, [], ◌∷◌, ◌++◌, map,
  append_assoc, append-nil, arith, Eq, ◌==◌, nat_instance, list_instance, if◌then◌else◌, Option,
  none, some, All,
}
use raemote_server.HashMap
use raemote_server.HashSet
use raemote_server.Text.{Text, codes, is_whitespace}
use raemote_server.Auth.State.{NodeIds, AuthState, PendingToken, Invitation}
use raemote_server.Auth.Store.{Disk, Toml}
use raemote_server.Auth.Invariant

pub data Node : Type 0 where
  phone tablet : Node

abbrev pub node_eq : Node → Node → Bool
node_eq phone phone = true
node_eq tablet tablet = true
node_eq phone tablet = false
node_eq tablet phone = false

pub node_eq_iff : (a b : Node) → (node_eq a b ≡ true) ↔ (a ≡ b)
node_eq_iff phone phone = (λ h. refl, λ h. refl)
node_eq_iff tablet tablet = (λ h. refl, λ h. refl)
node_eq_iff phone tablet = (λ h. cc, λ h. cc)
node_eq_iff tablet phone = (λ h. cc, λ h. cc)

instance abbrev pub node_instance : Eq Node
node_instance = record { eq = node_eq; eq_iff_path = node_eq_iff }

abbrev pub to_text : Node → Text
to_text phone = codes "aaaa"
to_text tablet = codes "bbbb"

abbrev pub from_text : Text → Option Node
from_text t =
    if t == codes "aaaa" then some phone else if t == codes "bbbb" then some tablet else none

pub read_back : (n : Node) → from_text (to_text n) ≡ some n
read_back phone = refl
read_back tablet = refl

pub filled : (n : Node) → to_text n ≢ []
filled phone = cc
filled tablet = cc

pub dark : (n : Node) → All (λ c. is_whitespace c ≡ false) (to_text n)
unfolding is_whitespace
dark phone = (refl, (refl, (refl, (refl, tt))))
dark tablet = (refl, (refl, (refl, (refl, tt))))

abbrev pub nodes : NodeIds Node
nodes = record {
  to_text = to_text;
  from_text = from_text;
  from_text-to_text = read_back;
  to_text-ne-nil = filled;
  to_text_dark = dark;
}

-- each character raised by one, and a zero behind each text
unfoldable pub print : List (Text × Text) → Text
print [] = []
print ((k, v) ∷ m) = map suc k ++ 0 ∷ (map suc v ++ 0 ∷ print m)

unfoldable pub parse : Text → Text → Option Text → List (Text × Text)
parse [] cur key = []
parse (zero ∷ s) cur none = parse s [] (some cur)
parse (zero ∷ s) cur (some key) = (key, cur) ∷ parse s [] none
parse (suc c ∷ s) cur key = parse s (cur ++ c ∷ []) key

parse-text :
    (t rest cur : Text) (key : Option Text)
    → parse (map suc t ++ 0 ∷ rest) cur key ≡ parse (0 ∷ rest) (cur ++ t) key
unfolding parse
parse-text [] rest cur key = ap (λ x. parse (0 ∷ rest) x key) (sym (append-nil cur))
parse-text (c ∷ t) rest cur key =
    parse-text t rest (cur ++ c ∷ []) key
    ∙ ap (λ x. parse (0 ∷ rest) x key) (append_assoc cur (c ∷ []) t)

parse-print : (m : List (Text × Text)) → parse (print m) [] none ≡ m
unfolding parse print
parse-print [] = refl
parse-print ((k, v) ∷ m) =
    parse-text k (map suc v ++ 0 ∷ print m) [] none
    ∙ (parse-text v (print m) [] (some k) ∙ ap (◌∷◌ (k, v)) (parse-print m))

pub parse_law :
    (m : List (Text × Text)) (s : Text)
    → HashMap.IsMap m
    → some (print m) ≡ some s
    → (n : List (Text × Text)) × (some (parse s [] none) ≡ some n)
      × HashMap.IsMap n
      × ((k : Text) → HashMap.get n k ≡ HashMap.get m k)
parse_law m s v h =
    let same : print m ≡ s = cc h in
    (m, ap some (subst (λ x. parse x [] none ≡ m) same (parse-print m)), v, λ k. refl)

abbrev pub toml : Toml
toml = record {
  to_string = λ m. some (print m);
  from_str = λ s. some (parse s [] none);
  from_str-to_string = parse_law;
}

abbrev pub healthy : Disk
healthy = record { can_write = true; can_rename = true }

abbrev pub secret : PendingToken
secret = record { token_hex = codes "secret"; expires_at = 100; expires_at_unix = 0 }

abbrev pub gift : Text × Invitation Node
gift = (codes "gift", record { expires_at = 50; created_by = tablet })

-- a token is pending, and three attempts are left
abbrev pub pairing : List Node → List (Text × Invitation Node) → AuthState Node
pairing authenticated invitations = record {
  inner = record {
    pending = some secret;
    authenticated = authenticated;
    names = [];
    invitations = invitations;
    failed_attempts = 0;
  };
  store = none;
  names_file = none;
  max_attempts = 3;
}

pub pairing-IsValid : Invariant.IsValid (pairing (tablet ∷ []) (gift ∷ []))
unfolding HashSet.contains HashMap.get
pairing-IsValid = record {
  devices = (refl, tt);
  distinct_names = tt;
  named = λ id h. ground arith;
  invites = (refl, tt);
  attempts = λ h. omega arith;
  limit = omega arith;
}
