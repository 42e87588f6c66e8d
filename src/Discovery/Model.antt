-- ===== src/Discovery/Model.antt =====
-- discovery/model.rs: origins and discovered apps.
use raemote_server.Prelude.{
  ℕ, ◌-◌, ◌^◌, ◌≡◌, refl, ◌↔◌, Bool, true, ◌&&◌, ◌||◌, ◌++◌, arith, Eq, ◌==◌, nat_instance,
  list_instance, eq_iff, if◌then◌else◌, Option, none, some, is_empty, nat_eq,
}
use raemote_server.Discovery.Ip.{SocketAddr, is_unspecified, ip_to_string}
use raemote_server.Text.{Text, codes, trim, has_char, split_once, rsplit_once, strip_prefix}
use raemote_server.Text.Decimal.{decimal, parse_uint}

pub data Scheme : Type 0 where
  http : Scheme

abbrev pub scheme_text : Scheme → Text
scheme_text http = codes "http"

pub record Origin : Type 0 where
  pub scheme : Scheme
  pub host : Text
  pub port : ℕ

abbrev pub max_u16 : ℕ
max_u16 = 2 ^ 16 - 1

abbrev pub http_origin : Text → ℕ → Origin
http_origin host port = record { scheme = http; host = host; port = port }

abbrev pub origin_eq : Origin → Origin → Bool
origin_eq a b = a.host == b.host && nat_eq a.port b.port

scheme_unique : (s t : Scheme) → s ≡ t
scheme_unique http http = refl

pub origin_eq_iff : (a b : Origin) → (origin_eq a b ≡ true) ↔ (a ≡ b)
origin_eq_iff a b = ground (arith, scheme_unique a.scheme b.scheme, eq_iff a.host b.host)

-- the derived `PartialEq`; there is one scheme
instance abbrev pub origin_instance : Eq Origin
origin_instance = record { eq = origin_eq; eq_iff_path = origin_eq_iff }

unfoldable pub authority : Origin → Text
authority o =
    if has_char b':' o.host
    then codes "[" ++ (o.host ++ (codes "]:" ++ decimal o.port))
    else o.host ++ (codes ":" ++ decimal o.port)

unfoldable pub local_host : SocketAddr → Text
local_host addr = if is_unspecified addr.ip then codes "127.0.0.1" else ip_to_string addr.ip

infixl 5 ◌>>=◌
abbrev ◌>>=◌ : {A B : Type 0} → Option A → (A → Option B) → Option B
none >>= f = none
some a >>= f = f a

-- the host and the port of the text
unfoldable pub split_authority : Text → Option (Text × ℕ)
split_authority s = elim (strip_prefix (codes "[") s) [
  | some rest ↦ do
    (host, tail) ← split_once b']' rest
    digits ← strip_prefix (codes ":") tail
    port ← parse_uint max_u16 digits
    some (host, port)
  | none ↦ do
    (host, digits) ← rsplit_once b':' s
    port ← parse_uint max_u16 digits
    some (host, port)
]

unfoldable pub normalize_host : Text → Text
normalize_host host =
    if host == codes "localhost" || (host == codes "0.0.0.0" || host == codes "::")
    then codes "127.0.0.1"
    else host

unfoldable pub parse_authority : Text → Option Origin
unfolding split_authority normalize_host
parse_authority s = do
  (host, port) ← split_authority (trim s)
  if nat_eq port 0 || is_empty host then none else some (http_origin (normalize_host host) port)

pub record DiscoveredApp : Type 0 where
  pub origin : Origin
  pub title : Option Text
  pub process : Option Text
  pub pid : Option ℕ

parsing :
    (parse_authority (codes "127.0.0.1:10808") ≡ some (http_origin (codes "127.0.0.1") 10808))
    × (parse_authority (codes " localhost:3000 ") ≡ some (http_origin (codes "127.0.0.1") 3000))
    × (parse_authority (codes "[::1]:8080") ≡ some (http_origin (codes "::1") 8080))
    × (parse_authority (codes "127.0.0.1:0") ≡ none)
    × (parse_authority (codes ":8080") ≡ none)
    × (parse_authority (codes "host:abc") ≡ none)
unfolding parse_authority trim strip_prefix split_once rsplit_once parse_uint
parsing = (refl, refl, refl, refl, refl, refl)
