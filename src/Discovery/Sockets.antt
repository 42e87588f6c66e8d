-- ===== src/Discovery/Sockets.antt =====
-- discovery/proc_sockets.rs: the parser of the kernel's table of sockets. The text of the table is an
-- argument.
pub mod Bounds
use raemote_server.Prelude.{
  ℕ, zero, suc, ◌+◌, ◌-◌, ◌*◌, ◌/◌, ◌%◌, ◌^◌, ◌≤◌, ◌<◌, min, max, ◌≡◌, ◌≢◌, refl, sym, ap, ◌∙◌,
  subst, ◌↔◌, ◌⊎◌, inl, inr, Bool, true, false, not, ◌&&◌, ◌||◌, List, [], ◌∷◌, ◌++◌, map,
  append_assoc, append-nil, arith, Eq, ◌==◌, nat_instance, list_instance, option_instance, eq_iff,
  eq_self, if◌then◌else◌, Bool-cases, Option-cases, length, take, drop, filter, find, all, any,
  Option, none, some, is_some, unwrap_or, option_filter, is_empty, nat_eq, ltb, leb, All,
  All-append, length-append, some-injective, some-pair,
}
use raemote_server.Text.{Text, codes, lines, split_once, split_whitespace}
use raemote_server.Text.Utf8.{as_bytes}
use raemote_server.Auth.State.{max_u32}
use raemote_server.Discovery.Ip.{IpAddr, v4, v6, SocketAddr}
use raemote_server.Discovery.Model.{max_u16}

-- `char::to_digit(16)`
unfoldable pub hex_value : ℕ → Option ℕ
hex_value c =
    if leb b'0' c && leb c b'9'
    then some (c - b'0')
    else if leb b'a' c && leb c b'f'
    then some (c - b'a' + 10)
    else if leb b'A' c && leb c b'F'
    then some (c - b'A' + 10)
    else none

unfoldable pub hex_digits_from : ℕ → Text → ℕ → Option ℕ
hex_digits_from bound [] n = some n
hex_digits_from bound (c ∷ s) n = elim (hex_value c) [
  | none ↦ none
  | some d ↦ if ltb bound (n * 16 + d) then none else hex_digits_from bound s (n * 16 + d)
]

-- `uN::from_str_radix(s, 16)`: an optional plus sign, then at least one digit
unfoldable pub from_str_radix_16 : ℕ → Text → Option ℕ
from_str_radix_16 bound [] = none
from_str_radix_16 bound (c ∷ []) = hex_digits_from bound (c ∷ []) 0
from_str_radix_16 bound (c ∷ d ∷ s) =
    if nat_eq c b'+' then hex_digits_from bound (d ∷ s) 0 else hex_digits_from bound (c ∷ d ∷ s) 0

-- the bytes of `u32::to_le_bytes`
abbrev pub byte : ℕ → ℕ → ℕ
byte i word = word / 256 ^ i % 256

-- the two segments of a word whose bytes are little-endian
abbrev pub segments_of : ℕ → List ℕ
segments_of word = (byte 0 word * 256 + byte 1 word) ∷ (byte 2 word * 256 + byte 3 word) ∷ []

-- the loop over the chunks of eight bytes
unfoldable pub words_of : ℕ → List ℕ → Option (List ℕ)
words_of zero hex = some []
words_of (suc n) hex =
    let rest = words_of n (drop 8 hex) in
    elim (from_str_radix_16 max_u32 (take 8 hex)) [
      | none ↦ none
      | some word ↦ elim rest [ none ↦ none | some segments ↦ some (segments_of word ++ segments) ]
    ]

unfoldable pub parse_ip : Text → Bool → Option IpAddr
parse_ip hex true =
    let words = words_of 4 (as_bytes hex) in
    if nat_eq (length (as_bytes hex)) 32
    then elim words [ none ↦ none | some segments ↦ some (v6 segments) ]
    else none
parse_ip hex false =
    if nat_eq (length (as_bytes hex)) 8
    then elim (from_str_radix_16 max_u32 hex) [
      | none ↦ none
      | some word ↦ some (v4 (byte 0 word) (byte 1 word) (byte 2 word) (byte 3 word))
    ]
    else none

-- the address of the second field
unfoldable pub parse_local : Text → Bool → Option SocketAddr
parse_local field ipv6 = elim (split_once b':' field) [
  | none ↦ none
  | some (addr_hex, port_hex) ↦ elim (from_str_radix_16 max_u16 port_hex) [
    | none ↦ none
    | some port ↦ if nat_eq port 0 then none else elim (parse_ip addr_hex ipv6) [
      | none ↦ none
      | some ip ↦ some (record { ip = ip; port = port })
    ]
  ]
]

-- the fields of a row: only a socket in the state LISTEN
unfoldable pub row_socket : List Text → Bool → Option SocketAddr
row_socket [] ipv6 = none
row_socket (sl ∷ []) ipv6 = none
row_socket (sl ∷ local_address ∷ []) ipv6 = none
row_socket (sl ∷ local_address ∷ rem_address ∷ []) ipv6 = none
row_socket (sl ∷ local_address ∷ rem_address ∷ st ∷ others) ipv6 =
    if st == codes "0A" then parse_local local_address ipv6 else none

abbrev pub parse_row : Text → Bool → Option SocketAddr
parse_row line = row_socket (split_whitespace line)

unfoldable pub parse_rows : List Text → Bool → List SocketAddr
parse_rows [] ipv6 = []
parse_rows (line ∷ lines) ipv6 =
    let rest = parse_rows lines ipv6 in
    elim (parse_row line ipv6) [ none ↦ rest | some socket ↦ socket ∷ rest ]

unfoldable pub parse_table : Text → Bool → List SocketAddr
parse_table table ipv6 = parse_rows (drop 1 (lines table)) ipv6

-- Both tables; `none` is one that cannot be read.
unfoldable pub listening_tcp : Option Text → Option Text → List SocketAddr
listening_tcp tcp tcp6 = table tcp false ++ table tcp6 true
  where
    table : Option Text → Bool → List SocketAddr
    table none ipv6 = []
    table (some text) ipv6 = parse_table text ipv6
