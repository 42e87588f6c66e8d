-- ===== src/Discovery/Sockets/Bounds.antt =====
-- discovery/proc_sockets.rs: the sockets that the parser finds are well formed.
use raemote_server.Prelude.{
  ℕ, zero, suc, ◌+◌, ◌*◌, ◌≤◌, ◌<◌, ◌≡◌, refl, subst, inl, inr, Bool, true, false, List, [], ◌∷◌,
  ◌++◌, arith, ◌==◌, nat_instance, list_instance, option_instance, Bool-cases, Option-cases, length,
  take, drop, Option, none, some, nat_eq, ltb, All, All-append, some-injective,
}
use raemote_server.Text.{Text, codes, lines, split_once, split_whitespace}
use raemote_server.Text.Utf8.{as_bytes}
use raemote_server.Auth.State.{max_u32}
use raemote_server.Discovery.Ip.{IpAddr, v4, v6, SocketAddr}
use raemote_server.Discovery.Model.{max_u16}
use raemote_server.Discovery.Sockets.{
  hex_value, hex_digits_from, from_str_radix_16, byte, segments_of, words_of, parse_ip, parse_local,
  row_socket, parse_row, parse_rows, parse_table, listening_tcp,
}

-- four bytes, or eight segments of sixteen bits
abbrev pub IsAddress : IpAddr → Type 0
IsAddress (v4 a b c d) = (a < 256) × (b < 256) × (c < 256) × (d < 256)
IsAddress (v6 segments) = (length segments ≡ 8) × All (λ w. w < 65_536) segments

abbrev pub IsSocket : SocketAddr → Type 0
IsSocket s = IsAddress s.ip × (0 < s.port) × (s.port ≤ max_u16)

hex_digits_from-le :
    (bound : ℕ) (s : Text) (n : ℕ) {m : ℕ}
    → n ≤ bound
    → hex_digits_from bound s n ≡ some m
    → m ≤ bound
unfolding hex_digits_from
hex_digits_from-le bound [] n l h = omega (arith, some-injective h)
hex_digits_from-le bound (c ∷ s) n {m} l h = elim (Option-cases (hex_value c)) [
  | inl bad ↦ cc (rw (bad, hex_digits_from) at h)
  | inr (d, good) ↦ elim (Bool-cases (ltb bound (n * 16 + d))) [
    | inl over ↦ cc (rw (good, over, hex_digits_from) at h)
    | inr fits ↦
        hex_digits_from-le bound s (n * 16 + d) {m = m} (ground arith)
          (rw (good, fits, hex_digits_from) at h)
  ]
]

from_str_radix_16-le :
    (bound : ℕ) (s : Text) {m : ℕ} → from_str_radix_16 bound s ≡ some m → m ≤ bound
unfolding from_str_radix_16
from_str_radix_16-le bound [] h = cc
from_str_radix_16-le bound (c ∷ []) {m} h =
    hex_digits_from-le bound (c ∷ []) 0 {m = m} (omega arith) h
from_str_radix_16-le bound (c ∷ d ∷ s) {m} h = elim (Bool-cases (nat_eq c b'+')) [
  | inl plus ↦ hex_digits_from-le bound (d ∷ s) 0 {m = m} (omega arith) (rw plus at h)
  | inr digit ↦ hex_digits_from-le bound (c ∷ d ∷ s) 0 {m = m} (omega arith) (rw digit at h)
]

byte_lt : (i word : ℕ) → byte i word < 256
byte_lt i word = omega arith

words_of-IsAddress :
    (n : ℕ) (hex : List ℕ) {segments : List ℕ}
    → words_of n hex ≡ some segments
    → (length segments ≡ 2 * n) × All (λ w. w < 65_536) segments
unfolding words_of
words_of-IsAddress zero hex {segments} h =
    let bare : [] ≡ segments = some-injective h in rw (← bare) (refl, tt)
words_of-IsAddress (suc n) hex {segments} h =
    elim (Option-cases (from_str_radix_16 max_u32 (take 8 hex))) [
      | inl bad ↦ cc (rw (bad, words_of) at h)
      | inr (word, good) ↦ elim (Option-cases (words_of n (drop 8 hex))) [
        | inl bad ↦ cc (rw (good, bad, words_of) at h)
        | inr (others, rest) ↦
            let made : segments_of word ++ others ≡ segments =
              some-injective (rw (good, rest, words_of) at h) in
            let (long, small) = words_of-IsAddress n (drop 8 hex) rest in
            rw (← made) (omega (arith, long), (omega arith, (omega arith, small)))
      ]
    ]

parse_ip-IsAddress :
    (hex : Text) (ipv6 : Bool) {ip : IpAddr} → parse_ip hex ipv6 ≡ some ip → IsAddress ip
unfolding parse_ip
parse_ip-IsAddress hex true {ip} h = elim (Bool-cases (nat_eq (length (as_bytes hex)) 32)) [
  | inr short ↦ cc (rw (short, parse_ip) at h)
  | inl full ↦ elim (Option-cases (words_of 4 (as_bytes hex))) [
    | inl bad ↦ cc (rw (full, bad, parse_ip) at h)
    | inr (segments, good) ↦
        let made : v6 segments ≡ ip = some-injective (rw (full, good, parse_ip) at h) in
        subst IsAddress made (words_of-IsAddress 4 (as_bytes hex) good)
  ]
]
parse_ip-IsAddress hex false {ip} h = elim (Bool-cases (nat_eq (length (as_bytes hex)) 8)) [
  | inr short ↦ cc (rw (short, parse_ip) at h)
  | inl full ↦ elim (Option-cases (from_str_radix_16 max_u32 hex)) [
    | inl bad ↦ cc (rw (full, bad, parse_ip) at h)
    | inr (word, good) ↦
        let made : v4 (byte 0 word) (byte 1 word) (byte 2 word) (byte 3 word) ≡ ip =
          some-injective (rw (full, good, parse_ip) at h) in
        subst IsAddress made (byte_lt 0 word, byte_lt 1 word, byte_lt 2 word, byte_lt 3 word)
  ]
]

parse_local-IsSocket :
    (field : Text) (ipv6 : Bool) {s : SocketAddr} → parse_local field ipv6 ≡ some s → IsSocket s
unfolding parse_local
parse_local-IsSocket field ipv6 {s} h = elim (Option-cases (split_once b':' field)) [
  | inl bare ↦ cc (rw (bare, parse_local) at h)
  | inr ((addr_hex, port_hex), cut) ↦ elim (Option-cases (from_str_radix_16 max_u16 port_hex)) [
    | inl bad ↦ cc (rw (cut, bad, parse_local) at h)
    | inr (port, good) ↦ elim (Bool-cases (nat_eq port 0)) [
      | inl closed ↦ cc (rw (cut, good, closed, parse_local) at h)
      | inr open_port ↦ elim (Option-cases (parse_ip addr_hex ipv6)) [
        | inl bad ↦ cc (rw (cut, good, open_port, bad, parse_local) at h)
        | inr (ip, address) ↦
            let socket : SocketAddr = record { ip = ip; port = port } in
            let made : socket ≡ s =
              some-injective (rw (cut, good, open_port, address, parse_local) at h) in
            subst IsSocket made (
              parse_ip-IsAddress addr_hex ipv6 address,
              ground (arith, open_port),
              from_str_radix_16-le max_u16 port_hex good,
            )
      ]
    ]
  ]
]

row_socket-IsSocket :
    (fields : List Text) (ipv6 : Bool) {s : SocketAddr}
    → row_socket fields ipv6 ≡ some s
    → IsSocket s
unfolding row_socket
row_socket-IsSocket [] ipv6 h = cc
row_socket-IsSocket (sl ∷ []) ipv6 h = cc
row_socket-IsSocket (sl ∷ local_address ∷ []) ipv6 h = cc
row_socket-IsSocket (sl ∷ local_address ∷ rem_address ∷ []) ipv6 h = cc
row_socket-IsSocket (sl ∷ local_address ∷ rem_address ∷ st ∷ others) ipv6 {s} h =
    elim (Bool-cases (st == codes "0A")) [
      | inl listening ↦
          parse_local-IsSocket local_address ipv6 {s = s} (rw (listening, row_socket) at h)
      | inr other ↦ cc (rw (other, row_socket) at h)
    ]

parse_rows-IsSocket : (rows : List Text) (ipv6 : Bool) → All IsSocket (parse_rows rows ipv6)
unfolding parse_rows
parse_rows-IsSocket [] ipv6 = tt
parse_rows-IsSocket (row ∷ rows) ipv6 = elim (Option-cases (parse_row row ipv6)) [
  | inl other ↦ rw (other, All) (parse_rows-IsSocket rows ipv6)
  | inr (socket, e) ↦
      rw (e, All) (row_socket-IsSocket (split_whitespace row) ipv6 e, parse_rows-IsSocket rows ipv6)
]

-- Whatever the two tables say, or if they cannot be read, every socket that is found has an address
-- of four bytes or of eight segments of sixteen bits, and a port that is positive and of sixteen
-- bits.
pub listening_tcp-IsSocket : (tcp tcp6 : Option Text) → All IsSocket (listening_tcp tcp tcp6)
unfolding listening_tcp parse_table
listening_tcp-IsSocket none none = tt
listening_tcp-IsSocket none (some b) = parse_rows-IsSocket (drop 1 (lines b)) true
listening_tcp-IsSocket (some a) none =
    All-append IsSocket _ _ (parse_rows-IsSocket (drop 1 (lines a)) false) tt
listening_tcp-IsSocket (some a) (some b) =
    All-append IsSocket _ _ (parse_rows-IsSocket (drop 1 (lines a)) false)
      (parse_rows-IsSocket (drop 1 (lines b)) true)
