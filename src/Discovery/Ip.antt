-- ===== src/Discovery/Ip.antt =====
-- `std::net::IpAddr` and `SocketAddr`, with the tests and the printing that the program uses.
use raemote_server.Prelude.{
  ℕ, zero, suc, ◌+◌, ◌-◌, ◌/◌, ◌%◌, ◌≡◌, refl, ◌↔◌, Bool, true, false, ◌&&◌, List, [], ◌∷◌, ◌++◌,
  map, arith, Eq, ◌==◌, nat_instance, list_instance, eq_iff, if◌then◌else◌, take, drop, all, Option,
  none, some, unwrap_or, nat_eq, ltb, leb,
}
use raemote_server.Text.{Text, codes, join}
use raemote_server.Text.Decimal.{decimal}

-- four bytes, or eight 16-bit segments
pub data IpAddr : Type 0 where
  v4 : ℕ → ℕ → ℕ → ℕ → IpAddr
  v6 : List ℕ → IpAddr

pub record SocketAddr : Type 0 where
  pub ip : IpAddr
  pub port : ℕ

abbrev pub ip_eq : IpAddr → IpAddr → Bool
ip_eq (v4 a b c d) (v4 a' b' c' d') = nat_eq a a' && (nat_eq b b' && (nat_eq c c' && nat_eq d d'))
ip_eq (v4 a b c d) (v6 ws) = false
ip_eq (v6 ws) (v4 a b c d) = false
ip_eq (v6 ws) (v6 ws') = ws == ws'

pub ip_eq_iff : (a b : IpAddr) → (ip_eq a b ≡ true) ↔ (a ≡ b)
ip_eq_iff (v4 a b c d) (v4 a' b' c' d') = ground arith
ip_eq_iff (v4 a b c d) (v6 ws) = ground arith
ip_eq_iff (v6 ws) (v4 a b c d) = ground arith
ip_eq_iff (v6 ws) (v6 ws') = ground (arith, eq_iff ws ws')

abbrev pub socket_eq : SocketAddr → SocketAddr → Bool
socket_eq a b = ip_eq a.ip b.ip && nat_eq a.port b.port

pub socket_eq_iff : (a b : SocketAddr) → (socket_eq a b ≡ true) ↔ (a ≡ b)
socket_eq_iff a b = ground (arith, ip_eq_iff a.ip b.ip)

instance abbrev pub socket_instance : Eq SocketAddr
socket_instance = record { eq = socket_eq; eq_iff_path = socket_eq_iff }

abbrev zeros : List ℕ → Bool
zeros = all (λ w. nat_eq w 0)

-- all zero but the last, which is one
is_one : List ℕ → Bool
is_one [] = false
is_one (w ∷ []) = nat_eq w 1
is_one (w ∷ x ∷ ws) = nat_eq w 0 && is_one (x ∷ ws)

unfoldable pub is_unspecified : IpAddr → Bool
is_unspecified (v4 a b c d) = nat_eq a 0 && nat_eq b 0 && nat_eq c 0 && nat_eq d 0
is_unspecified (v6 ws) = zeros ws

unfoldable pub is_loopback : IpAddr → Bool
unfolding is_one
is_loopback (v4 a b c d) = nat_eq a 127
is_loopback (v6 ws) = is_one ws

unfoldable pub hex_digits : ℕ → ℕ → Text
hex_digits zero n = []
hex_digits (suc fuel) n =
    let digit = if ltb (n % 16) 10 then b'0' + n % 16 else b'a' + (n % 16 - 10) in
    let more = hex_digits fuel (n / 16) in if ltb n 16 then digit ∷ [] else more ++ digit ∷ []

-- `{:x}` of a 16-bit segment
abbrev hex : ℕ → Text
hex = hex_digits 4

leading_zeros : List ℕ → ℕ
leading_zeros [] = 0
leading_zeros (w ∷ ws) = if nat_eq w 0 then suc (leading_zeros ws) else 0

-- where the longest run of zero segments starts, and its length; the first of equal ones
longest_run : ℕ → List ℕ → ℕ × ℕ
longest_run i [] = (i, 0)
longest_run i (w ∷ ws) =
    let (start, len) = longest_run (suc i) ws in
    let here = leading_zeros (w ∷ ws) in if leb len here then (i, here) else (start, len)

dotted : ℕ → ℕ → ℕ → ℕ → Text
dotted a b c d = join (codes ".") (decimal a ∷ decimal b ∷ decimal c ∷ decimal d ∷ [])

colons : List ℕ → Text
colons ws = join (codes ":") (map hex ws)

print_v6 : List ℕ → Text
unfolding longest_run leading_zeros colons
print_v6 ws =
    let (start, len) = longest_run 0 ws in
    if ltb 1 len
    then colons (take start ws) ++ (codes "::" ++ colons (drop (start + len) ws))
    else colons ws

-- An IPv4-mapped address prints its IPv4 part.
mapped : List ℕ → Option Text
unfolding dotted
mapped (a ∷ b ∷ c ∷ d ∷ e ∷ f ∷ g ∷ h ∷ []) =
    if zeros (a ∷ b ∷ c ∷ d ∷ e ∷ []) && nat_eq f 0xffff
    then some (codes "::ffff:" ++ dotted (g / 256) (g % 256) (h / 256) (h % 256))
    else none
mapped _ = none

-- `Display` of an address
unfoldable pub ip_to_string : IpAddr → Text
unfolding dotted print_v6 mapped
ip_to_string (v4 a b c d) = dotted a b c d
ip_to_string (v6 ws) = unwrap_or (mapped ws) (print_v6 ws)

-- `Display` of a socket address
unfoldable pub socket_to_string : SocketAddr → Text
socket_to_string s = go s.ip
  where
    go : IpAddr → Text
    go (v4 a b c d) = ip_to_string (v4 a b c d) ++ (codes ":" ++ decimal s.port)
    go (v6 ws) = codes "[" ++ (ip_to_string (v6 ws) ++ (codes "]:" ++ decimal s.port))

printing :
    (ip_to_string (v4 192 168 1 5) ≡ codes "192.168.1.5")
    × (ip_to_string (v6 (0 ∷ 0 ∷ 0 ∷ 0 ∷ 0 ∷ 0 ∷ 0 ∷ 1 ∷ [])) ≡ codes "::1")
    × (ip_to_string (v6 (0x2001 ∷ 0xdb8 ∷ 0 ∷ 0 ∷ 1 ∷ 0 ∷ 0 ∷ 1 ∷ [])) ≡ codes "2001:db8::1:0:0:1")
    × (ip_to_string (v6 (0xfe80 ∷ 0 ∷ 1 ∷ 2 ∷ 3 ∷ 4 ∷ 5 ∷ 6 ∷ [])) ≡ codes "fe80:0:1:2:3:4:5:6")
unfolding ip_to_string decimal hex_digits join
printing = (refl, refl, refl, refl)
