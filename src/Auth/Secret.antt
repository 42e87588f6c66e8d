-- ===== src/Auth/Secret.antt =====
-- auth.rs: the comparison of secrets, and the printing of random bytes.
use Prim.Native.Nat.{bit_or, bit_xor, digits, differ, bit_or-bitwise, bit_xor-bitwise}
use raemote_server.Prelude.{
  ℕ, zero, suc, ◌+◌, ◌-◌, ◌*◌, ◌/◌, ◌%◌, ◌≤◌, ◌<◌, max, ◌≡◌, refl, sym, ap, ◌∙◌, ◌↔◌, inl, inr,
  Bool, true, false, List, [], ◌∷◌, arith, ◌==◌, nat_instance, list_instance, eq_iff, if◌then◌else◌,
  Bool-cases, length, nat_eq, ltb, All,
}
use raemote_server.Text.{Text}
use raemote_server.Text.Utf8.{as_bytes, as_bytes-injective}

-- the loop over the zipped bytes
collect_diff : List ℕ → List ℕ → ℕ → ℕ
collect_diff [] b diff = diff
collect_diff (x ∷ a) [] diff = diff
collect_diff (x ∷ a) (y ∷ b) diff = collect_diff a b (bit_or diff (bit_xor x y))

unfoldable pub constant_time_eq : List ℕ → List ℕ → Bool
unfolding collect_diff
constant_time_eq a b = if nat_eq (length a) (length b) then nat_eq (collect_diff a b 0) 0 else false

-- one digit of `{:02x}`
unfoldable pub hex_digit : ℕ → ℕ
hex_digit d = if ltb d 10 then b'0' + d else b'a' + (d - 10)

unfoldable pub to_hex : List ℕ → Text
unfolding hex_digit
to_hex [] = []
to_hex (b ∷ bytes) = hex_digit (b / 16) ∷ hex_digit (b % 16) ∷ to_hex bytes

or_zero : (n a b : ℕ) → a ≤ n → digits (λ b. b) max n a b ≡ 0 → (a ≡ 0) × (b ≡ 0)
or_zero zero a b h e = omega arith
or_zero (suc n) zero b h e = omega arith
or_zero (suc n) (suc a) b h e =
    omega (arith, or_zero n (suc a / 2) (b / 2) (omega arith) (omega arith))

differ_zero : (x y : ℕ) → differ x y ≡ 0 → x ≡ y
differ_zero zero y h = sym h
differ_zero (suc x) zero h = absurd (omega arith)
differ_zero (suc x) (suc y) h = ap suc (differ_zero x y h)

differ_self : (x : ℕ) → differ x x ≡ 0
differ_self zero = refl
differ_self (suc x) = differ_self x

xor_zero : (n a b : ℕ) → a ≤ n → digits (λ b. b) differ n a b ≡ 0 → a ≡ b
xor_zero zero a b h e = omega arith
xor_zero (suc n) zero b h e = omega arith
xor_zero (suc n) (suc a) b h e = omega (
  arith,
  xor_zero n (suc a / 2) (b / 2) (omega arith) (omega arith),
  differ_zero (suc a % 2) (b % 2) (omega arith),
)

xor_self : (n a : ℕ) → a ≤ n → digits (λ b. b) differ n a a ≡ 0
xor_self zero a h = omega arith
xor_self (suc n) zero h = refl
xor_self (suc n) (suc a) h =
    omega (arith, xor_self n (suc a / 2) (omega arith), differ_self (suc a % 2))

bit_or-eq-zero : (a b : ℕ) → bit_or a b ≡ 0 → (a ≡ 0) × (b ≡ 0)
bit_or-eq-zero a b h = or_zero a a b (omega arith) (omega (arith, bit_or-bitwise a b))

bit_xor-eq-zero : (a b : ℕ) → bit_xor a b ≡ 0 → a ≡ b
bit_xor-eq-zero a b h = xor_zero a a b (omega arith) (omega (arith, bit_xor-bitwise a b))

bit_xor_self : (a : ℕ) → bit_xor a a ≡ 0
bit_xor_self a = bit_xor-bitwise a a ∙ xor_self a a (omega arith)

collect_diff_sound :
    (a b : List ℕ) (diff : ℕ)
    → length a ≡ length b
    → collect_diff a b diff ≡ 0
    → (diff ≡ 0) × (a ≡ b)
unfolding collect_diff
collect_diff_sound [] [] diff l h = (h, refl)
collect_diff_sound [] (y ∷ b) diff l h = absurd (omega arith)
collect_diff_sound (x ∷ a) [] diff l h = absurd (omega arith)
collect_diff_sound (x ∷ a) (y ∷ b) diff l h =
    let (zeros, rest) = collect_diff_sound a b (bit_or diff (bit_xor x y)) (omega arith) h in
    let (before, here) = bit_or-eq-zero diff (bit_xor x y) zeros in
    (before, cc (bit_xor-eq-zero x y here, rest))

collect_diff_self : (a : List ℕ) → collect_diff a a 0 ≡ 0
unfolding collect_diff
collect_diff_self [] = refl
collect_diff_self (x ∷ a) = rw (bit_xor_self x) (collect_diff_self a)

-- The loop with no early exit decides equality of the two byte sequences, whatever their lengths.
pub constant_time_eq_iff : (a b : List ℕ) → (constant_time_eq a b ≡ true) ↔ (a ≡ b)
unfolding constant_time_eq
constant_time_eq_iff a b = (
  λ h. (collect_diff_sound a b 0 (ground arith) (ground arith)).1,
  λ e. rw e (ground (arith, collect_diff_self b)),
)

-- On texts, it is equality of texts.
pub constant_time_eq-as_bytes : (s t : Text) → constant_time_eq (as_bytes s) (as_bytes t) ≡ (s == t)
constant_time_eq-as_bytes s t = elim (Bool-cases (s == t)) [
  | inl same ↦
      rw same
        ((constant_time_eq_iff (as_bytes s) (as_bytes t)).1 (ap as_bytes ((eq_iff s t).0 same)))
  | inr other ↦ elim (Bool-cases (constant_time_eq (as_bytes s) (as_bytes t))) [
    | inl hit ↦ cc (
        (eq_iff s t).1
          (as_bytes-injective s t ((constant_time_eq_iff (as_bytes s) (as_bytes t)).0 hit)))
    | inr miss ↦ rw (miss, other)
  ]
]

from_hex_digit : ℕ → ℕ
from_hex_digit c = if ltb c b'a' then c - b'0' else c - b'a' + 10

-- the bytes that pairs of hex digits spell
pub from_hex : Text → List ℕ
unfolding from_hex_digit
from_hex [] = []
from_hex (c ∷ []) = []
from_hex (c ∷ d ∷ s) = (from_hex_digit c * 16 + from_hex_digit d) ∷ from_hex s

-- A token's text determines its bytes, so no two random tokens print alike.
pub from_hex-to_hex : (bytes : List ℕ) → All (λ b. b < 256) bytes → from_hex (to_hex bytes) ≡ bytes
unfolding from_hex to_hex
from_hex-to_hex [] h = refl
from_hex-to_hex (b ∷ bytes) h = ground (arith, from_hex-to_hex bytes h.1)

pub length-to_hex : (bytes : List ℕ) → length (to_hex bytes) ≡ 2 * length bytes
unfolding to_hex
length-to_hex [] = refl
length-to_hex (b ∷ bytes) = omega (arith, length-to_hex bytes)
