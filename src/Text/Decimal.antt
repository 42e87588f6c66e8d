-- ===== src/Text/Decimal.antt =====
-- Decimal numbers: `format!("{n}")`, which no two numbers share, and `str::parse` for an unsigned type.
use raemote_server.Prelude.{
  ℕ, zero, suc, ◌+◌, ◌-◌, ◌*◌, ◌/◌, ◌%◌, ◌≤◌, ◌<◌, ◌≡◌, ◌≢◌, refl, sym, ap, ◌∙◌, inl, inr, false,
  ◌||◌, [], ◌∷◌, ◌++◌, arith, nat_instance, list_instance, if◌then◌else◌, Bool-cases, Option, none,
  some, is_empty, nat_eq, ltb, All, All-append,
}
use raemote_server.Text.{Text}

-- The fuel exceeds the number of digits.
decimal_from : ℕ → ℕ → Text
decimal_from zero n = []
decimal_from (suc fuel) n =
    let more = decimal_from fuel (n / 10) in
    if ltb n 10 then (b'0' + n) ∷ [] else more ++ (b'0' + n % 10) ∷ []

unfoldable pub decimal : ℕ → Text
unfolding decimal_from
decimal n = decimal_from (suc n) n

-- One digit of `from_str_radix` in base 10, with the overflow check against `bound`.
digits : ℕ → Text → ℕ → Option ℕ
digits bound [] n = some n
digits bound (c ∷ s) n =
    let next = n * 10 + (c - b'0') in
    if ltb c b'0' || ltb b'9' c then none else if ltb bound next then none else digits bound s next

-- `s.parse::<uN>()`: an optional plus sign, then at least one digit.
unfoldable pub parse_uint : ℕ → Text → Option ℕ
unfolding digits
parse_uint bound [] = none
parse_uint bound (c ∷ []) = digits bound (c ∷ []) 0
parse_uint bound (c ∷ d ∷ s) =
    if nat_eq c b'+' then digits bound (d ∷ s) 0 else digits bound (c ∷ d ∷ s) 0

value : Text → ℕ → ℕ
value [] n = n
value (c ∷ s) n = value s (n * 10 + (c - b'0'))

value-concat : (s : Text) (c n : ℕ) → value (s ++ c ∷ []) n ≡ value s n * 10 + (c - b'0')
unfolding value
value-concat [] c n = refl
value-concat (d ∷ s) c n = value-concat s c (n * 10 + (d - b'0'))

value-decimal_from : (fuel n : ℕ) → n < fuel → value (decimal_from fuel n) 0 ≡ n
unfolding decimal_from value
value-decimal_from zero n h = absurd (omega arith)
value-decimal_from (suc fuel) n h = elim (Bool-cases (ltb n 10)) [
  | inl small ↦ rw small (ground arith)
  | inr large ↦ rw large (
      ground (
        arith,
        value-concat (decimal_from fuel (n / 10)) (b'0' + n % 10) 0,
        value-decimal_from fuel (n / 10),
      ))
]

pub decimal-injective : (n m : ℕ) → decimal n ≡ decimal m → n ≡ m
unfolding decimal
decimal-injective n m h =
    sym (value-decimal_from (suc n) n (omega arith))
    ∙ ap (λ (s : Text). value s 0) h
    ∙ value-decimal_from (suc m) m (omega arith)

abbrev pub IsDigit : ℕ → Type 0
IsDigit c = (b'0' ≤ c) × (c ≤ b'9')

decimal_from-IsDigit : (fuel n : ℕ) → All IsDigit (decimal_from fuel n)
unfolding decimal_from
decimal_from-IsDigit zero n = tt
decimal_from-IsDigit (suc fuel) n = elim (Bool-cases (ltb n 10)) [
  | inl small ↦ rw small (ground arith)
  | inr large ↦ rw large (
      All-append IsDigit (decimal_from fuel (n / 10)) _ (decimal_from-IsDigit fuel (n / 10))
        (omega arith))
]

pub decimal-IsDigit : (n : ℕ) → All IsDigit (decimal n)
unfolding decimal
decimal-IsDigit n = decimal_from-IsDigit (suc n) n

digits-le :
    (bound : ℕ) (s : Text) (n : ℕ) {m : ℕ} → n ≤ bound → digits bound s n ≡ some m → m ≤ bound
unfolding digits
digits-le bound [] n h e = ground arith
digits-le bound (c ∷ s) n {m} h e = ground (arith, digits-le bound s (n * 10 + (c - b'0')) {m = m})

-- A number that is read fits its type.
pub parse_uint-le : (bound : ℕ) (s : Text) {m : ℕ} → parse_uint bound s ≡ some m → m ≤ bound
unfolding parse_uint
parse_uint-le bound [] e = ground arith
parse_uint-le bound (c ∷ []) e = digits-le bound (c ∷ []) 0 (omega arith) e
parse_uint-le bound (c ∷ d ∷ s) {m} e =
    ground (arith, digits-le bound (d ∷ s) 0 {m = m}, digits-le bound (c ∷ d ∷ s) 0 {m = m})

value-ge : (s : Text) (n : ℕ) → n ≤ value s n
unfolding value
value-ge [] n = omega arith
value-ge (c ∷ s) n = omega (arith, value-ge s (n * 10 + (c - b'0')))

digits-value :
    (bound : ℕ) (s : Text) (n : ℕ)
    → All IsDigit s
    → value s n ≤ bound
    → digits bound s n ≡ some (value s n)
unfolding digits value
digits-value bound [] n h l = refl
digits-value bound (c ∷ s) n h l =
    let next = n * 10 + (c - b'0') in
    let rest = digits-value bound s next h.1 l in
    let small = value-ge s next in ground (arith, h.0, rest, small)

parse_uint-digits :
    (bound : ℕ) (s : Text)
    → All IsDigit s
    → s ≢ []
    → value s 0 ≤ bound
    → parse_uint bound s ≡ some (value s 0)
unfolding parse_uint
parse_uint-digits bound [] h f l = absurd (f refl)
parse_uint-digits bound (c ∷ []) h f l = digits-value bound (c ∷ []) 0 h l
parse_uint-digits bound (c ∷ d ∷ s) h f l =
    let read = digits-value bound (c ∷ d ∷ s) 0 h l in
    let digit = h.0 in ground (arith, read, digit)

is_empty-push : (s : Text) (c : ℕ) → is_empty (s ++ c ∷ []) ≡ false
is_empty-push [] c = refl
is_empty-push (d ∷ s) c = refl

pub is_empty-decimal : (n : ℕ) → is_empty (decimal n) ≡ false
unfolding decimal decimal_from
is_empty-decimal n = elim (Bool-cases (ltb n 10)) [
  | inl small ↦ rw small refl
  | inr large ↦ rw large (is_empty-push (decimal_from n (n / 10)) (b'0' + n % 10))
]

-- A number that fits the type is read back from its decimal form.
pub parse_uint-decimal : (bound n : ℕ) → n ≤ bound → parse_uint bound (decimal n) ≡ some n
unfolding decimal
parse_uint-decimal bound n h =
    let same = value-decimal_from (suc n) n (omega arith) in
    parse_uint-digits bound (decimal n) (decimal-IsDigit n)
      (λ e. cc (ap is_empty e, is_empty-decimal n)) (omega (arith, same))
    ∙ ap some same
