-- ===== src/Text/Utf8.antt =====
-- The UTF-8 bytes of a text (`str::as_bytes`, `str::len`). The encoding is injective.
use raemote_server.Prelude.{
  ℕ, ◌+◌, ◌/◌, ◌%◌, ◌≤◌, ◌≡◌, ◌≢◌, refl, sym, List, [], ◌∷◌, ◌++◌, arith, nat_instance,
  list_instance, if◌then◌else◌, length, ltb,
}
use raemote_server.Text.{Text}

unfoldable pub encode_char : ℕ → List ℕ
encode_char c =
    if ltb c 0x80
    then c ∷ []
    else if ltb c 0x800
    then (0xc0 + c / 64) ∷ (0x80 + c % 64) ∷ []
    else if ltb c 0x10000
    then (0xe0 + c / 4096) ∷ (0x80 + c / 64 % 64) ∷ (0x80 + c % 64) ∷ []
    else (0xf0 + c / 262144) ∷ (0x80 + c / 4096 % 64) ∷ (0x80 + c / 64 % 64) ∷ (0x80 + c % 64) ∷ []

unfoldable pub as_bytes : Text → List ℕ
as_bytes [] = []
as_bytes (c ∷ s) = encode_char c ++ as_bytes s

-- `str::len`
abbrev pub len : Text → ℕ
len s = length (as_bytes s)

encode_char-injective :
    (c d : ℕ) (r s : List ℕ) → encode_char c ++ r ≡ encode_char d ++ s → (c ≡ d) × (r ≡ s)
unfolding encode_char
encode_char-injective c d r s h = ground arith

encode_char-ne-nil : (c : ℕ) (r : List ℕ) → encode_char c ++ r ≢ []
unfolding encode_char
encode_char-ne-nil c r h = ground arith

-- Two texts with the same bytes are the same text.
pub as_bytes-injective : (s t : Text) → as_bytes s ≡ as_bytes t → s ≡ t
unfolding as_bytes
as_bytes-injective [] [] h = refl
as_bytes-injective [] (d ∷ t) h = absurd (encode_char-ne-nil d (as_bytes t) (sym h))
as_bytes-injective (c ∷ s) [] h = absurd (encode_char-ne-nil c (as_bytes s) h)
as_bytes-injective (c ∷ s) (d ∷ t) h =
    let (e, rest) = encode_char-injective c d (as_bytes s) (as_bytes t) h in
    cc (e, as_bytes-injective s t rest)

pub length-le-len : (s : Text) → length s ≤ len s
unfolding as_bytes encode_char
length-le-len [] = omega arith
length-le-len (c ∷ s) = ground (arith, length-le-len s)
