-- ===== src/Text/Split.antt =====
-- Cutting a text at a character, and a line break behind a text that is trimmed.
use raemote_server.Prelude.{
  ℕ, ◌≡◌, refl, false, [], ◌∷◌, ◌++◌, append_assoc, arith, nat_instance, list_instance, none, some,
  is_empty,
}
use raemote_server.Text.{Text, is_whitespace, has_char, split_once, trim_end, trim}
use raemote_server.Text.Utf8.{as_bytes, encode_char}
use raemote_server.Text.Trim.{StartsDark, EndsDark, trim_start_id, trim_end_id}

pub split_once-none : (d : ℕ) (s : Text) → has_char d s ≡ false → split_once d s ≡ none
unfolding split_once has_char
split_once-none d [] h = refl
split_once-none d (c ∷ s) h = ground (arith, split_once-none d s)

pub split_once-cut :
    (d : ℕ) (s rest : Text) → has_char d s ≡ false → split_once d (s ++ d ∷ rest) ≡ some (s, rest)
unfolding split_once has_char
split_once-cut d [] rest h = ground arith
split_once-cut d (c ∷ s) rest h = ground (arith, split_once-cut d s rest)

as_bytes-append : (s t : Text) → as_bytes (s ++ t) ≡ as_bytes s ++ as_bytes t
unfolding as_bytes
as_bytes-append [] t = refl
as_bytes-append (c ∷ s) t = rw (as_bytes-append s t, append_assoc) refl

pub as_bytes-line : (s : Text) → as_bytes (s ++ 10 ∷ []) ≡ as_bytes s ++ 10 ∷ []
unfolding as_bytes encode_char
as_bytes-line s = as_bytes-append s (10 ∷ [])

trim_end-line : (s : Text) → trim_end (s ++ 10 ∷ []) ≡ trim_end s
unfolding trim_end is_whitespace
trim_end-line [] = refl
trim_end-line (c ∷ s) = rw (trim_end-line s) refl

pub trim-line :
    (s : Text) → is_empty s ≡ false → StartsDark s → EndsDark s → trim (s ++ 10 ∷ []) ≡ s
unfolding trim
trim-line [] n h k = cc
trim-line (c ∷ s) n h k =
    rw (trim_start_id (c ∷ s ++ 10 ∷ []) h, trim_end-line (c ∷ s)) (trim_end_id (c ∷ s) k)
