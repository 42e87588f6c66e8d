-- ===== src/Text.antt =====
-- Text as the sequence of its code points (`char`s), with the parts of `str` that the program uses:
-- whitespace, trimming, splitting, ASCII case, UTF-8 bytes, decimal numbers.
pub mod Utf8
pub mod Decimal
pub mod Trim
pub mod Spacing
pub mod Split
pub mod Lines
use Prim.Native.Char.{code}
use Prim.Native.String.{String}
use mathlib.Core.List.{flat_map}
use raemote_server.Prelude.{
  ℕ, zero, suc, ◌+◌, ◌-◌, ◌*◌, ◌/◌, ◌%◌, ◌^◌, ◌≤◌, ◌<◌, ◌≡◌, ◌≢◌, refl, sym, ap, ◌∙◌, ◌↔◌, ◌⊎◌, inl,
  inr, Bool, true, false, not, ◌&&◌, ◌||◌, List, [], ◌∷◌, ◌++◌, map, arith, Eq, ◌==◌, nat_instance,
  list_instance, eq_iff, eq_self, if◌then◌else◌, Bool-cases, length, Option, none, some, is_some,
  is_empty, nat_eq, ltb, leb,
}

abbrev pub Text : Type 0
Text = List ℕ

-- a literal
abbrev pub codes : String → Text
codes String.[] = []
codes (String.◌∷◌ c s) = code c ∷ codes s

abbrev in_range : ℕ → ℕ → ℕ → Bool
in_range lo hi c = leb lo c && leb c hi

-- `char::is_whitespace`: Unicode White_Space
unfoldable pub is_whitespace : ℕ → Bool
is_whitespace c =
    in_range 9 13 c
    || nat_eq c 32
    || nat_eq c 0x85
    || nat_eq c 0xa0
    || nat_eq c 0x1680
    || in_range 0x2000 0x200a c
    || in_range 0x2028 0x2029 c
    || nat_eq c 0x202f
    || nat_eq c 0x205f
    || nat_eq c 0x3000

-- `char::is_control`: the category Cc
unfoldable pub is_control : ℕ → Bool
is_control c = leb c 31 || in_range 127 159 c

unfoldable pub is_ascii_alphanumeric : ℕ → Bool
is_ascii_alphanumeric c = in_range b'0' b'9' c || in_range b'a' b'z' c || in_range b'A' b'Z' c

unfoldable pub to_ascii_lowercase : ℕ → ℕ
to_ascii_lowercase c = if in_range b'A' b'Z' c then c + 32 else c

abbrev pub lowercase : Text → Text
lowercase = map to_ascii_lowercase

abbrev pub eq_ignore_ascii_case : Text → Text → Bool
eq_ignore_ascii_case s t = lowercase s == lowercase t

unfoldable pub trim_start : Text → Text
trim_start [] = []
trim_start (c ∷ s) = if is_whitespace c then trim_start s else c ∷ s

unfoldable pub trim_end : Text → Text
trim_end [] = []
trim_end (c ∷ s) =
    let rest = trim_end s in if is_empty rest && is_whitespace c then [] else c ∷ rest

unfoldable pub trim : Text → Text
unfolding trim_start trim_end is_whitespace
trim s = trim_end (trim_start s)

-- `str::contains` and `str::split_once` at a single character
unfoldable pub has_char : ℕ → Text → Bool
has_char d [] = false
has_char d (c ∷ s) = nat_eq c d || has_char d s

unfoldable pub split_once : ℕ → Text → Option (Text × Text)
split_once d [] = none
split_once d (c ∷ s) =
    if nat_eq c d
    then some ([], s)
    else elim (split_once d s) [ none ↦ none | some (a, b) ↦ some (c ∷ a, b) ]

-- the cut at the last occurrence
unfoldable pub rsplit_once : ℕ → Text → Option (Text × Text)
rsplit_once d [] = none
rsplit_once d (c ∷ s) = elim (rsplit_once d s) [
  | none ↦ if nat_eq c d then some ([], s) else none
  | some (a, b) ↦ some (c ∷ a, b)
]

unfoldable pub strip_prefix : Text → Text → Option Text
strip_prefix [] s = some s
strip_prefix (p ∷ ps) [] = none
strip_prefix (p ∷ ps) (c ∷ s) = if nat_eq p c then strip_prefix ps s else none

abbrev pub starts_with : Text → Text → Bool
starts_with p s = is_some (strip_prefix p s)

-- `str::lines`: a final line break ends the last line and a carriage return before one is dropped
abbrev drop_cr : Text → Text
drop_cr [] = []
drop_cr (c ∷ []) = if nat_eq c 13 then [] else c ∷ []
drop_cr (c ∷ d ∷ s) = c ∷ drop_cr (d ∷ s)

lines_from : Text → Text → List Text
lines_from [] cur = if is_empty cur then [] else cur ∷ []
lines_from (c ∷ s) cur = elim (nat_eq c 10) [
  | true ↦ drop_cr cur ∷ lines_from s []
  | false ↦ lines_from s (cur ++ c ∷ [])
]

unfoldable pub lines : Text → List Text
unfolding lines_from
lines s = lines_from s []

words_from : Text → Text → List Text
words_from [] cur = if is_empty cur then [] else cur ∷ []
words_from (c ∷ s) cur = elim (is_whitespace c) [
  | true ↦ (if is_empty cur then words_from s [] else cur ∷ words_from s [])
  | false ↦ words_from s (cur ++ c ∷ [])
]

unfoldable pub split_whitespace : Text → List Text
unfolding words_from is_whitespace
split_whitespace s = words_from s []

-- `entries.join("\n")`
unfoldable pub join : Text → List Text → Text
join sep [] = []
join sep (p ∷ []) = p
join sep (p ∷ q ∷ ps) = p ++ (sep ++ join sep (q ∷ ps))
