-- ===== src/Logs.antt =====
-- logs.rs: the newest log file of a directory, and the last lines of a file. The names of the
-- entries and the bytes of the file are arguments; lossy UTF-8 decoding is a parameter.
use raemote_server.Prelude.{
  ℕ, zero, suc, ◌-◌, ◌*◌, ◌≤◌, min, ◌≡◌, refl, ap, inl, inr, Bool, true, false, ◌&&◌, List, [], ◌∷◌,
  ◌++◌, map, arith, nat_instance, list_instance, option_instance, if◌then◌else◌, Bool-cases, length,
  take, drop, Option, none, some, nat_eq, ltb, leb, All,
}
use mathlib.Core.List.{reverse}
use raemote_server.Sort.{text_lt}
use raemote_server.Text.{Text, codes, lines, starts_with}

-- `str::ends_with`
abbrev ends_with : Text → Text → Bool
ends_with p s = starts_with (reverse p) (reverse s)

abbrev pub is_log : Text → Bool
is_log name = starts_with (codes "raemoted.") name && ends_with (codes ".log") name

-- the loop over the entries; a name that is no UTF-8 is `none`
unfoldable pub latest_from : Option Text → List (Option Text) → Option Text
latest_from best [] = best
latest_from best (none ∷ entries) = latest_from best entries
latest_from best (some name ∷ entries) =
    let replace : Bool = elim best [ none ↦ true | some current ↦ text_lt current name ] in
    latest_from (if is_log name && replace then some name else best) entries

unfoldable pub latest_log_file : List (Option Text) → Option Text
latest_log_file entries = latest_from none entries

abbrev pub tail_window : ℕ
tail_window = 256 * 1024

-- where the removal of escape sequences stands: in the text, behind an escape, or in a sequence
pub data Scan : Type 0 where
  plain escaped in_sequence : Scan

abbrev is_final : ℕ → Bool
is_final c = leb b'@' c && leb c b'~'

unfoldable pub strip_from : Scan → Text → Text
strip_from plain [] = []
strip_from escaped [] = []
strip_from in_sequence [] = []
strip_from plain (c ∷ s) =
    let rest = strip_from plain s in
    let behind = strip_from escaped s in if nat_eq c 27 then behind else c ∷ rest
strip_from escaped (c ∷ s) =
    let rest = strip_from plain s in
    let behind = strip_from escaped s in
    let inside = strip_from in_sequence s in
    if nat_eq c b'[' then inside else if nat_eq c 27 then behind else c ∷ rest
strip_from in_sequence (c ∷ s) =
    let rest = strip_from plain s in
    let inside = strip_from in_sequence s in if is_final c then rest else inside

unfoldable pub strip_ansi : Text → Text
strip_ansi input = strip_from plain input

unfoldable pub tail_lines : (List ℕ → Text) → List ℕ → ℕ → List Text
tail_lines lossy file count =
    let start = length file - tail_window in
    let read = lines (lossy (drop start file)) in
    let whole = if ltb 0 start then drop 1 read else read in
    map strip_ansi (drop (length whole - count) whole)

-- no escape character, so nothing that a terminal obeys
abbrev pub IsPlainText : Text → Type 0
IsPlainText = All (λ c. nat_eq c 27 ≡ false)

strip_from-IsPlainText : (m : Scan) (s : Text) → IsPlainText (strip_from m s)
unfolding strip_from
strip_from-IsPlainText plain [] = tt
strip_from-IsPlainText escaped [] = tt
strip_from-IsPlainText in_sequence [] = tt
strip_from-IsPlainText plain (c ∷ s) = elim (Bool-cases (nat_eq c 27)) [
  | inl escape ↦ rw (escape, All) (strip_from-IsPlainText escaped s)
  | inr other ↦ rw (other, All) (other, strip_from-IsPlainText plain s)
]
strip_from-IsPlainText escaped (c ∷ s) = elim (Bool-cases (nat_eq c b'[')) [
  | inl opening ↦ rw (opening, All) (strip_from-IsPlainText in_sequence s)
  | inr bare ↦ elim (Bool-cases (nat_eq c 27)) [
    | inl escape ↦ rw (bare, escape, All) (strip_from-IsPlainText escaped s)
    | inr other ↦ rw (bare, other, All) (other, strip_from-IsPlainText plain s)
  ]
]
strip_from-IsPlainText in_sequence (c ∷ s) = elim (Bool-cases (is_final c)) [
  | inl final ↦ rw (final, All) (strip_from-IsPlainText plain s)
  | inr more ↦ rw (more, All) (strip_from-IsPlainText in_sequence s)
]

strip_plain : (s : Text) → IsPlainText s → strip_from plain s ≡ s
unfolding strip_from
strip_plain [] h = refl
strip_plain (c ∷ s) h = rw h.0 (ap (◌∷◌ c) (strip_plain s h.1))

length-map : {A B : Type 0} (f : A → B) (xs : List A) → length (map f xs) ≡ length xs
length-map f [] = refl
length-map f (x ∷ xs) = ap suc (length-map f xs)

length-drop : {A : Type 0} (n : ℕ) (xs : List A) → length (drop n xs) ≡ length xs - n
length-drop zero xs = omega arith
length-drop (suc n) [] = omega arith
length-drop (suc n) (x ∷ xs) = omega (arith, length-drop n xs)

All-map :
    {A B : Type 0} (P : B → Type 0) (f : A → B) (xs : List A)
    → ((x : A) → P (f x))
    → All P (map f xs)
All-map P f [] h = tt
All-map P f (x ∷ xs) h = (h x, All-map P f xs h)

take-drop : {A : Type 0} (n : ℕ) (xs : List A) → xs ≡ take n xs ++ drop n xs
take-drop zero xs = refl
take-drop (suc n) [] = refl
take-drop (suc n) (x ∷ xs) = ap (◌∷◌ x) (take-drop n xs)

All-drop : {A : Type 0} (P : A → Type 0) (n : ℕ) (xs : List A) → All P xs → All P (drop n xs)
All-drop P zero xs h = h
All-drop P (suc n) [] h = tt
All-drop P (suc n) (x ∷ xs) h = All-drop P n xs h.1

strip_plain_all : (xs : List Text) → All IsPlainText xs → map strip_ansi xs ≡ xs
unfolding strip_ansi
strip_plain_all [] h = refl
strip_plain_all (x ∷ xs) h = ground (arith, strip_plain x h.0, strip_plain_all xs h.1)

-- At most as many lines are shown as are asked for, and no line has an escape character, whatever
-- bytes the file has.
pub tail_lines-IsPlainText :
    (lossy : List ℕ → Text) (file : List ℕ) (count : ℕ)
    → (length (tail_lines lossy file count) ≤ count) × All IsPlainText (tail_lines lossy file count)
unfolding tail_lines strip_ansi
tail_lines-IsPlainText lossy file count =
    let start = length file - tail_window in
    let read = lines (lossy (drop start file)) in
    let whole = if ltb 0 start then drop 1 read else read in
    let shown = drop (length whole - count) whole in
    (
      omega (arith, length-map strip_ansi shown, length-drop (length whole - count) whole),
      All-map IsPlainText strip_ansi shown (strip_from-IsPlainText plain),
    )

-- A file that fits into the window and has no escape character is shown as it is: the lines are the
-- last ones of its text.
pub tail_lines-last :
    (lossy : List ℕ → Text) (file : List ℕ) (count : ℕ)
    → length file ≤ tail_window
    → All IsPlainText (lines (lossy file))
    → (front : List Text) × (lines (lossy file) ≡ front ++ tail_lines lossy file count)
      × (length (tail_lines lossy file count) ≡ min count (length (lines (lossy file))))
unfolding tail_lines
tail_lines-last lossy file count h k =
    let fits : length file - tail_window ≡ 0 = omega (arith, h) in
    let read = lines (lossy file) in
    let from = length read - count in
    let shown = strip_plain_all (drop from read) (All-drop IsPlainText from read k) in
    rw (fits, tail_lines)
      (
        take from read,
        rw shown (take-drop from read),
        rw shown (omega (arith, length-drop from read)),
      )
