-- ===== src/Text/Trim.antt =====
-- What trimming leaves.
use raemote_server.Prelude.{
  ℕ, ◌≡◌, refl, inl, inr, true, false, [], ◌∷◌, nat_instance, list_instance, Bool-cases, is_empty,
}
use raemote_server.Text.{Text, is_whitespace, trim_start, trim_end, trim}

-- The first character, if there is one, is no whitespace.
abbrev pub StartsDark : Text → Type 0
StartsDark [] = Unit
StartsDark (c ∷ s) = is_whitespace c ≡ false

-- The last character, if there is one, is no whitespace.
abbrev pub EndsDark : Text → Type 0
EndsDark [] = Unit
EndsDark (c ∷ []) = is_whitespace c ≡ false
EndsDark (c ∷ d ∷ s) = EndsDark (d ∷ s)

pub trim_start-StartsDark : (s : Text) → StartsDark (trim_start s)
unfolding trim_start
trim_start-StartsDark [] = tt
trim_start-StartsDark (c ∷ s) = elim (Bool-cases (is_whitespace c)) [
  | inl light ↦ rw light (trim_start-StartsDark s)
  | inr dark ↦ rw dark dark
]

pub trim_start_id : (s : Text) → StartsDark s → trim_start s ≡ s
unfolding trim_start
trim_start_id [] h = refl
trim_start_id (c ∷ s) h = rw h

pub trim_end_id : (s : Text) → EndsDark s → trim_end s ≡ s
unfolding trim_end
trim_end_id [] h = refl
trim_end_id (c ∷ []) h = rw h
trim_end_id (c ∷ d ∷ s) h = rw (trim_end_id (d ∷ s) h)

EndsDark-cons : (c : ℕ) (s : Text) → is_empty s ≡ false → EndsDark s → EndsDark (c ∷ s)
EndsDark-cons c [] n h = cc
EndsDark-cons c (d ∷ s) n h = h

EndsDark-one : (c : ℕ) (s : Text) → is_empty s ≡ true → is_whitespace c ≡ false → EndsDark (c ∷ s)
EndsDark-one c [] n h = h
EndsDark-one c (d ∷ s) n h = cc

pub trim_end-EndsDark : (s : Text) → EndsDark (trim_end s)
unfolding trim_end
trim_end-EndsDark [] = tt
trim_end-EndsDark (c ∷ s) = elim (Bool-cases (is_empty (trim_end s))) [
  | inl bare ↦ elim (Bool-cases (is_whitespace c)) [
    | inl light ↦ rw (bare, light) tt
    | inr dark ↦ rw (bare, dark) (EndsDark-one c _ bare dark)
  ]
  | inr more ↦ rw more (EndsDark-cons c _ more (trim_end-EndsDark s))
]

trim_end-StartsDark : (s : Text) → StartsDark s → StartsDark (trim_end s)
unfolding trim_end
trim_end-StartsDark [] h = tt
trim_end-StartsDark (c ∷ s) h = elim (Bool-cases (is_empty (trim_end s))) [
  | inl bare ↦ rw (bare, h) h
  | inr more ↦ rw more h
]

pub trim-StartsDark : (s : Text) → StartsDark (trim s)
unfolding trim
trim-StartsDark s = trim_end-StartsDark (trim_start s) (trim_start-StartsDark s)

pub trim-EndsDark : (s : Text) → EndsDark (trim s)
unfolding trim
trim-EndsDark s = trim_end-EndsDark (trim_start s)

pub trim_id : (s : Text) → StartsDark s → EndsDark s → trim s ≡ s
unfolding trim
trim_id s h k = rw (trim_start_id s h) (trim_end_id s k)

-- Trimming twice is trimming once.
pub trim_idem : (s : Text) → trim (trim s) ≡ trim s
trim_idem s = trim_id (trim s) (trim-StartsDark s) (trim-EndsDark s)
