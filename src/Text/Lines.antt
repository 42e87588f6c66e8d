-- ===== src/Text/Lines.antt =====
-- Lines that hold no whitespace are read back from the text that joins them.
use raemote_server.Prelude.{
  ◌≡◌, refl, ap, ◌∙◌, inl, inr, true, false, List, [], ◌∷◌, ◌++◌, append_assoc, append-nil, arith,
  nat_instance, list_instance, Bool-cases, nat_eq, All,
}
use raemote_server.Text.{Text, is_whitespace, trim, lines, lines_from, drop_cr, join}
use raemote_server.Text.Trim.{StartsDark, EndsDark, trim_id}

abbrev pub IsDark : Text → Type 0
IsDark = All (λ c. is_whitespace c ≡ false)

newline_light : is_whitespace 10 ≡ true
unfolding is_whitespace
newline_light = refl

return_light : is_whitespace 13 ≡ true
unfolding is_whitespace
return_light = refl

pub IsDark-trim : (s : Text) → IsDark s → trim s ≡ s
IsDark-trim s h = trim_id s (starts s h) (ends s h)
  where
    starts : (t : Text) → IsDark t → StartsDark t
    starts [] k = tt
    starts (c ∷ t) k = k.0

    ends : (t : Text) → IsDark t → EndsDark t
    ends [] k = tt
    ends (c ∷ []) k = k.0
    ends (c ∷ d ∷ t) k = ends (d ∷ t) k.1

IsDark-drop_cr : (s : Text) → IsDark s → drop_cr s ≡ s
IsDark-drop_cr [] h = refl
IsDark-drop_cr (c ∷ []) h = ground (arith, return_light)
IsDark-drop_cr (c ∷ d ∷ s) h = rw (IsDark-drop_cr (d ∷ s) h.1)

lines_from-append :
    (w rest cur : Text)
    → IsDark w
    → lines_from (w ++ 10 ∷ rest) cur ≡ drop_cr (cur ++ w) ∷ lines_from rest []
unfolding lines_from
lines_from-append [] rest cur h = rw append-nil
lines_from-append (c ∷ w) rest cur h = elim (Bool-cases (nat_eq c 10)) [
  | inl newline ↦ ground (arith, newline_light)
  | inr other ↦
      rw (other, lines_from) (lines_from-append w rest (cur ++ c ∷ []) h.1 ∙ rw append_assoc)
]

pub lines-join :
    (p : Text) (ps : List Text)
    → All IsDark (p ∷ ps)
    → lines (join (10 ∷ []) (p ∷ ps) ++ 10 ∷ []) ≡ p ∷ ps
unfolding lines join
lines-join p [] h = lines_from-append p [] [] h.0 ∙ unfold lines_from in rw (IsDark-drop_cr p h.0)
lines-join p (q ∷ ps) h =
    rw append_assoc
      (lines_from-append p _ [] h.0 ∙ rw (IsDark-drop_cr p h.0) (ap (◌∷◌ p) (lines-join q ps h.1)))
