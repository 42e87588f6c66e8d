-- ===== src/Text/Spacing.antt =====
-- Texts whose whitespace is single spaces, as the loops that clean up a name write them.
use raemote_server.Prelude.{
  ℕ, ◌≤◌, ◌≡◌, refl, ◌⊎◌, inl, inr, Bool, true, false, not, ◌&&◌, ◌||◌, [], ◌∷◌, ◌++◌, arith,
  nat_instance, list_instance, option_instance, if◌then◌else◌, Bool-cases, length, is_empty, nat_eq,
}
use raemote_server.Text.{Text, is_whitespace, trim, trim_end}
use raemote_server.Text.Trim.{StartsDark, trim_start_id}

-- whether a space, or nothing, stands before what follows the text
unfoldable pub after : Bool → Text → Bool
after spaced [] = spaced
after spaced (c ∷ s) = after (nat_eq c 32) s

pub space_light : is_whitespace 32 ≡ true
unfolding is_whitespace
space_light = refl

pub not_space : (c : ℕ) → is_whitespace c ≡ false → nat_eq c 32 ≡ false
not_space c h = ground (arith, space_light)

pub after-push : (spaced : Bool) (s : Text) (c : ℕ) → after spaced (s ++ c ∷ []) ≡ nat_eq c 32
unfolding after
after-push spaced [] c = refl
after-push spaced (d ∷ s) c = after-push (nat_eq d 32) s c

pub is_empty-push : (s : Text) (c : ℕ) → is_empty (s ++ c ∷ []) ≡ false
is_empty-push [] c = refl
is_empty-push (d ∷ s) c = refl

pub no_push :
    (prev : Bool) (out : Text)
    → (prev || is_empty out) ≡ true
    → (if not prev && not (is_empty out) then out ++ 32 ∷ [] else out) ≡ out
no_push prev out h = ground arith

pub push :
    (prev : Bool) (out : Text)
    → (prev || is_empty out) ≡ false
    → (if not prev && not (is_empty out) then out ++ 32 ∷ [] else out) ≡ out ++ 32 ∷ []
push prev out h = ground arith

pub length-trim_end : (s : Text) → length (trim_end s) ≤ length s
unfolding trim_end
length-trim_end [] = omega arith
length-trim_end (c ∷ s) = ground (arith, length-trim_end s)

-- `Plain` is asked of the characters that are no whitespace.
module _ (Plain : ℕ → Type 0) where
  -- Single spaces between dark characters. The first argument says whether a space, or nothing, stands
  -- before the text.
  abbrev pub IsSpaced : Bool → Text → Type 0
  IsSpaced spaced [] = Unit
  IsSpaced spaced (c ∷ s) =
      ((c ≡ 32) × (spaced ≡ false) × IsSpaced true s)
      ⊎ ((is_whitespace c ≡ false) × Plain c × IsSpaced false s)

  pub IsSpaced-push :
      (spaced : Bool) (s : Text) (c : ℕ)
      → IsSpaced spaced s
      → IsSpaced (after spaced s) (c ∷ [])
      → IsSpaced spaced (s ++ c ∷ [])
  unfolding after
  IsSpaced-push spaced [] c h k = k
  IsSpaced-push spaced (d ∷ s) c (inl (e, f, h)) k =
      inl (e, f, IsSpaced-push true s c h (rw e at k))
  IsSpaced-push spaced (d ∷ s) c (inr (e, f, h)) k =
      inr (e, f, IsSpaced-push false s c h (rw (not_space d e) at k))

  IsSpaced-tail :
      (spaced : Bool) (c : ℕ) (s t : Text)
      → ((b : Bool) → IsSpaced b s → IsSpaced b t)
      → IsSpaced spaced (c ∷ s)
      → IsSpaced spaced (c ∷ t)
  IsSpaced-tail spaced c s t keep (inl (e, f, k)) = inl (e, f, keep true k)
  IsSpaced-tail spaced c s t keep (inr (e, f, k)) = inr (e, f, keep false k)

  trim_end-IsSpaced : (s : Text) (spaced : Bool) → IsSpaced spaced s → IsSpaced spaced (trim_end s)
  unfolding trim_end
  trim_end-IsSpaced [] spaced h = tt
  trim_end-IsSpaced (c ∷ s) spaced h =
      elim (Bool-cases (is_empty (trim_end s) && is_whitespace c)) [
        | inl dropped ↦ rw dropped tt
        | inr kept ↦ rw kept (IsSpaced-tail spaced c s (trim_end s) (trim_end-IsSpaced s) h)
      ]

  pub IsSpaced-StartsDark : (s : Text) → IsSpaced true s → StartsDark s
  IsSpaced-StartsDark [] h = tt
  IsSpaced-StartsDark (c ∷ s) (inl (e, f, k)) = absurd (ground arith)
  IsSpaced-StartsDark (c ∷ s) (inr (e, f, k)) = e

  -- Trimming keeps the form and does not lengthen.
  pub trim-IsSpaced :
      (s : Text) → IsSpaced true s → IsSpaced true (trim s) × (length (trim s) ≤ length s)
  unfolding trim
  trim-IsSpaced s h =
      rw (trim_start_id s (IsSpaced-StartsDark s h)) (trim_end-IsSpaced s true h, length-trim_end s)
