-- ===== src/Sort.antt =====
-- `slice::sort_by`: a stable sort by a strict order given as a Boolean test.
pub mod Laws
use raemote_server.Prelude.{
  ℕ, zero, suc, ◌+◌, ◌-◌, ◌*◌, ◌/◌, ◌%◌, ◌^◌, ◌≤◌, ◌<◌, min, max, ◌≡◌, ◌≢◌, refl, sym, ap, ◌∙◌,
  subst, ◌↔◌, ◌⊎◌, inl, inr, Bool, true, false, not, ◌&&◌, ◌||◌, List, [], ◌∷◌, ◌++◌, map,
  append_assoc, append-nil, arith, Eq, ◌==◌, nat_instance, list_instance, eq_iff, eq_self,
  if◌then◌else◌, Bool-cases, Option-cases, length, take, drop, filter, find, all, any, Option, none,
  some, is_some, unwrap_or, option_filter, is_empty, nat_eq, ltb, leb, All, All-append,
  length-append,
}
use raemote_server.Text.{Text}
use raemote_server.Text.Utf8.{as_bytes, as_bytes-injective}

module _ {ℓ} {A : Type ℓ} (less : A → A → Bool) where
  -- An element that comes first in the input goes before the equal ones.
  unfoldable pub sorted_insert : A → List A → List A
  sorted_insert a [] = a ∷ []
  sorted_insert a (b ∷ bs) = if less b a then b ∷ sorted_insert a bs else a ∷ b ∷ bs

  unfoldable pub sort_by : List A → List A
  sort_by [] = []
  sort_by (a ∷ as') = sorted_insert a (sort_by as')

-- the order of byte sequences, and of texts (`str` compares bytes)
unfoldable pub bytes_lt : List ℕ → List ℕ → Bool
bytes_lt a [] = false
bytes_lt [] (y ∷ b) = true
bytes_lt (x ∷ a) (y ∷ b) = ltb x y || (nat_eq x y && bytes_lt a b)

abbrev pub text_lt : Text → Text → Bool
text_lt a b = bytes_lt (as_bytes a) (as_bytes b)
