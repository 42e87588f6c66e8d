-- ===== src/HashMap.antt =====
-- `std::collections::HashMap`, as an association list. Its iteration order is unspecified.
use raemote_server.Prelude.{
  ◌≡◌, refl, inl, inr, Bool, false, List, [], ◌∷◌, arith, Eq, ◌==◌, eq_iff, eq_self, if◌then◌else◌,
  Bool-cases, Option, none, some, is_some, option_filter,
}

module _ {ℓ} {K V : Type ℓ} ⦃e : Eq K⦄ where
  unfoldable pub get : List (K × V) → K → Option V
  get [] k = none
  get ((j, v) ∷ m) k = if j == k then some v else get m k

  unfoldable pub remove : List (K × V) → K → List (K × V)
  remove [] k = []
  remove ((j, v) ∷ m) k = if j == k then remove m k else (j, v) ∷ remove m k

  unfoldable pub insert : List (K × V) → K → V → List (K × V)
  insert m k v = (k, v) ∷ remove m k

  unfoldable pub retain : (K → V → Bool) → List (K × V) → List (K × V)
  retain p [] = []
  retain p ((j, v) ∷ m) = if p j v then (j, v) ∷ retain p m else retain p m

  -- No key stands twice.
  abbrev pub IsMap : List (K × V) → Type 0
  IsMap [] = Unit
  IsMap ((j, v) ∷ m) = (is_some (get m j) ≡ false) × IsMap m

  pub get-remove :
      (m : List (K × V)) (k j : K) → get (remove m k) j ≡ (if k == j then none else get m j)
  unfolding get remove
  get-remove [] k j = ground arith
  get-remove ((i, v) ∷ m) k j = ground (arith, get-remove m k j, eq_iff i k, eq_iff i j, eq_iff k j)

  pub get-insert :
      (m : List (K × V)) (k : K) (v : V) (j : K)
      → get (insert m k v) j ≡ (if k == j then some v else get m j)
  unfolding get insert
  get-insert m k v j = ground (arith, get-remove m k j)

  -- Over a map with distinct keys `retain` filters what a key is bound to.
  pub get-retain :
      (p : K → V → Bool) (m : List (K × V)) (k : K)
      → IsMap m
      → get (retain p m) k ≡ option_filter (p k) (get m k)
  unfolding get retain
  get-retain p [] k h = refl
  get-retain p ((j, v) ∷ m) k h =
      ground (arith, get-retain p m k h.1, get-retain p m j h.1, h.0, eq_iff j k)

  pub remove-IsMap : (m : List (K × V)) (k : K) → IsMap m → IsMap (remove m k)
  unfolding remove
  remove-IsMap [] k h = tt
  remove-IsMap ((j, v) ∷ m) k h = elim (Bool-cases (j == k)) [
    | inl same ↦ rw same (remove-IsMap m k h.1)
    | inr other ↦ rw other (ground (arith, get-remove m k j, h.0), remove-IsMap m k h.1)
  ]

  pub insert-IsMap : (m : List (K × V)) (k : K) (v : V) → IsMap m → IsMap (insert m k v)
  unfolding insert
  insert-IsMap m k v h = (ground (arith, get-remove m k k, eq_self k), remove-IsMap m k h)

  pub retain-IsMap : (p : K → V → Bool) (m : List (K × V)) → IsMap m → IsMap (retain p m)
  unfolding retain
  retain-IsMap p [] h = tt
  retain-IsMap p ((j, v) ∷ m) h = elim (Bool-cases (p j v)) [
    | inl kept ↦ rw kept (ground (arith, get-retain p m j h.1, h.0), retain-IsMap p m h.1)
    | inr gone ↦ rw gone (retain-IsMap p m h.1)
  ]
