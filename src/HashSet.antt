-- ===== src/HashSet.antt =====
-- `std::collections::HashSet`, as a list without repetition. Its iteration order is unspecified.
use raemote_server.Prelude.{
  ◌≤◌, ◌+◌, ◌≡◌, refl, inl, inr, Bool, true, false, not, ◌&&◌, ◌||◌, List, [], ◌∷◌, ◌++◌, arith, Eq,
  ◌==◌, eq_iff, if◌then◌else◌, Bool-cases, length,
}

module _ {ℓ} {A : Type ℓ} ⦃e : Eq A⦄ where
  unfoldable pub contains : List A → A → Bool
  contains [] a = false
  contains (x ∷ xs) a = x == a || contains xs a

  -- the set with the element; `HashSet::insert` also returns whether it was new
  unfoldable pub insert : List A → A → List A
  insert xs a = if contains xs a then xs else a ∷ xs

  unfoldable pub remove : List A → A → List A
  remove [] a = []
  remove (x ∷ xs) a = if x == a then remove xs a else x ∷ remove xs a

  -- `collect` into a set
  unfoldable pub from_list : List A → List A
  from_list [] = []
  from_list (x ∷ xs) = insert (from_list xs) x

  abbrev pub IsUnique : List A → Type 0
  IsUnique [] = Unit
  IsUnique (x ∷ xs) = (contains xs x ≡ false) × IsUnique xs

  pub contains-insert :
      (xs : List A) (a b : A) → contains (insert xs a) b ≡ (a == b || contains xs b)
  unfolding contains insert
  contains-insert xs a b = elim (Bool-cases (contains xs a)) [
    | inl old ↦ elim (Bool-cases (a == b)) [
      | inl same ↦ rw (old, same) (rw ((eq_iff a b).0 same) at old)
      | inr other ↦ rw (old, other)
    ]
    | inr new ↦ rw new
  ]

  pub contains-remove :
      (xs : List A) (a b : A) → contains (remove xs a) b ≡ (not (a == b) && contains xs b)
  unfolding contains remove
  contains-remove [] a b = ground arith
  contains-remove (x ∷ xs) a b =
      ground (arith, contains-remove xs a b, eq_iff x a, eq_iff a b, eq_iff x b)

  pub contains-append :
      (xs ys : List A) (a : A) → contains (xs ++ ys) a ≡ (contains xs a || contains ys a)
  unfolding contains
  contains-append [] ys a = refl
  contains-append (x ∷ xs) ys a = ground (arith, contains-append xs ys a)

  pub contains-from_list : (xs : List A) (a : A) → contains (from_list xs) a ≡ contains xs a
  unfolding contains from_list
  contains-from_list [] a = refl
  contains-from_list (x ∷ xs) a =
      ground (arith, contains-insert (from_list xs) x a, contains-from_list xs a)

  pub insert-IsUnique : (xs : List A) (a : A) → IsUnique xs → IsUnique (insert xs a)
  unfolding insert
  insert-IsUnique xs a h = elim (Bool-cases (contains xs a)) [
    | inl old ↦ rw old h
    | inr new ↦ rw new (new, h)
  ]

  pub remove-IsUnique : (xs : List A) (a : A) → IsUnique xs → IsUnique (remove xs a)
  unfolding remove
  remove-IsUnique [] a h = tt
  remove-IsUnique (x ∷ xs) a h = elim (Bool-cases (x == a)) [
    | inl same ↦ rw same (remove-IsUnique xs a h.1)
    | inr other ↦ rw other (ground (arith, contains-remove xs a x, h.0), remove-IsUnique xs a h.1)
  ]

  pub from_list-IsUnique : (xs : List A) → IsUnique (from_list xs)
  unfolding from_list
  from_list-IsUnique [] = tt
  from_list-IsUnique (x ∷ xs) = insert-IsUnique (from_list xs) x (from_list-IsUnique xs)

  pub length-remove-le : (xs : List A) (a : A) → length (remove xs a) ≤ length xs
  unfolding remove
  length-remove-le [] a = omega arith
  length-remove-le (x ∷ xs) a = ground (arith, length-remove-le xs a)

  -- Removing a member makes the list shorter.
  pub length-remove :
      (xs : List A) (a : A) → contains xs a ≡ true → length (remove xs a) + 1 ≤ length xs
  unfolding remove contains
  length-remove [] a h = cc
  length-remove (x ∷ xs) a h = ground (arith, length-remove-le xs a, length-remove xs a)
