-- ===== src/Sort/Laws.antt =====
-- Sorting by an order that tells all elements of the input apart gives the same list for every order
-- of the input.
use raemote_server.HashSet
use mathlib.Core.List.{Permᴰ}
use raemote_server.Prelude.{
  ℕ, suc, ◌≡◌, ◌≢◌, refl, sym, ap, ◌∙◌, subst, ◌⊎◌, inl, inr, Bool, true, false, ◌||◌, List, [],
  ◌∷◌, map, arith, Eq, ◌==◌, nat_instance, list_instance, eq_iff, Bool-cases, length, All,
}
use raemote_server.Prelude.{list_eq, list_eq_iff}
use raemote_server.Text.{Text}
use raemote_server.Text.Utf8.{as_bytes, as_bytes-injective}
use raemote_server.Sort.{sorted_insert, sort_by, bytes_lt, text_lt}

module _ {ℓ} {A : Type ℓ} (less : A → A → Bool) where
  All-sorted_insert :
      (P : A → Type ℓ) (a : A) (l : List A) → P a → All P l → All P (sorted_insert less a l)
  unfolding sorted_insert
  All-sorted_insert P a [] p h = (p, tt)
  All-sorted_insert P a (b ∷ l) p h = elim (Bool-cases (less b a)) [
    | inl before ↦ rw before (h.0, All-sorted_insert P a l p h.1)
    | inr after ↦ rw after (p, h)
  ]

  -- Sorting keeps what holds of all elements, the number of elements, and distinct keys.
  pub All-sort_by : (P : A → Type ℓ) (l : List A) → All P l → All P (sort_by less l)
  unfolding sort_by
  All-sort_by P [] h = tt
  All-sort_by P (a ∷ l) h = All-sorted_insert P a (sort_by less l) h.0 (All-sort_by P l h.1)

  length-sorted_insert : (a : A) (l : List A) → length (sorted_insert less a l) ≡ suc (length l)
  unfolding sorted_insert
  length-sorted_insert a [] = refl
  length-sorted_insert a (b ∷ l) = ground (arith, length-sorted_insert a l)

  pub length-sort_by : (l : List A) → length (sort_by less l) ≡ length l
  unfolding sort_by
  length-sort_by [] = refl
  length-sort_by (a ∷ l) = length-sorted_insert a (sort_by less l) ∙ ap suc (length-sort_by l)

module _ {A K : Type 0} ⦃e : Eq K⦄ (less : A → A → Bool) (key : A → K) where
  contains-sorted_insert :
      (a : A) (l : List A) (k : K)
      → HashSet.contains (map key (sorted_insert less a l)) k
        ≡ (key a == k || HashSet.contains (map key l) k)
  unfolding sorted_insert HashSet.contains
  contains-sorted_insert a [] k = refl
  contains-sorted_insert a (b ∷ l) k = ground (arith, contains-sorted_insert a l k)

  pub contains-sort_by :
      (l : List A) (k : K)
      → HashSet.contains (map key (sort_by less l)) k ≡ HashSet.contains (map key l) k
  unfolding sort_by HashSet.contains
  contains-sort_by [] k = refl
  contains-sort_by (a ∷ l) k =
      contains-sorted_insert a (sort_by less l) k ∙ rw (contains-sort_by l k)

  sorted_insert-IsUnique :
      (a : A) (l : List A)
      → HashSet.contains (map key l) (key a) ≡ false
      → HashSet.IsUnique (map key l)
      → HashSet.IsUnique (map key (sorted_insert less a l))
  unfolding sorted_insert
  sorted_insert-IsUnique a [] n h = (n, h)
  sorted_insert-IsUnique a (b ∷ l) n h = elim (Bool-cases (less b a)) [
    | inl before ↦ rw before (
      ground (arith, contains-sorted_insert a l (key b), h.0, apart n),
      sorted_insert-IsUnique a l (rest n) h.1,
    )
    | inr after ↦ rw after (n, h)
  ]
    where
      apart : HashSet.contains (map key (b ∷ l)) (key a) ≡ false → (key a == key b) ≡ false
      apart k =
          unfold HashSet.contains in ground (arith, eq_iff (key a) (key b), eq_iff (key b) (key a))

      rest :
          HashSet.contains (map key (b ∷ l)) (key a) ≡ false
          → HashSet.contains (map key l) (key a) ≡ false
      rest k = unfold HashSet.contains in ground arith

  pub sort_by-IsUnique :
      (l : List A) → HashSet.IsUnique (map key l) → HashSet.IsUnique (map key (sort_by less l))
  unfolding sort_by
  sort_by-IsUnique [] h = tt
  sort_by-IsUnique (a ∷ l) h =
      sorted_insert-IsUnique a (sort_by less l) (contains-sort_by l (key a) ∙ h.0)
        (sort_by-IsUnique l h.1)

-- A strict order that is total up to `Same`.
pub record IsStrict {ℓ} {A : Type ℓ} (less : A → A → Bool) : Type ℓ where
  pub asymm : (a b : A) → less a b ≡ true → less b a ≡ false
  pub trans : (a b c : A) → less a b ≡ true → less b c ≡ true → less a c ≡ true

module _ {ℓ} {A : Type ℓ} (less : A → A → Bool) (strict : IsStrict less) where
  -- one of the two comes first
  abbrev pub Apart : A → A → Type 0
  Apart a b = (less a b ≡ true) ⊎ (less b a ≡ true)

  sorted_insert_comm_lt :
      (a b : A) (l : List A)
      → less a b ≡ true
      → sorted_insert less a (sorted_insert less b l)
        ≡ sorted_insert less b (sorted_insert less a l)
  unfolding sorted_insert
  sorted_insert_comm_lt a b [] h = ground (arith, strict.asymm a b)
  sorted_insert_comm_lt a b (c ∷ l) h = ground (
    arith,
    sorted_insert_comm_lt a b l h,
    strict.asymm a b,
    strict.trans c a b,
    strict.trans a b c,
  )

  sorted_insert_comm :
      (a b : A) (l : List A)
      → Apart a b
      → sorted_insert less a (sorted_insert less b l)
        ≡ sorted_insert less b (sorted_insert less a l)
  sorted_insert_comm a b l (inl h) = sorted_insert_comm_lt a b l h
  sorted_insert_comm a b l (inr h) = sym (sorted_insert_comm_lt b a l h)

  -- any two elements are apart
  abbrev pub IsDistinct : List A → Type ℓ
  IsDistinct [] = Unit
  IsDistinct (a ∷ l) = All (Apart a) l × IsDistinct l

  Apart-symm : (a b : A) → Apart a b → Apart b a
  Apart-symm a b (inl h) = inr h
  Apart-symm a b (inr h) = inl h

  All-Permᴰ : (P : A → Type 0) {l m : List A} → Permᴰ l m → All P l → All P m
  All-Permᴰ P Permᴰ.nil h = tt
  All-Permᴰ P (Permᴰ.cons e p) h = (subst P e h.0, All-Permᴰ P p h.1)
  All-Permᴰ P (Permᴰ.swap e f) h = (subst P f (h.1.0), (subst P e h.0, h.1.1))
  All-Permᴰ P (Permᴰ.trans p q) h = All-Permᴰ P q (All-Permᴰ P p h)

  IsDistinct-Permᴰ : {l m : List A} → Permᴰ l m → IsDistinct l → IsDistinct m
  IsDistinct-Permᴰ Permᴰ.nil h = tt
  IsDistinct-Permᴰ (Permᴰ.cons {a = a} {b = b} {l₂ = l₂} e p) h =
      (subst (λ x. All (Apart x) l₂) e (All-Permᴰ (Apart a) p h.0), IsDistinct-Permᴰ p h.1)
  IsDistinct-Permᴰ (Permᴰ.swap {a = a} {b = b} {b' = b'} {l = l} e f) h = (
    (
      subst (λ x. Apart x b') f (subst (Apart b) e (Apart-symm a b (h.0.0))),
      subst (λ x. All (Apart x) l) f (h.1.0),
    ),
    (subst (λ x. All (Apart x) l) e (h.0.1), h.1.1),
  )
  IsDistinct-Permᴰ (Permᴰ.trans p q) h = IsDistinct-Permᴰ q (IsDistinct-Permᴰ p h)

  -- The order of the input makes no difference.
  pub sort_by-Permᴰ : {l m : List A} → Permᴰ l m → IsDistinct l → sort_by less l ≡ sort_by less m
  unfolding sort_by
  sort_by-Permᴰ Permᴰ.nil h = refl
  sort_by-Permᴰ (Permᴰ.cons e p) h = rw (e, sort_by-Permᴰ p h.1)
  sort_by-Permᴰ (Permᴰ.swap {a = a} {b = b} {l = l} e f) h =
      rw (← e, ← f) (sorted_insert_comm a b (sort_by less l) (h.0.0))
  sort_by-Permᴰ (Permᴰ.trans p q) h = sort_by-Permᴰ p h ∙ sort_by-Permᴰ q (IsDistinct-Permᴰ p h)

bytes_lt_asymm : (a b : List ℕ) → bytes_lt a b ≡ true → bytes_lt b a ≡ false
unfolding bytes_lt
bytes_lt_asymm a [] h = cc
bytes_lt_asymm [] (y ∷ b) h = refl
bytes_lt_asymm (x ∷ a) (y ∷ b) h = ground (arith, bytes_lt_asymm a b)

bytes_lt_trans : (a b c : List ℕ) → bytes_lt a b ≡ true → bytes_lt b c ≡ true → bytes_lt a c ≡ true
unfolding bytes_lt
bytes_lt_trans a b [] h k = cc
bytes_lt_trans [] b (z ∷ c) h k = refl
bytes_lt_trans (x ∷ a) [] (z ∷ c) h k = cc
bytes_lt_trans (x ∷ a) (y ∷ b) (z ∷ c) h k = ground (arith, bytes_lt_trans a b c)

bytes_lt_total : (a b : List ℕ) → a ≢ b → (bytes_lt a b ≡ true) ⊎ (bytes_lt b a ≡ true)
unfolding bytes_lt
bytes_lt_total [] [] h = absurd (h refl)
bytes_lt_total [] (y ∷ b) h = inl refl
bytes_lt_total (x ∷ a) [] h = inr refl
bytes_lt_total (x ∷ a) (y ∷ b) h = elim (Bool-cases (list_eq a b)) [
  | inl same ↦
      let tails = (list_eq_iff a b).0 same in
      let heads : x ≢ y = λ e. h (cc (e, tails)) in ground arith
  | inr other ↦
      let tails : a ≢ b = λ e. cc ((list_eq_iff a b).1 e) in
      ground (arith, bytes_lt_total a b tails)
]

pub text_lt-IsStrict : IsStrict text_lt
text_lt-IsStrict = record {
  asymm = λ a b. bytes_lt_asymm (as_bytes a) (as_bytes b);
  trans = λ a b c. bytes_lt_trans (as_bytes a) (as_bytes b) (as_bytes c);
}

-- Different texts are ordered one way or the other.
pub text_lt_total : (a b : Text) → a ≢ b → (text_lt a b ≡ true) ⊎ (text_lt b a ≡ true)
text_lt_total a b h = bytes_lt_total (as_bytes a) (as_bytes b) (λ e. h (as_bytes-injective a b e))
