-- ===== src/Discovery/Probe/Searching.antt =====
-- discovery/probe.rs: the search for bytes finds the first place where they stand.
use raemote_server.Prelude.{
  ℕ, suc, ◌+◌, ◌≤◌, ◌≡◌, refl, sym, ap, ◌∙◌, inl, inr, true, ◌||◌, List, [], ◌∷◌, ◌++◌, arith, ◌==◌,
  nat_instance, list_instance, option_instance, eq_iff, eq_self, Bool-cases, length, take, drop,
  some, is_empty, ltb, some-injective,
}
use raemote_server.Discovery.Probe.Bytes.{find_slice, position}

take_prefix : (n s : List ℕ) → (take (length n) s == n) ≡ true → (r : List ℕ) × (s ≡ n ++ r)
take_prefix [] s h = (s, refl)
take_prefix (c ∷ n) [] h = cc
take_prefix (c ∷ n) (d ∷ s) h =
    let (r, e) = take_prefix n s (ground arith) in (r, ground (arith, eq_iff c d))

position-found :
    (needle : List ℕ) (i : ℕ) (s : List ℕ) {pos : ℕ}
    → position (λ rest. take (length needle) rest == needle) i s ≡ some pos
    → (start rest : List ℕ) × (s ≡ start ++ (needle ++ rest)) × (pos ≡ i + length start)
unfolding position
position-found needle i [] h = cc
position-found needle i (c ∷ s) {pos} h =
    elim (Bool-cases (take (length needle) (c ∷ s) == needle)) [
      | inl hit ↦
          let (rest, e) = take_prefix needle (c ∷ s) hit in
          let here : i ≡ pos = some-injective (sym (rw hit refl) ∙ h) in
          ([], rest, e, omega (arith, here))
      | inr miss ↦
          let later = sym (rw miss refl) ∙ h in
          let (start, rest, e, at) = position-found needle (suc i) s {pos = pos} later in
          (c ∷ start, rest, ap (◌∷◌ c) e, omega (arith, at))
    ]

pub take-append : (s t : List ℕ) → take (length s) (s ++ t) ≡ s
take-append [] t = refl
take-append (c ∷ s) t = ap (◌∷◌ c) (take-append s t)

position-first :
    (needle : List ℕ) (i : ℕ) (s : List ℕ) {pos : ℕ}
    → position (λ rest. take (length needle) rest == needle) i s ≡ some pos
    → (a b : List ℕ) → s ≡ a ++ (needle ++ b)
    → pos ≤ i + length a
unfolding position
position-first needle i [] h a b e = cc
position-first needle i (c ∷ s) {pos} h [] b e =
    elim (Bool-cases (take (length needle) (c ∷ s) == needle)) [
      | inl hit ↦ let here : i ≡ pos = some-injective (sym (rw hit refl) ∙ h) in omega (arith, here)
      | inr miss ↦ cc (
        miss,
        ap (λ t. take (length needle) t == needle) e
            ∙ (ap (λ t. t == needle) (take-append needle b) ∙ eq_self needle),
      )
    ]
position-first needle i (c ∷ s) {pos} h (d ∷ a) b e =
    elim (Bool-cases (take (length needle) (c ∷ s) == needle)) [
      | inl hit ↦ let here : i ≡ pos = some-injective (sym (rw hit refl) ∙ h) in omega (arith, here)
      | inr miss ↦
          let rest =
            position-first needle (suc i) s {pos = pos} (sym (rw miss refl) ∙ h) a b
              (ap (drop 1) e) in
          omega (arith, rest)
    ]

-- what stands before the first place of the bytes that are looked for
abbrev pub IsFirst : List ℕ → List ℕ → List ℕ → Type 0
IsFirst needle start s = (a b : List ℕ) → s ≡ a ++ (needle ++ b) → length start ≤ length a

pub find_slice-found :
    (s needle : List ℕ) {pos : ℕ}
    → find_slice s needle ≡ some pos
    → (start rest : List ℕ) × (s ≡ start ++ (needle ++ rest))
      × (pos ≡ length start)
      × IsFirst needle start s
unfolding find_slice
find_slice-found s needle {pos} h =
    elim (Bool-cases (is_empty needle || ltb (length s) (length needle))) [
      | inl short ↦ ground (arith, short)
      | inr room ↦
          let (start, rest, e, at) =
            position-found needle 0 s {pos = pos} (sym (rw room refl) ∙ h) in
          let first = position-first needle 0 s {pos = pos} (sym (rw room refl) ∙ h) in
          (start, rest, e, omega (arith, at), λ a b cut. omega (arith, first a b cut, at))
    ]

pub drop-append : (s t : List ℕ) → drop (length s) (s ++ t) ≡ t
drop-append [] t = refl
drop-append (c ∷ s) t = drop-append s t
