-- ===== src/Catalog/Names.antt =====
-- catalog.rs: the search for a free name ends, and finds one.
use raemote_server.HashSet
use raemote_server.Prelude.{
  ℕ, zero, suc, ◌+◌, ◌<◌, ◌≡◌, refl, sym, ◌∙◌, inl, inr, false, List, [], ◌∷◌, ◌++◌, arith,
  nat_instance, list_instance, eq_iff, Bool-cases, length, some,
}
use raemote_server.Text.{Text}
use raemote_server.Text.Decimal.{decimal, decimal-injective}
use raemote_server.Catalog.{unique_from, unique_name, numbered}

append-cancel_left : (s : Text) {t u : Text} → s ++ t ≡ s ++ u → t ≡ u
append-cancel_left [] h = h
append-cancel_left (c ∷ s) h = append-cancel_left s (cc)

numbered-injective :
    (base : Text) (port n m : ℕ) → numbered base port n ≡ numbered base port m → n ≡ m
unfolding numbered
numbered-injective base port n m h =
    let tails = append-cancel_left base h in
    let dashed : decimal port ++ (b'-' ∷ decimal n) ≡ decimal port ++ (b'-' ∷ decimal m) =
      cc (tails) in
    let ends = append-cancel_left (decimal port) dashed in decimal-injective n m (cc (ends))

module _ (base : Text) (port : ℕ) where
  -- A taken name with a smaller number makes no difference.
  unique_from-remove :
      (fuel : ℕ) (used : List Text) (k n : ℕ)
      → k < n
      → unique_from fuel base port (HashSet.remove used (numbered base port k)) n
        ≡ unique_from fuel base port used n
  unfolding unique_from
  unique_from-remove zero used k n h = refl
  unique_from-remove (suc fuel) used k n h = ground (
    arith,
    unique_from-remove fuel used k (n + 1),
    HashSet.contains-remove used (numbered base port k) (numbered base port n),
    eq_iff (numbered base port k) (numbered base port n),
    numbered-injective base port k n,
  )

  -- More fuel than taken names is enough.
  unique_from_total :
      (fuel : ℕ) (used : List Text) (n : ℕ)
      → length used < fuel
      → (t : Text) × (unique_from fuel base port used n ≡ some t)
  unfolding unique_from
  unique_from_total zero used n h = absurd (omega arith)
  unique_from_total (suc fuel) used n h =
      elim (Bool-cases (HashSet.contains used (numbered base port n))) [
        | inl taken ↦
            let fewer = HashSet.remove used (numbered base port n) in
            let (t, found) =
              unique_from_total fuel fewer (n + 1)
                (omega (arith, HashSet.length-remove used (numbered base port n) taken)) in
            (t, rw taken (sym (unique_from-remove fuel used n (n + 1) (omega arith)) ∙ found))
        | inr free ↦ (numbered base port n, rw free)
      ]

  unique_from_fresh :
      (fuel : ℕ) (used : List Text) (n : ℕ) {t : Text}
      → unique_from fuel base port used n ≡ some t
      → HashSet.contains used t ≡ false
  unfolding unique_from
  unique_from_fresh zero used n h = cc
  unique_from_fresh (suc fuel) used n {t} h =
      ground (arith, unique_from_fresh fuel used (n + 1) {t = t})

-- The search ends whatever names are taken; the name is not among them, and is then taken too.
pub unique_name_total :
    (base : Text) (port : ℕ) (used : List Text)
    → (t : Text) × (unique_name base port used ≡ some (t, t ∷ used))
      × (HashSet.contains used t ≡ false)
unfolding unique_name
unique_name_total base port used = elim (Bool-cases (HashSet.contains used base)) [
  | inr free ↦ (base, rw free, free)
  | inl taken ↦ elim (Bool-cases (HashSet.contains used (base ++ (b'-' ∷ decimal port)))) [
    | inr free ↦ (base ++ (b'-' ∷ decimal port), rw (taken, free), free)
    | inl both ↦
        let (t, found) = unique_from_total base port (length used + 1) used 2 (omega arith) in
        (t, rw (taken, both, found), unique_from_fresh base port (length used + 1) used 2 found)
  ]
]
