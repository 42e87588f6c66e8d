-- ===== src/Catalog/Slugs.antt =====
-- catalog.rs: the names of discovered apps are URL-safe: `[a-z0-9-]`, never empty.
use raemote_server.Prelude.{
  ℕ, zero, suc, ◌+◌, ◌≤◌, ◌<◌, ◌≡◌, ◌≢◌, refl, subst, ◌⊎◌, inl, inr, Bool, true, false, not, ◌&&◌,
  List, [], ◌∷◌, ◌++◌, map, arith, nat_instance, list_instance, if◌then◌else◌, Bool-cases,
  Option-cases, length, Option, none, some, is_empty, leb, All, All-append, length-append,
}
use raemote_server.HashSet
use raemote_server.Config.Schema.{AppConfig}
use raemote_server.Discovery.Model.{Origin, DiscoveredApp}
use raemote_server.Text.{Text, codes, is_ascii_alphanumeric, to_ascii_lowercase}
use raemote_server.Text.Decimal.{decimal, IsDigit, decimal-IsDigit}
use raemote_server.Catalog.{
  max_slug, slugify_from, slugify, slug_of, name_base, numbered, unique_from, unique_name,
  CatalogApp, manual_app, rebuild,
}
use raemote_server.Catalog.Rebuild.{Added, done, shadowed, named, rebuild_total}

-- a lowercase letter, a digit or a dash
abbrev pub IsSlugChar : ℕ → Type 0
IsSlugChar c = ((b'a' ≤ c) × (c ≤ b'z')) ⊎ (((b'0' ≤ c) × (c ≤ b'9')) ⊎ (c ≡ b'-'))

letter-IsSlugChar : (c : ℕ) → is_ascii_alphanumeric c ≡ true → IsSlugChar (to_ascii_lowercase c)
unfolding is_ascii_alphanumeric to_ascii_lowercase
letter-IsSlugChar c h = ground arith

dash-IsSlugChar : IsSlugChar b'-'
dash-IsSlugChar = inr (inr refl)

-- slug characters, at most one more than the bound
abbrev IsSlug : Text → Type 0
IsSlug out = All IsSlugChar out × (length out ≤ max_slug + 1)

IsSlug-stop :
    (out more : Text)
    → IsSlug out
    → (length out < max_slug → IsSlug more)
    → IsSlug (if leb max_slug (length out) then out else more)
IsSlug-stop out more h k = elim (Bool-cases (leb max_slug (length out))) [
  | inl full ↦ rw full h
  | inr room ↦ rw room (k (ground arith))
]

dashed-IsSlug :
    (out : Text) (dash : Bool)
    → All IsSlugChar out
    → length out < max_slug
    → IsSlug (if dash then out ++ b'-' ∷ [] else out)
      × (length (if dash then out ++ b'-' ∷ [] else out) ≤ max_slug)
dashed-IsSlug out true h l = (
  (
    All-append IsSlugChar out _ h (dash-IsSlugChar, tt),
    omega (arith, length-append {0} out (b'-' ∷ [])),
  ),
  omega (arith, length-append {0} out (b'-' ∷ [])),
)
dashed-IsSlug out false h l = ((h, omega arith), omega arith)

slugify_from-IsSlug :
    (s out : Text) (pending_dash : Bool)
    → All IsSlugChar out
    → length out < max_slug
    → IsSlug (slugify_from s out pending_dash)
unfolding slugify_from
slugify_from-IsSlug [] out pending_dash h l = (h, omega arith)
slugify_from-IsSlug (c ∷ s) out pending_dash h l = elim (Bool-cases (is_ascii_alphanumeric c)) [
  | inl letter ↦
      let dashed : Text = if pending_dash && not (is_empty out) then out ++ b'-' ∷ [] else out in
      let (slug, short) = dashed-IsSlug out (pending_dash && not (is_empty out)) h l in
      let grown : Text = dashed ++ to_ascii_lowercase c ∷ [] in
      let good : All IsSlugChar grown =
        All-append IsSlugChar dashed (to_ascii_lowercase c ∷ []) slug.0
          (letter-IsSlugChar c letter, tt) in
      rw letter (
        IsSlug-stop grown (slugify_from s grown false)
          (good, omega (arith, length-append {0} dashed (to_ascii_lowercase c ∷ [])))
          (slugify_from-IsSlug s grown false good))
  | inr symbol ↦ rw symbol (
      IsSlug-stop out (slugify_from s out true) (h, omega arith) (slugify_from-IsSlug s out true h))
]

-- A slug consists of lowercase letters, digits and dashes, at most 49 of them.
pub slugify-IsSlug : (s : Text) → All IsSlugChar (slugify s) × (length (slugify s) ≤ 49)
unfolding slugify
slugify-IsSlug s = slugify_from-IsSlug s [] false tt (omega arith)

slug_of-IsSlug : (o : Option Text) (t : Text) → slug_of o ≡ some t → (t ≢ []) × All IsSlugChar t
unfolding slug_of
slug_of-IsSlug none t h = cc
slug_of-IsSlug (some s) t h = elim (Bool-cases (is_empty (slugify s))) [
  | inl bare ↦ ground arith
  | inr more ↦
      let same : slugify s ≡ t = ground arith in
      (ground arith, subst (All IsSlugChar) same (slugify-IsSlug s).0)
]

app_IsSlug : All IsSlugChar (codes "app")
app_IsSlug = (inl (omega arith), (inl (omega arith), (inl (omega arith), tt)))

name_base-IsSlug : (d : DiscoveredApp) → (name_base d ≢ []) × All IsSlugChar (name_base d)
unfolding name_base
name_base-IsSlug d = elim (Option-cases (slug_of d.title)) [
  | inr (t, titled) ↦ rw (titled, name_base) (slug_of-IsSlug d.title t titled)
  | inl untitled ↦ elim (Option-cases (slug_of d.process)) [
    | inr (t, known) ↦ rw (untitled, known, name_base) (slug_of-IsSlug d.process t known)
    | inl unknown ↦ rw (untitled, unknown, name_base) (cc, app_IsSlug)
  ]
]

digits-IsSlug : (s : Text) → All IsDigit s → All IsSlugChar s
digits-IsSlug [] h = tt
digits-IsSlug (c ∷ s) h = (inr (inl h.0), digits-IsSlug s h.1)

suffix-IsSlug : (n : ℕ) → All IsSlugChar (b'-' ∷ decimal n)
suffix-IsSlug n = (dash-IsSlugChar, digits-IsSlug (decimal n) (decimal-IsDigit n))

unique_from-numbered :
    (fuel : ℕ) (base : Text) (port : ℕ) (used : List Text) (n : ℕ) {t : Text}
    → unique_from fuel base port used n ≡ some t
    → (m : ℕ) × (numbered base port m ≡ t)
unfolding unique_from
unique_from-numbered zero base port used n e = cc
unique_from-numbered (suc fuel) base port used n {t} e =
    elim (Bool-cases (HashSet.contains used (numbered base port n))) [
      | inl taken ↦ unique_from-numbered fuel base port used (n + 1) (ground arith)
      | inr free ↦ (n, ground arith)
    ]

numbered-IsSlug :
    (base : Text) (port m : ℕ)
    → (base ≢ []) × All IsSlugChar base
    → (numbered base port m ≢ []) × All IsSlugChar (numbered base port m)
unfolding numbered
numbered-IsSlug [] port m (h, k) = absurd (h refl)
numbered-IsSlug (c ∷ base) port m (h, k) = (
  cc,
  All-append IsSlugChar (c ∷ base) _ k (
    dash-IsSlugChar,
    All-append IsSlugChar (decimal port) _ (digits-IsSlug (decimal port) (decimal-IsDigit port))
        (suffix-IsSlug m),
  ),
)

append-IsSlug :
    (base : Text) (port : ℕ)
    → (base ≢ []) × All IsSlugChar base
    → (base ++ (b'-' ∷ decimal port) ≢ []) × All IsSlugChar (base ++ (b'-' ∷ decimal port))
append-IsSlug [] port (h, k) = absurd (h refl)
append-IsSlug (c ∷ base) port (h, k) =
    (cc, All-append IsSlugChar (c ∷ base) _ k (suffix-IsSlug port))

abbrev IsSafe : Text → Type 0
IsSafe t = (t ≢ []) × All IsSlugChar t

unique_name-IsSafe :
    (base : Text) (port : ℕ) (used : List Text) (t : Text)
    → IsSafe base
    → unique_name base port used ≡ some (t, t ∷ used)
    → IsSafe t
unfolding unique_name
unique_name-IsSafe base port used t h e = elim (Bool-cases (HashSet.contains used base)) [
  | inr free ↦ let same : base ≡ t = ground arith in subst IsSafe same h
  | inl taken ↦ elim (Bool-cases (HashSet.contains used (base ++ (b'-' ∷ decimal port)))) [
    | inr free ↦
        let same : base ++ (b'-' ∷ decimal port) ≡ t = ground arith in
        subst IsSafe same (append-IsSlug base port h)
    | inl both ↦
        let last : unique_from (length used + 1) base port used 2 ≡ some t = ground arith in
        let (m, same) = unique_from-numbered (length used + 1) base port used 2 last in
        subst IsSafe same (numbered-IsSlug base port m h)
  ]
]

Added-IsSafe :
    {origins : List Origin} {used : List Text} {ds : List DiscoveredApp} {apps : List CatalogApp}
    → Added origins used ds apps
    → All (λ a. IsSafe a.name) apps
Added-IsSafe done = tt
Added-IsSafe (shadowed s rounds) = Added-IsSafe rounds
Added-IsSafe (named {used = used} {d = d} t free chosen fresh rounds) = (
  unique_name-IsSafe (name_base d) d.origin.port used t (name_base-IsSlug d) chosen,
  Added-IsSafe rounds,
)

-- Behind the manual entries, every name of the catalog is a non-empty sequence of lowercase letters,
-- digits and dashes.
pub rebuild-IsSafe :
    (manual_apps : List AppConfig) (found : List DiscoveredApp)
    → (apps : List CatalogApp) × (rebuild manual_apps found
        ≡ some (record { apps = map manual_app manual_apps ++ apps }))
      × All (λ a. (a.name ≢ []) × All IsSlugChar a.name) apps
rebuild-IsSafe manual_apps found =
    let (apps, built, rounds) = rebuild_total manual_apps found in
    (apps, built, Added-IsSafe rounds)
