-- ===== src/Discovery/Probe/Naming.antt =====
-- discovery/probe.rs: what a display name looks like.
use raemote_server.Prelude.{
  ℕ, ◌≤◌, ◌<◌, ◌≡◌, ◌≢◌, refl, sym, ◌∙◌, subst, inl, inr, Bool, true, false, ◌||◌, List, [], ◌∷◌,
  ◌++◌, arith, nat_instance, list_instance, option_instance, if◌then◌else◌, Bool-cases,
  Option-cases, length, some, is_empty, leb, length-append,
}
use raemote_server.Text.{Text, is_whitespace, trim}
use raemote_server.Text.Trim.{EndsDark, trim-EndsDark}
use raemote_server.Text.Spacing.{
  IsSpaced, IsSpaced-push, trim-IsSpaced, after, after-push, is_empty-push, no_push, push,
  not_space,
}
use raemote_server.Discovery.Probe.Html.{
  max_name_chars, normalize_from, normalize_name, title_bytes, meta_keys, extract_meta_content,
  extract_title, first_meta, extract_name,
}

-- every character may stand in a name
abbrev pub Any : ℕ → Type 0
Any c = Unit

-- what the loop keeps of its output
abbrev IsGood : Text → Type 0
IsGood out = IsSpaced Any true out × (length out ≤ max_name_chars)

-- the test at the end of a round
IsGood-stop :
    (out more : Text)
    → IsGood out
    → (length out < max_name_chars → IsGood more)
    → IsGood (if leb max_name_chars (length out) then out else more)
IsGood-stop out more h k = elim (Bool-cases (leb max_name_chars (length out))) [
  | inl full ↦ rw full h
  | inr room ↦ rw room (k (ground arith))
]

normalize_from-IsGood :
    (s out : Text) (prev : Bool)
    → IsSpaced Any true out
    → after true out ≡ (prev || is_empty out)
    → length out < max_name_chars
    → IsGood (normalize_from s out prev)
unfolding normalize_from
normalize_from-IsGood [] out prev h a l = (h, omega arith)
normalize_from-IsGood (c ∷ s) out prev h a l = elim (Bool-cases (is_whitespace c)) [
  | inl light ↦ elim (Bool-cases (prev || is_empty out)) [
    | inl spaced ↦
        rw (light, no_push prev out spaced)
          (IsGood-stop out (normalize_from s out true) (h, omega arith)
            (normalize_from-IsGood s out true h (a ∙ spaced)))
    | inr bare ↦
        let clean = IsSpaced-push Any true out 32 h (inl (refl, a ∙ bare, tt)) in
        rw (light, push prev out bare)
          (IsGood-stop (out ++ 32 ∷ []) (normalize_from s (out ++ 32 ∷ []) true)
            (clean, omega (arith, length-append {0} out (32 ∷ [])))
            (normalize_from-IsGood s (out ++ 32 ∷ []) true clean (after-push true out 32)))
  ]
  | inr dark ↦
      let clean = IsSpaced-push Any true out c h (inr (dark, tt, tt)) in
      rw dark (
        IsGood-stop (out ++ c ∷ []) (normalize_from s (out ++ c ∷ []) false)
          (clean, omega (arith, length-append {0} out (c ∷ [])))
          (normalize_from-IsGood s (out ++ c ∷ []) false clean
            (after-push true out c ∙ not_space c dark ∙ sym (is_empty-push out c))))
]

-- A text that is not empty, has at most 120 characters, all whitespace of which is single spaces, and
-- does not begin or end with one.
abbrev pub IsName : Text → Type 0
IsName r = (r ≢ []) × IsSpaced Any true r × (length r ≤ max_name_chars) × EndsDark r

normalize_name-IsName : (text : Text) {r : Text} → normalize_name text ≡ some r → IsName r
unfolding normalize_name after
normalize_name-IsName text {r} h =
    let out = normalize_from text [] true in
    let (clean, short) = normalize_from-IsGood text [] true tt refl (omega arith) in
    let (spaced, shorter) = trim-IsSpaced Any out clean in
    let same : trim out ≡ r = ground arith in
    (
      ground arith,
      subst (IsSpaced Any true) same spaced,
      rw (← same) (omega arith),
      subst EndsDark same (trim-EndsDark out),
    )

module _ (lossy : List ℕ → Text) where
  extract_title-IsName : (body : List ℕ) {r : Text} → extract_title lossy body ≡ some r → IsName r
  unfolding extract_title
  extract_title-IsName body {r} h = elim (Option-cases (title_bytes lossy body)) [
    | inl bare ↦ ground (arith, bare)
    | inr (inside, found) ↦ normalize_name-IsName (lossy inside) (ground (arith, found))
  ]

  first_meta-IsName :
      (body : List ℕ) (keys : List Text) {r : Text} → first_meta lossy body keys ≡ some r → IsName r
  unfolding first_meta
  first_meta-IsName body [] h = cc
  first_meta-IsName body (key ∷ keys) {r} h =
      elim (Option-cases (extract_meta_content lossy body key)) [
        | inl bare ↦ first_meta-IsName body keys (ground (arith, bare))
        | inr (content, found) ↦ elim (Option-cases (normalize_name content)) [
          | inl blank ↦ first_meta-IsName body keys (ground (arith, found, blank))
          | inr (name, good) ↦ normalize_name-IsName content (ground (arith, found, good))
        ]
      ]

  -- The name that the probe finds in a page, whatever its bytes are, is not empty, has at most 120
  -- characters, all whitespace of which is single spaces, and neither begins nor ends with one.
  pub extract_name-IsName : (body : List ℕ) (r : Text) → extract_name lossy body ≡ some r → IsName r
  unfolding extract_name
  extract_name-IsName body r h = elim (Option-cases (extract_title lossy body)) [
    | inl bare ↦ first_meta-IsName body meta_keys (ground (arith, bare))
    | inr (title, found) ↦ extract_title-IsName body (ground (arith, found))
  ]
