-- ===== src/Auth/NameLaws.antt =====
-- auth.rs: what a sanitized device name looks like, and that sanitizing it again changes nothing.
use raemote_server.Prelude.{
  ◌+◌, ◌≤◌, ◌<◌, ◌≡◌, ◌≢◌, refl, sym, ◌∙◌, subst, inl, inr, Bool, true, false, ◌||◌, [], ◌∷◌, ◌++◌,
  append_assoc, append-nil, arith, nat_instance, list_instance, if◌then◌else◌, Bool-cases, length,
  some, is_empty, leb, length-append,
}
use raemote_server.Text.{Text, is_whitespace, is_control, trim}
use raemote_server.Text.Trim.{EndsDark, trim-EndsDark, trim_id}
use raemote_server.Text.Spacing.{
  IsSpaced, IsSpaced-push, IsSpaced-StartsDark, trim-IsSpaced, after, after-push, is_empty-push,
  no_push, push, space_light, not_space,
}
use raemote_server.Auth.Names.{sanitize_from, sanitize_device_name, max_device_name}

abbrev pub IsClean : Bool → Text → Type 0
IsClean = IsSpaced (λ c. is_control c ≡ false)

-- what the loop keeps of its output
abbrev IsGood : Text → Type 0
IsGood out = IsClean true out × (length out ≤ max_device_name)

-- the test at the end of a round
IsGood-stop :
    (out more : Text)
    → IsGood out
    → (length out < max_device_name → IsGood more)
    → IsGood (if leb max_device_name (length out) then out else more)
IsGood-stop out more h k = elim (Bool-cases (leb max_device_name (length out))) [
  | inl full ↦ rw full h
  | inr room ↦ rw room (k (ground arith))
]

-- The loop keeps what it has written clean and short.
sanitize_from-IsClean :
    (s out : Text) (prev : Bool)
    → IsClean true out
    → (after true out ≡ (prev || is_empty out))
    → length out < max_device_name
    → IsGood (sanitize_from s out prev)
unfolding sanitize_from
sanitize_from-IsClean [] out prev h a l = (h, omega arith)
sanitize_from-IsClean (c ∷ s) out prev h a l = elim (Bool-cases (is_whitespace c)) [
  | inl light ↦ elim (Bool-cases (prev || is_empty out)) [
    | inl spaced ↦
        rw (light, no_push prev out spaced)
          (IsGood-stop out (sanitize_from s out true) (h, omega arith)
            (sanitize_from-IsClean s out true h (a ∙ spaced)))
    | inr bare ↦
        let clean = IsSpaced-push _ true out 32 h (inl (refl, a ∙ bare, tt)) in
        rw (light, push prev out bare)
          (IsGood-stop (out ++ 32 ∷ []) (sanitize_from s (out ++ 32 ∷ []) true)
            (clean, omega (arith, length-append {0} out (32 ∷ [])))
            (sanitize_from-IsClean s (out ++ 32 ∷ []) true clean (after-push true out 32)))
  ]
  | inr dark ↦ elim (Bool-cases (is_control c)) [
    | inl control ↦ rw (dark, control) (sanitize_from-IsClean s out prev h a l)
    | inr plain ↦
        let clean = IsSpaced-push _ true out c h (inr (dark, plain, tt)) in
        rw (dark, plain)
          (IsGood-stop (out ++ c ∷ []) (sanitize_from s (out ++ c ∷ []) false)
            (clean, omega (arith, length-append {0} out (c ∷ [])))
            (sanitize_from-IsClean s (out ++ c ∷ []) false clean
              (after-push true out c ∙ not_space c dark ∙ sym (is_empty-push out c))))
  ]
]

copies_stop :
    (s out : Text) (prev : Bool)
    → (length out < max_device_name → sanitize_from s out prev ≡ out ++ s)
    → length out + length s ≤ max_device_name
    → (if leb max_device_name (length out) then out else sanitize_from s out prev) ≡ out ++ s
copies_stop [] out prev h l = ground (arith, append-nil out)
copies_stop (c ∷ s) out prev h l = ground (arith, h)

-- On clean text that fits, the loop copies.
sanitize_from_copies :
    (s out : Text) (prev : Bool)
    → IsClean (prev || is_empty out) s
    → length out + length s ≤ max_device_name
    → length out < max_device_name
    → sanitize_from s out prev ≡ out ++ s
unfolding sanitize_from
sanitize_from_copies [] out prev h l m = sym (append-nil out)
sanitize_from_copies (c ∷ s) out prev (inl (e, f, h)) l m =
    rw (e, space_light, push prev out f)
      (copies_stop s (out ++ 32 ∷ []) true
          (λ room.
            sanitize_from_copies s (out ++ 32 ∷ []) true h
              (omega (arith, length-append {0} out (32 ∷ []))) room)
          (omega (arith, length-append {0} out (32 ∷ [])))
        ∙ append_assoc out (32 ∷ []) s)
sanitize_from_copies (c ∷ s) out prev (inr (e, f, h)) l m =
    rw (e, f)
      (copies_stop s (out ++ c ∷ []) false
          (λ room.
            sanitize_from_copies s (out ++ c ∷ []) false (rw (is_empty-push out c) h)
              (omega (arith, length-append {0} out (c ∷ []))) room)
          (omega (arith, length-append {0} out (c ∷ [])))
        ∙ append_assoc out (c ∷ []) s)

trim-IsGood : (s : Text) → IsGood s → IsGood (trim s)
trim-IsGood s (clean, short) =
    let (spaced, shorter) = trim-IsSpaced (λ c. is_control c ≡ false) s clean in
    (spaced, omega arith)

-- A name that `sanitize_device_name` returns is not empty, has at most 64 characters, none of which is
-- a control character and all whitespace of which is single spaces, and neither begins nor ends with
-- one.
pub sanitize_device_name-IsClean :
    (name r : Text)
    → sanitize_device_name name ≡ some r
    → (r ≢ []) × IsClean true r × (length r ≤ max_device_name) × EndsDark r
unfolding sanitize_device_name after
sanitize_device_name-IsClean name r h =
    let out = sanitize_from name [] false in
    let (clean, short) =
      trim-IsGood out (sanitize_from-IsClean name [] false tt refl (omega arith)) in
    let same : trim out ≡ r = ground arith in
    (
      ground arith,
      subst (IsClean true) same clean,
      rw (← same) short,
      subst EndsDark same (trim-EndsDark out),
    )

-- Sanitizing a sanitized name gives the name again.
pub sanitize_device_name_idem :
    (name r : Text) → sanitize_device_name name ≡ some r → sanitize_device_name r ≡ some r
unfolding sanitize_device_name
sanitize_device_name_idem name r h =
    let (filled, clean, short, dark) = sanitize_device_name-IsClean name r h in
    rw
      (
        sanitize_from_copies r [] false clean (omega arith) (omega arith),
        trim_id r (IsSpaced-StartsDark _ r clean) dark,
      )
      (ground arith)
