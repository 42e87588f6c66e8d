-- ===== src/Http/Answers.antt =====
-- http.rs: which lines of the head of an upgrade become headers of the answer.
use raemote_server.Prelude.{
  ℕ, ◌≡◌, refl, sym, ap, subst, ◌⊎◌, inl, inr, false, List, [], ◌∷◌, ◌++◌, arith, nat_instance,
  list_instance, option_instance, Bool-cases, Option-cases, Option, none, some, nat_eq, some-pair,
}
use raemote_server.Text.{Text, has_char, split_once, trim}
use raemote_server.Http.Headers.{HeaderValues, Header}
use raemote_server.Http.Upgrade.{answer_header, answer_headers}

split_once-found :
    (d : ℕ) (s : Text) {a b : Text}
    → split_once d s ≡ some (a, b)
    → (s ≡ a ++ d ∷ b) × (has_char d a ≡ false)
unfolding split_once has_char
split_once-found d [] h = cc
split_once-found d (c ∷ s) {a} {b} h = elim (Bool-cases (nat_eq c d)) [
  | inl hit ↦
      let (first, rest) : ([] ≡ a) × (s ≡ b) = some-pair (rw (hit, split_once) at h) in
      let same : c ≡ d = ground arith in rw (← first, ← rest) (ap (λ x. x ∷ s) same, refl)
  | inr miss ↦ elim (Option-cases (split_once d s)) [
    | inl none_left ↦ cc (rw (miss, none_left, split_once) at h)
    | inr ((a', b'), e) ↦
        let (first, rest) : (c ∷ a' ≡ a) × (b' ≡ b) = some-pair (rw (miss, e, split_once) at h) in
        let (cut, free) = split_once-found d s e in
        rw (← first, ← rest) (ap (◌∷◌ c) cut, rw (miss, free) refl)
  ]
]

split_once-missing : (d : ℕ) (s : Text) → split_once d s ≡ none → has_char d s ≡ false
unfolding split_once has_char
split_once-missing d [] h = refl
split_once-missing d (c ∷ s) h = elim (Bool-cases (nat_eq c d)) [
  | inl hit ↦ ground (arith, hit)
  | inr miss ↦ elim (Option-cases (split_once d s)) [
    | inl none_left ↦ rw (miss, split_once-missing d s none_left) refl
    | inr ((a', b'), e) ↦ ground (arith, miss, e)
  ]
]

module _ (values : HeaderValues) (header_name : Text → Option Text) where
  -- a line that is no header: without a colon, or with a name or a value that is none
  abbrev pub IsNoHeader : Text → Type 0
  IsNoHeader line =
      (has_char b':' line ≡ false)
      ⊎ ((key value : Text) × (line ≡ key ++ b':' ∷ value)
          × (has_char b':' key ≡ false)
          × ((header_name (trim key) ≡ none) ⊎ (values.from_str (trim value) ≡ none)))

  -- the headers that the lines stand for
  pub data IsAnswer : List Text → List Header → Type 0 where
    done : IsAnswer [] []
    kept :
        (key value : Text) {name : Text} {bytes : List ℕ} {lines : List Text}
        {headers : List Header}
        → has_char b':' key ≡ false
        → header_name (trim key) ≡ some name
        → values.from_str (trim value) ≡ some bytes
        → IsAnswer lines headers
        → IsAnswer ((key ++ b':' ∷ value) ∷ lines) ((name, bytes) ∷ headers)
    skipped :
        {line : Text} {lines : List Text} {headers : List Header}
        → IsNoHeader line
        → IsAnswer lines headers
        → IsAnswer (line ∷ lines) headers

  pub answer_headers-IsAnswer :
      (lines : List Text) → IsAnswer lines (answer_headers values header_name lines)
  unfolding answer_headers answer_header
  answer_headers-IsAnswer [] = done
  answer_headers-IsAnswer (line ∷ lines) =
      let rest = answer_headers-IsAnswer lines in
      elim (Option-cases (split_once b':' line)) [
        | inl bare ↦
            rw (bare, answer_headers) (skipped (inl (split_once-missing b':' line bare)) rest)
        | inr ((key, value), e) ↦
            let (cut, free) = split_once-found b':' line e in
            elim (Option-cases (header_name (trim key))) [
              | inl bad ↦
                  rw (e, bad, answer_headers) (skipped (inr (key, value, cut, free, inl bad)) rest)
              | inr (name, good) ↦ elim (Option-cases (values.from_str (trim value))) [
                | inl bad ↦
                    rw (e, good, bad, answer_headers)
                      (skipped (inr (key, value, cut, free, inr bad)) rest)
                | inr (bytes, fine) ↦
                    rw (e, good, fine, answer_headers)
                      (subst
                        (λ (l : Text).
                          IsAnswer (l ∷ lines)
                            ((name, bytes) ∷ answer_headers values header_name lines))
                        (sym cut) (kept key value free good fine rest))
              ]
            ]
      ]
