-- ===== src/Ipc/Delivery.antt =====
-- ipc/unix.rs: the reads by which the daemon receives one line of a client, however the socket cuts it.
use raemote_server.Prelude.{
  ℕ, ◌≡◌, refl, ap, ◌⊎◌, inl, inr, false, List, [], ◌∷◌, ◌++◌, map, append_assoc, arith,
  nat_instance, list_instance, some, is_empty, All,
}
use raemote_server.Text.{has_char}
use raemote_server.Text.Split.{split_once-cut, split_once-none}
use raemote_server.Ipc.Session.{Stream, read_line}

-- The reads that deliver what was written, none of them empty.
abbrev pub joined : List (List ℕ) → List ℕ
joined [] = []
joined (chunk ∷ chunks) = chunk ++ joined chunks

pub record Delivers (bytes : List ℕ) (chunks : List (List ℕ)) : Type 0 where
  pub complete : joined chunks ≡ bytes
  pub nonempty : All (λ chunk. is_empty chunk ≡ false) chunks

pub is_empty-line : (bytes : List ℕ) → is_empty (bytes ++ 10 ∷ []) ≡ false
is_empty-line [] = refl
is_empty-line (b ∷ bytes) = refl

-- The first read ends at the line break, or lies before it.
chunk-cases :
    (chunk rest line : List ℕ)
    → has_char 10 line ≡ false
    → chunk ++ rest ≡ line ++ 10 ∷ []
    → ((chunk ≡ line ++ 10 ∷ []) × (rest ≡ []))
      ⊎ ((line' : List ℕ) × (line ≡ chunk ++ line')
          × (has_char 10 chunk ≡ false)
          × (has_char 10 line' ≡ false)
          × (rest ≡ line' ++ 10 ∷ []))
unfolding has_char
chunk-cases [] rest line u h = inr (line, refl, refl, u, h)
chunk-cases (c ∷ []) rest [] u h = inl (ground arith, ground arith)
chunk-cases (c ∷ d ∷ chunk) rest [] u h = absurd (cc)
chunk-cases (c ∷ chunk) rest (b ∷ line) u h =
    let same : c ≡ b = ground arith in
    elim (chunk-cases chunk rest line (ground arith) (ground arith)) [
      | inl (last, over) ↦ inl (ground arith, over)
      | inr (line', cut, before, behind, over) ↦
          inr (line', ground arith, ground arith, behind, over)
    ]

joined-nil :
    (chunks : List (List ℕ))
    → All (λ chunk. is_empty chunk ≡ false) chunks
    → joined chunks ≡ []
    → chunks ≡ []
joined-nil [] h e = refl
joined-nil ([] ∷ chunks) h e = cc (h.0)
joined-nil ((b ∷ chunk) ∷ chunks) h e = cc

pub read_line-delivered :
    (chunks : List (List ℕ)) (before line : List ℕ) (rest : Stream)
    → has_char 10 line ≡ false
    → Delivers (line ++ 10 ∷ []) chunks
    → read_line before (map some chunks ++ rest) ≡ (some (before ++ line ++ 10 ∷ []), rest)
unfolding read_line
read_line-delivered [] before line rest u d = cc (is_empty-line line, ap is_empty d.complete)
read_line-delivered (chunk ∷ chunks) before line rest u d =
    elim (chunk-cases chunk (joined chunks) line u d.complete) [
      | inl (last, over) ↦
          let none_left = joined-nil chunks d.nonempty.1 over in
          let cut = split_once-cut 10 line [] u in
          rw (last, cut, is_empty-line line, none_left) refl
      | inr (line', cut, before', behind, over) ↦
          let more =
            read_line-delivered chunks (before ++ chunk) line' rest behind
              (record { complete = over; nonempty = d.nonempty.1 }) in
          rw (split_once-none 10 chunk before', d.nonempty.0, more) (simp (cut, append_assoc) refl)
    ]
