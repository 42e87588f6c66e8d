-- ===== src/Http/Handover.antt =====
-- http.rs: the bytes of the origin that an upgrade hands over to the client.
use raemote_server.Prelude.{
  ℕ, ◌+◌, ◌≤◌, ◌≡◌, List, [], ◌∷◌, ◌++◌, nat_instance, list_instance, option_instance, length,
  Option,
}
use raemote_server.Discovery.Probe.Searching.{IsFirst}
use raemote_server.Http.Answers.{IsAnswer}
use raemote_server.Text.{Text}
use raemote_server.Discovery.Probe.Response.{split_crlf}
use raemote_server.Http.Headers.{HeaderValues, Header}
use raemote_server.Http.Upgrade.{blank_line, max_head}

-- the bytes of the reads
abbrev pub bytes_of : List (List ℕ) → List ℕ
bytes_of [] = []
bytes_of (chunk ∷ chunks) = chunk ++ bytes_of chunks

-- the reads that were used, and how many bytes they have
abbrev IsRead : List (List ℕ) → List ℕ → ℕ → List ℕ → Type 0
IsRead reads buf size next =
    (used left : List (List ℕ)) × (reads ≡ used ++ left)
    × (next ≡ buf ++ bytes_of used)
    × (length next ≤ max_head + size)

module _ (values : HeaderValues) (header_name : Text → Option Text) (lossy : List ℕ → Text) where
  -- The reads that were used are a head, up to its first blank line, and the leftover behind it. The
  -- answer has the headers that can be read of the head's lines behind the first one.
  abbrev pub IsPassedOn : List (List ℕ) → ℕ → List Header → List ℕ → Type 0
  IsPassedOn reads size answered leftover =
      (used left : List (List ℕ)) × (start : List ℕ) × (reads ≡ used ++ left)
      × (bytes_of used ≡ start ++ (blank_line ++ leftover))
      × IsFirst blank_line start (bytes_of used)
      × (length (bytes_of used) ≤ max_head + size)
      × IsAnswer values header_name (split_crlf (lossy (start ++ blank_line))).1 answered
