-- ===== src/Discovery/Probe/Response.antt =====
-- discovery/probe.rs: the response to a request of the probe.
use raemote_server.Prelude.{
  ℕ, ◌+◌, ◌&&◌, List, [], ◌∷◌, ◌++◌, nat_instance, list_instance, option_instance, if◌then◌else◌,
  take, drop, Option, none, some, is_empty, nat_eq,
}
use raemote_server.Text.{
  Text, codes, trim, split_once, split_whitespace, starts_with, eq_ignore_ascii_case,
}
use raemote_server.Text.Decimal.{parse_uint}
use raemote_server.Discovery.Model.{max_u16}
use raemote_server.Discovery.Probe.Bytes.{find_slice}
use raemote_server.Discovery.Probe.Html.{extract_name}

pub record RawResponse : Type 0 where
  pub status : ℕ
  pub location : Option Text
  pub server : Option Text
  pub title : Option Text

abbrev pub crlf : Text
crlf = 13 ∷ 10 ∷ []

-- `split("\r\n")`: the first line and the others
unfoldable pub split_crlf : Text → Text × List Text
split_crlf [] = ([], [])
split_crlf (c ∷ []) = (c ∷ [], [])
split_crlf (c ∷ d ∷ s) =
    let (line, lines) = split_crlf (d ∷ s) in
    let (next, others) = split_crlf s in
    if nat_eq c 13 && nat_eq d 10 then ([], next ∷ others) else (c ∷ line, lines)

-- what the header lines say, the last one first to be heard
pub record Found : Type 0 where
  pub server : Option Text
  pub location : Option Text

unfoldable pub header_line : Found → Text → Found
header_line found line = elim (split_once b':' line) [
  | none ↦ found
  | some (key, rest) ↦
      let value = trim rest in
      if is_empty value
      then found
      else if eq_ignore_ascii_case key (codes "server")
      then record found { server = some value }
      else if eq_ignore_ascii_case key (codes "location")
      then record found { location = some value }
      else found
]

unfoldable pub header_lines : Found → List Text → Found
header_lines found [] = found
header_lines found (line ∷ lines) = header_lines (header_line found line) lines

-- the status of a status line
unfoldable pub parse_status : Text → Option ℕ
parse_status line = elim (split_whitespace line) [
  | [] ↦ none
  | version ∷ parts ↦
      if starts_with (codes "HTTP/") version
      then elim parts [ [] ↦ none | code ∷ rest ↦ parse_uint max_u16 code ]
      else none
]

module _ (lossy : List ℕ → Text) where
  unfoldable pub parse_response : List ℕ → Option RawResponse
  parse_response buf =
      let header_end = find_slice buf (crlf ++ crlf) in
      let header_bytes : List ℕ = elim header_end [ none ↦ buf | some i ↦ take i buf ] in
      let body : List ℕ = elim header_end [ none ↦ buf | some i ↦ drop (i + 4) buf ] in
      let (status_line, lines) = split_crlf (lossy header_bytes) in
      elim (parse_status status_line) [
        | none ↦ none
        | some status ↦
            let found = header_lines (record { server = none; location = none }) lines in
            some (record {
              status = status;
              location = found.location;
              server = found.server;
              title = extract_name lossy body;
            })
      ]
