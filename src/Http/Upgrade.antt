-- ===== src/Http/Upgrade.antt =====
-- http.rs: the upgrade of a proxied request (`proxy_upgrade`), up to the copying of bytes between
-- the two connections. The origin is an argument, the reads of its connection. The conversions of
-- headers (hyper), the parser of URLs and lossy UTF-8 decoding are parameters.
use raemote_server.Prelude.{
  ℕ, ◌+◌, ◌*◌, Bool, ◌&&◌, List, [], ◌∷◌, ◌++◌, ◌==◌, nat_instance, list_instance, option_instance,
  if◌then◌else◌, length, take, drop, Option, none, some, unwrap_or, is_empty, nat_eq, ltb, leb,
}
use mathlib.Core.Option
use raemote_server.Text.{Text, codes, lines, split_once, split_whitespace, trim}
use raemote_server.Text.Decimal.{parse_uint}
use raemote_server.Text.Utf8.{as_bytes}
use raemote_server.Discovery.Model.{Origin, authority, max_u16}
use raemote_server.Discovery.Probe.Bytes.{find_slice}
use raemote_server.Discovery.Probe.Response.{crlf, split_crlf}
use raemote_server.Http.Headers.{Url, HeaderValues, Header, part, rewrite_origin, rewrite_referer}

-- each line with its line break
unfoldable pub with_breaks : List Text → Text
with_breaks [] = []
with_breaks (line ∷ lines) = line ++ (crlf ++ with_breaks lines)

abbrev pub request_line : (method sub_path : Text) → Option Text → Text
request_line method sub_path query =
    method ++ (codes " /" ++ (sub_path ++ (part b'?' query ++ codes " HTTP/1.1")))

abbrev pub host_line : Origin → Text
host_line o = codes "Host: " ++ authority o

module _ (values : HeaderValues) (parse : Text → Option Url) (o : Origin) where
  -- the value of a header, with the origin and the referer pointed at the app
  unfoldable pub upgrade_value : Text → Text → Text
  upgrade_value name text =
      if name == codes "origin"
      then rewrite_origin parse text o
      else if name == codes "referer"
      then rewrite_referer parse text o
      else text

  unfoldable pub upgrade_line : Header → Option Text
  upgrade_line (name, value) = if name == codes "host" then none else elim (values.to_str value) [
    | none ↦ none
    | some text ↦ some (name ++ (codes ": " ++ upgrade_value name text))
  ]

  unfoldable pub upgrade_lines : List Header → List Text
  upgrade_lines [] = []
  upgrade_lines (h ∷ headers) =
      let rest = upgrade_lines headers in
      elim (upgrade_line h) [ none ↦ rest | some line ↦ line ∷ rest ]

  -- the head that is written to the origin
  unfoldable pub upgrade_head : (method sub_path : Text) → Option Text → List Header → Text
  upgrade_head method sub_path query headers =
      with_breaks (request_line method sub_path query ∷ host_line o ∷ upgrade_lines headers) ++ crlf

abbrev pub blank_line : List ℕ
blank_line = crlf ++ crlf

abbrev pub max_head : ℕ
max_head = 64 * 1024

-- `complete` has the bytes that were read and the end of the head in them.
pub data HeadRead : Type 0 where
  complete : (buf : List ℕ) → (head_end : ℕ) → HeadRead
  closed_early oversized read_failed : HeadRead

-- The loop over the reads. The list ends where a read fails; an empty read is the end of the stream.
unfoldable pub read_head : List ℕ → List (List ℕ) → HeadRead
read_head buf [] = read_failed
read_head buf (chunk ∷ chunks) =
    let next = buf ++ chunk in
    let more = read_head next chunks in
    if is_empty chunk then closed_early else elim (find_slice next blank_line) [
      | some pos ↦ complete next (pos + 4)
      | none ↦ if ltb max_head (length next) then oversized else more
    ]

-- `StatusCode::from_u16` takes three digits
abbrev pub status_code : ℕ → ℕ
status_code n = if leb 100 n && ltb n 1000 then n else 502

unfoldable pub upgrade_status : Text → ℕ
upgrade_status line = elim (split_whitespace line) [
  | [] ↦ 502
  | version ∷ parts ↦ elim parts [
    | [] ↦ 502
    | code ∷ rest ↦ status_code (unwrap_or (parse_uint max_u16 code) 502)
  ]
]

abbrev pub status_line_of : Text → Text
status_line_of head_text = elim (lines head_text) [ [] ↦ [] | line ∷ others ↦ line ]

-- `switched` has the headers of the answer and the bytes behind the head of the origin, which the
-- client is sent first.
pub data UpgradeReply : Type 0 where
  switched : List Header → (leftover : List ℕ) → UpgradeReply
  bad_gateway : (message : Text) → UpgradeReply
  upgrade_refused : (status : ℕ) → (status_line : Text) → UpgradeReply
  io_error : UpgradeReply

module _ (values : HeaderValues) (header_name : Text → Option Text) where
  -- `none` is a line that the loop skips
  unfoldable pub answer_header : Text → Option Header
  answer_header line = elim (split_once b':' line) [
    | none ↦ none
    | some (key, value) ↦ elim (header_name (trim key)) [
      | none ↦ none
      | some name ↦ Option.map (λ (v : List ℕ). (name, v)) (values.from_str (trim value))
    ]
  ]

  unfoldable pub answer_headers : List Text → List Header
  answer_headers [] = []
  answer_headers (line ∷ lines) =
      let rest = answer_headers lines in
      elim (answer_header line) [ none ↦ rest | some h ↦ h ∷ rest ]

module _ (values : HeaderValues) (header_name : Text → Option Text) (lossy : List ℕ → Text) where
  unfoldable pub answer_upgrade : List ℕ → ℕ → UpgradeReply
  answer_upgrade buf head_end =
      let head_text = lossy (take head_end buf) in
      let status_line = status_line_of head_text in
      let status = upgrade_status status_line in
      if nat_eq status 101
      then switched (answer_headers values header_name (split_crlf head_text).1) (drop head_end buf)
      else upgrade_refused status status_line

  unfoldable pub upgrade_reply : HeadRead → UpgradeReply
  upgrade_reply (complete buf head_end) = answer_upgrade buf head_end
  upgrade_reply closed_early =
      bad_gateway (codes "the app closed the connection before completing the upgrade")
  upgrade_reply oversized = bad_gateway (codes "the app sent an oversized upgrade response")
  upgrade_reply read_failed = io_error

  -- The bytes that are written to the origin, and the reply. `connects` is whether connecting and
  -- writing succeed.
  unfoldable pub proxy_upgrade :
      (Text → Option Url)
      → Origin
      → (method sub_path : Text) → Option Text
      → List Header
      → (connects : Bool) → (reads : List (List ℕ)) → List ℕ × UpgradeReply
  proxy_upgrade parse o method sub_path query headers connects reads =
      if connects
      then (
        as_bytes (upgrade_head values parse o method sub_path query headers),
        upgrade_reply (read_head [] reads),
      )
      else ([], io_error)
