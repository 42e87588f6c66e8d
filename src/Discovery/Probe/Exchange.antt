-- ===== src/Discovery/Probe/Exchange.antt =====
-- discovery/probe.rs: the probe of an origin. What a server sends is an argument, as the reads of each
-- exchange; `join` is `Url::parse(base)?.join(location)`, and `lossy` is `String::from_utf8_lossy`.
use raemote_server.Prelude.{
  ℕ, zero, suc, ◌*◌, Bool, false, ◌&&◌, ◌||◌, List, [], ◌∷◌, ◌++◌, nat_instance, list_instance,
  option_instance, if◌then◌else◌, length, Option, none, some, is_some, is_empty, nat_eq, ltb, leb,
}
use mathlib.Core.List.{reverse}
use raemote_server.Text.{Text, codes, eq_ignore_ascii_case}
use raemote_server.Discovery.Model.{Origin, authority, scheme_text}
use raemote_server.Discovery.Engine.{ProbeResult}
use raemote_server.Discovery.Probe.Bytes.{find_slice, find_ci}
use raemote_server.Discovery.Probe.Response.{RawResponse, crlf, parse_response}
use raemote_server.Http.Headers.{Url, part}

abbrev pub max_probe_bytes : ℕ
max_probe_bytes = 96 * 1024

abbrev pub head_read_cap : ℕ
head_read_cap = 64 * 1024

abbrev pub max_redirects : ℕ
max_redirects = 3

-- the blank line behind the headers has arrived
abbrev pub headers_end : List ℕ → Bool
headers_end buf = is_some (find_slice buf (crlf ++ crlf))

-- the tests that end the loop behind a read
unfoldable pub is_enough : Bool → List ℕ → Bool
is_enough headers_done buf =
    (headers_done
      && (is_some (find_ci buf (codes "</head"))
          || is_some (find_ci buf (codes "</html"))
          || leb head_read_cap (length buf)))
    || leb max_probe_bytes (length buf)

-- The loop over the reads. The list ends where a read fails or the time is up; an empty read is the end
-- of the stream.
unfoldable pub gather : Bool → List ℕ → List (List ℕ) → List ℕ
gather headers_done buf [] = buf
gather headers_done buf (chunk ∷ chunks) =
    let next = buf ++ chunk in
    let done = headers_done || headers_end next in
    let more = gather done next chunks in
    if is_empty chunk then buf else if is_enough done next then next else more

-- `trim_matches` with the test of the brackets
abbrev is_bracket : ℕ → Bool
is_bracket c = nat_eq c b'[' || nat_eq c b']'

unfoldable pub drop_brackets : Text → Text
drop_brackets [] = []
drop_brackets (c ∷ s) = let rest = drop_brackets s in if is_bracket c then rest else c ∷ s

unfoldable pub strip_brackets : Text → Text
strip_brackets host = reverse (drop_brackets (reverse (drop_brackets host)))

-- the path and query of a URL
abbrev pub path_of : Url → Text
path_of url = (if is_empty url.path then codes "/" else url.path) ++ part b'?' url.query

-- the URL is on the host and the port of the origin
unfoldable pub is_on_origin : Origin → Url → Bool
is_on_origin o url =
    elim url.host_str [
      | none ↦ false
      | some host ↦ eq_ignore_ascii_case (strip_brackets host) o.host
    ]
    && elim url.port_or_known_default [ none ↦ false | some port ↦ nat_eq port o.port ]

module _ (join : Text → Text → Option Url) (lossy : List ℕ → Text) where
  unfoldable pub redirect_path : Origin → Text → Text → Option Text
  redirect_path o base_path location =
      let base = scheme_text o.scheme ++ (codes "://" ++ (authority o ++ base_path)) in
      elim (join base location) [
        | none ↦ none
        | some target ↦ if is_on_origin o target then some (path_of target) else none
      ]

  -- the path of the redirect that the probe follows
  unfoldable pub next_path : Origin → Text → RawResponse → Option Text
  next_path o path response =
      if leb 300 response.status && ltb response.status 400
      then elim response.location [ none ↦ none | some location ↦ redirect_path o path location ]
      else none

  abbrev pub result_of : RawResponse → ProbeResult
  result_of response = record {
    status = response.status;
    title = response.title;
    server = response.server;
  }

  -- The loop, with the paths that it requests. `reads` has the reads of each exchange, by the number of
  -- attempts that are left and the path: `none` where no time is left, or connecting or writing failed.
  unfoldable pub probe_from :
      Origin → (ℕ → Text → Option (List (List ℕ))) → ℕ → Text → Option ProbeResult × List Text
  probe_from o reads zero path = (none, [])
  probe_from o reads (suc left) path = elim (reads left path) [
    | none ↦ (none, [])
    | some chunks ↦ elim (parse_response lossy (gather false [] chunks)) [
      | none ↦ (none, path ∷ [])
      | some response ↦ elim (next_path o path response) [
        | none ↦ (some (result_of response), path ∷ [])
        | some next ↦ let (result, paths) = probe_from o reads left next in (result, path ∷ paths)
      ]
    ]
  ]

  unfoldable pub probe_http :
      Origin → (ℕ → Text → Option (List (List ℕ))) → Option ProbeResult × List Text
  probe_http o reads = probe_from o reads (suc max_redirects) (codes "/")
