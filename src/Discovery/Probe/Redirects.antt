-- ===== src/Discovery/Probe/Redirects.antt =====
-- discovery/probe.rs: what a probe requests, reads and returns.
use raemote_server.Prelude.{
  ℕ, zero, suc, ◌+◌, ◌≤◌, ◌<◌, ◌≡◌, ◌≢◌, refl, sym, ◌∙◌, inl, inr, Bool, true, false, ◌||◌, List,
  [], ◌∷◌, ◌++◌, arith, nat_instance, list_instance, option_instance, eq_iff, eq_self,
  if◌then◌else◌, Bool-cases, Option-cases, length, Option, none, some, is_empty, leb, All,
  length-append,
}
use raemote_server.Text.{Text, codes}
use raemote_server.Discovery.Model.{Origin, authority, scheme_text}
use raemote_server.Discovery.Engine.{ProbeResult}
use raemote_server.Discovery.Probe.Response.{RawResponse, parse_response}
use raemote_server.Discovery.Probe.Exchange.{
  max_probe_bytes, is_enough, gather, headers_end, path_of, is_on_origin, redirect_path, next_path,
  probe_from, probe_http, strip_brackets,
}
use raemote_server.Text.{lowercase}
use raemote_server.Http.Headers.{Url}

is_enough-lt :
    (headers_done : Bool) (buf : List ℕ)
    → is_enough headers_done buf ≡ false
    → length buf < max_probe_bytes
unfolding is_enough
is_enough-lt headers_done buf h = elim (Bool-cases (leb max_probe_bytes (length buf))) [
  | inl full ↦ ground (arith, full)
  | inr room ↦ ground (arith, room)
]

-- A probe keeps fewer bytes of a response than its limit and one read more, however long the
-- response is.
pub gather-bounded :
    (headers_done : Bool) (buf : List ℕ) (chunks : List (List ℕ)) (size : ℕ)
    → All (λ chunk. length chunk ≤ size) chunks
    → length buf < max_probe_bytes
    → length (gather headers_done buf chunks) < max_probe_bytes + size
unfolding gather
gather-bounded headers_done buf [] size h l = omega arith
gather-bounded headers_done buf (chunk ∷ chunks) size h l =
    let next = buf ++ chunk in
    let done = headers_done || headers_end next in
    let longer = length-append {0} buf chunk in
    elim (Bool-cases (is_empty chunk)) [
      | inl over ↦ rw over (omega arith)
      | inr more ↦ elim (Bool-cases (is_enough done next)) [
        | inl enough ↦ rw (more, enough) (omega (arith, h.0))
        | inr short ↦
            rw (more, short)
              (gather-bounded done next chunks size h.1 (is_enough-lt done next short))
      ]
    ]

-- the query behind a path
abbrev pub query_of : Option Text → Text
query_of none = []
query_of (some query) = b'?' ∷ query

module _ (join : Text → Text → Option Url) (lossy : List ℕ → Text) (o : Origin) where
  -- The response sends the probe from the path to the next one: it is a redirect whose location, joined to the
  -- URL of the path on the origin, has the host of the origin, in any case and without the brackets
  -- of an IPv6 address, and its port; the next path is that of the URL, with its query.
  pub record Redirects (path : Text) (response : RawResponse) (next : Text) : Type 0 where
    pub location : Text
    pub url : Url
    pub host : Text
    pub at_least : 300 ≤ response.status
    pub below : response.status < 400
    pub located : response.location ≡ some location
    pub joined :
        join (scheme_text o.scheme ++ (codes "://" ++ (authority o ++ path))) location ≡ some url
    pub hosted : url.host_str ≡ some host
    pub same_host : lowercase (strip_brackets host) ≡ lowercase o.host
    pub same_port : url.port_or_known_default ≡ some o.port
    pub asked : next ≡ (if is_empty url.path then codes "/" else url.path) ++ query_of url.query

  is_on_origin-parts :
      (url : Url)
      → is_on_origin o url ≡ true
      → (host : Text) × (url.host_str ≡ some host)
        × (lowercase (strip_brackets host) ≡ lowercase o.host)
        × (url.port_or_known_default ≡ some o.port)
  unfolding is_on_origin
  is_on_origin-parts url h = elim (Option-cases url.host_str) [
    | inl bare ↦ ground (arith, bare)
    | inr (host, e) ↦ elim (Option-cases url.port_or_known_default) [
      | inl bare ↦ ground (arith, e, bare)
      | inr (port, e') ↦ (
        host,
        e,
        ground (arith, e, e', eq_iff (lowercase (strip_brackets host)) (lowercase o.host)),
        ground (arith, e, e'),
      )
    ]
  ]

  parts-is_on_origin :
      (url : Url) (host : Text)
      → url.host_str ≡ some host
      → lowercase (strip_brackets host) ≡ lowercase o.host
      → url.port_or_known_default ≡ some o.port
      → is_on_origin o url ≡ true
  unfolding is_on_origin
  parts-is_on_origin url host e same e' =
      rw (e, e', same, eq_self (lowercase o.host)) (ground arith)

  path_of-query :
      (url : Url)
      → path_of url ≡ (if is_empty url.path then codes "/" else url.path) ++ query_of url.query
  path_of-query url = elim (Option-cases url.query) [
    | inl none_here ↦ rw none_here refl
    | inr (q, e) ↦ rw e refl
  ]

  next_path-Redirects :
      (path : Text) (response : RawResponse) {next : Text}
      → next_path join lossy o path response ≡ some next
      → Redirects path response next
  unfolding next_path redirect_path
  next_path-Redirects path response {next} h = elim (Option-cases response.location) [
    | inl away ↦ ground (arith, away)
    | inr (location, e) ↦
        elim (Option-cases
          (join (scheme_text o.scheme ++ (codes "://" ++ (authority o ++ path))) location)) [
            | inl bad ↦ ground (arith, e, bad)
            | inr (target, good) ↦ elim (Bool-cases (is_on_origin o target)) [
              | inr other ↦ ground (arith, e, good, other)
              | inl own ↦
                  let (host, hosted, same_host, same_port) = is_on_origin-parts target own in
                  let made : path_of target ≡ next = ground (arith, e, good, own) in
                  record {
                    location = location;
                    url = target;
                    host = host;
                    at_least = ground arith;
                    below = ground arith;
                    located = e;
                    joined = good;
                    hosted = hosted;
                    same_host = same_host;
                    same_port = same_port;
                    asked = sym made ∙ path_of-query target;
                  }
            ]
          ]
  ]

  Redirects-next_path :
      (path : Text) (response : RawResponse) (next : Text)
      → Redirects path response next
      → next_path join lossy o path response ≢ none
  unfolding next_path redirect_path
  Redirects-next_path path response next r h =
      let own = parts-is_on_origin r.url r.host r.hosted r.same_host r.same_port in
      ground (arith, r.at_least, r.below, r.located, r.joined, own)

  module _ (reads : ℕ → Text → Option (List (List ℕ))) where
    -- A probe of a path with a number of attempts left: the paths that it requests, and its result.
    pub data IsProbed : ℕ → Text → List Text → Option ProbeResult → Type 0 where
      exhausted : {path : Text} → IsProbed zero path [] none
      unsent : {left : ℕ} {path : Text} → reads left path ≡ none → IsProbed (suc left) path [] none
      unreadable :
          {left : ℕ} {path : Text} {chunks : List (List ℕ)}
          → reads left path ≡ some chunks
          → parse_response lossy (gather false [] chunks) ≡ none
          → IsProbed (suc left) path (path ∷ []) none
      answered :
          {left : ℕ} {path : Text} {chunks : List (List ℕ)} {response : RawResponse}
          → reads left path ≡ some chunks
          → parse_response lossy (gather false [] chunks) ≡ some response
          → ((next : Text) → ¬ Redirects path response next)
          → IsProbed (suc left) path (path ∷ []) (
              some (record {
                status = response.status;
                title = response.title;
                server = response.server;
              }))
      followed :
          {left : ℕ} {path next : Text} {chunks : List (List ℕ)} {response : RawResponse}
          {paths : List Text} {result : Option ProbeResult}
          → reads left path ≡ some chunks
          → parse_response lossy (gather false [] chunks) ≡ some response
          → Redirects path response next
          → IsProbed left next paths result
          → IsProbed (suc left) path (path ∷ paths) result

    IsProbed-length :
        {left : ℕ} {path : Text} {paths : List Text} {result : Option ProbeResult}
        → IsProbed left path paths result
        → length paths ≤ left
    IsProbed-length exhausted = omega arith
    IsProbed-length (unsent e) = omega arith
    IsProbed-length (unreadable e e') = omega arith
    IsProbed-length (answered e e' last) = omega arith
    IsProbed-length (followed e e' r rest) = omega (arith, IsProbed-length rest)

    probe_from-IsProbed :
        (left : ℕ) (path : Text)
        → IsProbed left path
            (probe_from join lossy o reads left path).1
            (probe_from join lossy o reads left path).0
    unfolding probe_from
    probe_from-IsProbed zero path = exhausted
    probe_from-IsProbed (suc left) path = elim (Option-cases (reads left path)) [
      | inl away ↦ rw (away, probe_from) (unsent away)
      | inr (chunks, e) ↦ elim (Option-cases (parse_response lossy (gather false [] chunks))) [
        | inl garbage ↦ rw (e, garbage, probe_from) (unreadable e garbage)
        | inr (response, e') ↦ elim (Option-cases (next_path join lossy o path response)) [
          | inl final ↦
              rw (e, e', final, probe_from)
                (answered e e' (λ next r. Redirects-next_path path response next r final))
          | inr (next, e'') ↦
              rw (e, e', e'', probe_from)
                (followed e e' (next_path-Redirects path response e'')
                  (probe_from-IsProbed left next))
        ]
      ]
    ]

    -- A probe makes at most four requests. The first is for `/`, and each other one for the path and
    -- query of the URL that the location of the response before it names, a redirect to the host and
    -- the port of the origin. Its result has the status, title and server of the last response, which is
    -- no such redirect; there is none if a response cannot be read, a request cannot be sent or
    -- the requests are used up.
    pub probe_http-IsProbed :
        (length (probe_http join lossy o reads).1 ≤ 4)
        × IsProbed 4 (codes "/") (probe_http join lossy o reads).1 (probe_http join lossy o reads).0
    unfolding probe_http
    probe_http-IsProbed = let run = probe_from-IsProbed 4 (codes "/") in (IsProbed-length run, run)
