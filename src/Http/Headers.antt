-- ===== src/Http/Headers.antt =====
-- http.rs: the headers of a proxied request and of its response. Header values are bytes; the
-- conversions of header values (hyper) and the parser of URLs (url) are parameters.
use raemote_server.Prelude.{
  ℕ, ◌≡◌, refl, Bool, true, false, ◌&&◌, ◌||◌, List, [], ◌∷◌, ◌++◌, arith, ◌==◌, nat_instance,
  list_instance, if◌then◌else◌, Option, none, some, unwrap_or, is_empty, nat_eq,
}
use raemote_server.HashSet
use raemote_server.Text.{Text, codes, lowercase, eq_ignore_ascii_case, starts_with, strip_prefix}
use raemote_server.Discovery.Model.{Origin, authority, scheme_text}

pub record Url : Type 0 where
  pub host_str : Option Text
  pub port_or_known_default : Option ℕ
  pub path : Text
  pub query : Option Text
  pub fragment : Option Text

pub record HeaderValues : Type 0 where
  pub to_str : List ℕ → Option Text
  pub from_str : Text → Option (List ℕ)

abbrev pub Header : Type 0
Header = Text × List ℕ

abbrev hop_by_hop : List Text
hop_by_hop =
    codes "connection"
    ∷ codes "keep-alive"
    ∷ codes "proxy-authenticate"
    ∷ codes "proxy-authorization"
    ∷ codes "te"
    ∷ codes "trailer"
    ∷ codes "transfer-encoding"
    ∷ codes "upgrade"
    ∷ []

unfoldable pub is_hop_by_hop : Text → Bool
is_hop_by_hop name = HashSet.contains hop_by_hop (lowercase name)

unfoldable pub upstream_base : Origin → Text
upstream_base o = scheme_text o.scheme ++ (codes "://" ++ authority o)

-- `str::trim_start_matches` and `str::trim_end_matches` at a character
unfoldable pub trim_start_matches : ℕ → Text → Text
trim_start_matches d [] = []
trim_start_matches d (c ∷ s) =
    let rest = trim_start_matches d s in if nat_eq c d then rest else c ∷ s

unfoldable pub trim_end_matches : ℕ → Text → Text
trim_end_matches d [] = []
trim_end_matches d (c ∷ s) =
    let rest = trim_end_matches d s in if nat_eq c d && is_empty rest then [] else c ∷ rest

unfoldable pub is_loopback_host : Text → Bool
is_loopback_host host =
    HashSet.contains (codes "127.0.0.1" ∷ codes "localhost" ∷ codes "::1" ∷ [])
      (trim_end_matches b']' (trim_start_matches b'[' host))

abbrev has_loopback_host : Url → Bool
has_loopback_host url = elim url.host_str [ none ↦ false | some host ↦ is_loopback_host host ]

-- `out.push(mark); out.push_str(part)`
abbrev pub part : ℕ → Option Text → Text
part mark none = []
part mark (some text) = mark ∷ text

-- the location points back at the origin
unfoldable pub is_same_origin : Text → Option ℕ → Origin → Bool
is_same_origin host port o =
    (eq_ignore_ascii_case host o.host || (is_loopback_host host && is_loopback_host o.host))
    && elim port [ none ↦ false | some p ↦ nat_eq p o.port ]

abbrev pub relative : Url → Text
relative url =
    (if is_empty url.path then codes "/" else url.path)
    ++ (part b'?' url.query ++ part b'#' url.fragment)

module _ (parse : Text → Option Url) where
  unfoldable pub rewrite_origin : Text → Origin → Text
  rewrite_origin value o = elim (parse value) [
    | none ↦ value
    | some url ↦ if has_loopback_host url then upstream_base o else value
  ]

  unfoldable pub rewrite_referer : Text → Origin → Text
  rewrite_referer value o = elim (parse value) [
    | none ↦ value
    | some url ↦
        if has_loopback_host url
        then upstream_base o ++ (url.path ++ part b'?' url.query)
        else value
  ]

  unfoldable pub rewrite_location : Text → Origin → Text
  rewrite_location value o = elim (parse value) [
    | none ↦ value
    | some url ↦ elim url.host_str [
      | none ↦ value
      | some host ↦ if is_same_origin host url.port_or_known_default o then relative url else value
    ]
  ]

-- the loop over the headers, with the rewriting of the values
unfoldable pub forward : (Text → List ℕ → List ℕ) → List Header → List Header
forward rewrite [] = []
forward rewrite ((name, value) ∷ headers) =
    let rest = forward rewrite headers in
    if name == codes "host" || is_hop_by_hop name then rest else (name, rewrite name value) ∷ rest

-- a value that cannot be read, or whose rewriting cannot be written, is kept
abbrev rewritten : HeaderValues → (Text → Text) → List ℕ → List ℕ
rewritten values f value = elim (values.to_str value) [
  | none ↦ value
  | some text ↦ unwrap_or (values.from_str (f text)) value
]

unfoldable pub request_headers :
    HeaderValues → (Text → Option Url) → Origin → List Header → List Header
request_headers values parse o = forward (λ name value.
    if name == codes "origin"
    then rewritten values (λ text. rewrite_origin parse text o) value
    else if name == codes "referer"
    then rewritten values (λ text. rewrite_referer parse text o) value
    else value)

unfoldable pub response_headers :
    HeaderValues → (Text → Option Url) → Origin → List Header → List Header
response_headers values parse o = forward (λ name value.
    if name == codes "location"
    then rewritten values (λ text. rewrite_location parse text o) value
    else value)

starts_with-relative :
    (path : Text) (query fragment : Option Text)
    → starts_with
        (codes "//")
        ((if is_empty path then codes "/" else path) ++ (part b'?' query ++ part b'#' fragment))
      ≡ starts_with (codes "//") path
unfolding strip_prefix
starts_with-relative [] none none = refl
starts_with-relative [] none (some f) = refl
starts_with-relative [] (some q) fragment = refl
starts_with-relative (c ∷ []) none none = refl
starts_with-relative (c ∷ []) none (some f) = ground arith
starts_with-relative (c ∷ []) (some q) fragment = ground arith
starts_with-relative (c ∷ d ∷ path) query fragment = ground arith

-- A location that points back at the origin is rewritten to a reference that names a host of its own
-- (one that starts with two slashes) exactly if its path starts with two slashes.
pub starts_with-rewrite_location :
    (parse : Text → Option Url) (value host : Text) (o : Origin) {url : Url}
    → parse value ≡ some url
    → url.host_str ≡ some host
    → is_same_origin host url.port_or_known_default o ≡ true
    → starts_with (codes "//") (rewrite_location parse value o) ≡ starts_with (codes "//") url.path
unfolding rewrite_location
starts_with-rewrite_location parse value host o {url} parsed hosted same =
    rw (parsed, hosted, same, rewrite_location)
      (starts_with-relative url.path url.query url.fragment)
