-- ===== src/Http/Tunnel.antt =====
-- http.rs: what an upgrade passes on, in both directions.
use raemote_server.Prelude.{
  ℕ, ◌≡◌, refl, ap, ◌∙◌, inl, inr, Bool, true, not, ◌&&◌, List, [], ◌∷◌, ◌++◌, append_assoc, arith,
  ◌==◌, nat_instance, list_instance, option_instance, Bool-cases, Option-cases, all, Option, none,
  some, nat_eq, All,
}
use raemote_server.Text.{Text, codes, has_char}
use raemote_server.Text.Decimal.{decimal, decimal-IsDigit, IsDigit}
use raemote_server.Discovery.Model.{Origin, authority, http, Scheme, scheme_text}
use raemote_server.Discovery.Probe.Response.{crlf, split_crlf}
use raemote_server.Http.Headers.{
  Url, HeaderValues, Header, part, upstream_base, rewrite_origin, rewrite_referer, is_loopback_host,
}
use raemote_server.Http.Upgrade.{
  with_breaks, request_line, host_line, upgrade_value, upgrade_line, upgrade_lines, upgrade_head,
}

abbrev pub in_line : ℕ → Bool
in_line c = not (nat_eq c 13) && not (nat_eq c 10)

-- no line break, and no half of one, in the text
abbrev pub IsLine : Text → Type 0
IsLine t = all in_line t ≡ true

IsLine-append : (s t : Text) → IsLine s → IsLine t → IsLine (s ++ t)
IsLine-append [] t h k = k
IsLine-append (c ∷ s) t h k = ground (arith, IsLine-append s t)

digits-IsLine : (s : Text) → All IsDigit s → IsLine s
digits-IsLine [] h = refl
digits-IsLine (c ∷ s) h = ground (arith, digits-IsLine s h.1)

authority-IsLine : (o : Origin) → IsLine o.host → IsLine (authority o)
unfolding authority
authority-IsLine o h =
    let port = digits-IsLine (decimal o.port) (decimal-IsDigit o.port) in
    elim (Bool-cases (has_char b':' o.host)) [
      | inl colon ↦ rw colon (IsLine-append o.host (codes "]:" ++ decimal o.port) h port)
      | inr plain ↦ rw plain (IsLine-append o.host (b':' ∷ decimal o.port) h port)
    ]

scheme_text-IsLine : (s : Scheme) → IsLine (scheme_text s)
scheme_text-IsLine http = refl

upstream_base-IsLine : (o : Origin) → IsLine o.host → IsLine (upstream_base o)
unfolding upstream_base
upstream_base-IsLine o h =
    IsLine-append (scheme_text o.scheme) (codes "://" ++ authority o) (scheme_text-IsLine o.scheme)
      (authority-IsLine o h)

part-IsLine :
    (mark : ℕ) (query : Option Text)
    → in_line mark ≡ true
    → ((q : Text) → query ≡ some q → IsLine q)
    → IsLine (part mark query)
part-IsLine mark none m h = refl
part-IsLine mark (some q) m h = rw m (h q refl)

-- The lines that were put together are those that are read.
split_crlf-line :
    (line s : Text)
    → IsLine line
    → split_crlf (line ++ (crlf ++ s)) ≡ (line, (split_crlf s).0 ∷ (split_crlf s).1)
unfolding split_crlf
split_crlf-line [] s h = refl
split_crlf-line (c ∷ []) s h = ground arith
split_crlf-line (c ∷ d ∷ line) s h = ground (arith, split_crlf-line (d ∷ line) s)

split_crlf-lines :
    (line : Text) (lines : List Text)
    → IsLine line
    → All IsLine lines
    → split_crlf (with_breaks (line ∷ lines) ++ crlf) ≡ (line, lines ++ [] ∷ [] ∷ [])
unfolding with_breaks split_crlf
split_crlf-lines line [] h k =
    ap split_crlf (append_assoc line (crlf ++ []) crlf) ∙ split_crlf-line line crlf h
split_crlf-lines line (next ∷ lines) h k =
    ap split_crlf (append_assoc line (crlf ++ with_breaks (next ∷ lines)) crlf)
    ∙ (split_crlf-line line (with_breaks (next ∷ lines) ++ crlf) h
        ∙ ap (λ (r : Text × List Text). (line, r.0 ∷ r.1)) (split_crlf-lines next lines k.0 k.1))

module _ (values : HeaderValues) (parse : Text → Option Url) (o : Origin) where
  module _ (host : IsLine o.host)
      (readable : (value : List ℕ) (text : Text) → values.to_str value ≡ some text → IsLine text)
      (path_escaped : (text : Text) (url : Url) → parse text ≡ some url → IsLine url.path)
      (query_escaped : (text query : Text) (url : Url)
        → parse text ≡ some url
        → url.query ≡ some query
        → IsLine query) where
    rewrite_origin-IsLine : (text : Text) → IsLine text → IsLine (rewrite_origin parse text o)
    unfolding rewrite_origin
    rewrite_origin-IsLine text h = elim (Option-cases (parse text)) [
      | inl bad ↦ rw (bad, rewrite_origin) h
      | inr (url, e) ↦ elim (Option-cases url.host_str) [
        | inl hostless ↦ rw (e, hostless, rewrite_origin) h
        | inr (name, e') ↦ elim (Bool-cases (is_loopback_host name)) [
          | inl loopback ↦ rw (e, e', loopback, rewrite_origin) (upstream_base-IsLine o host)
          | inr remote ↦ rw (e, e', remote, rewrite_origin) h
        ]
      ]
    ]

    rewrite_referer-IsLine : (text : Text) → IsLine text → IsLine (rewrite_referer parse text o)
    unfolding rewrite_referer
    rewrite_referer-IsLine text h = elim (Option-cases (parse text)) [
      | inl bad ↦ rw (bad, rewrite_referer) h
      | inr (url, e) ↦ elim (Option-cases url.host_str) [
        | inl hostless ↦ rw (e, hostless, rewrite_referer) h
        | inr (name, e') ↦ elim (Bool-cases (is_loopback_host name)) [
          | inl loopback ↦
              rw (e, e', loopback, rewrite_referer)
                (IsLine-append (upstream_base o) (url.path ++ part b'?' url.query)
                  (upstream_base-IsLine o host)
                  (IsLine-append url.path (part b'?' url.query) (path_escaped text url e)
                    (part-IsLine b'?' url.query refl (λ q e''. query_escaped text q url e e''))))
          | inr remote ↦ rw (e, e', remote, rewrite_referer) h
        ]
      ]
    ]

    upgrade_value-IsLine :
        (name text : Text) → IsLine text → IsLine (upgrade_value values parse o name text)
    unfolding upgrade_value
    upgrade_value-IsLine name text h = elim (Bool-cases (name == codes "origin")) [
      | inl origin ↦ rw origin (rewrite_origin-IsLine text h)
      | inr other ↦ elim (Bool-cases (name == codes "referer")) [
        | inl referer ↦ rw (other, referer) (rewrite_referer-IsLine text h)
        | inr plain ↦ rw (other, plain) h
      ]
    ]

    upgrade_lines-IsLine :
        (headers : List Header)
        → All (λ (header : Header). IsLine header.0) headers
        → All IsLine (upgrade_lines values parse o headers)
    unfolding upgrade_lines upgrade_line
    upgrade_lines-IsLine [] n = tt
    upgrade_lines-IsLine ((name, value) ∷ headers) n =
        let rest = upgrade_lines-IsLine headers n.1 in
        elim (Bool-cases (name == codes "host")) [
          | inl host_header ↦ rw (host_header, All) rest
          | inr other ↦ elim (Option-cases (values.to_str value)) [
            | inl unreadable ↦ rw (other, unreadable, All) rest
            | inr (text, e) ↦
                rw (other, e, All)
                  (
                    IsLine-append name (codes ": " ++ upgrade_value values parse o name text) n.0
                        (upgrade_value-IsLine name text (readable value text e)),
                    rest,
                  )
          ]
        ]

  -- The head that is written to the origin, cut at its line breaks, is the request line, the host,
  -- and one line for each header that is passed on, then the blank line that ends it; and there is
  -- no line break in any of them. So nothing that a client sends adds a header or a second request.
  -- The method, the path, the query, the names of the headers and the host of the origin have no
  -- line breaks, nor have the values that can be read and the paths and queries of parsed URLs.
  pub split_crlf-upgrade_head :
      (method sub_path : Text) (query : Option Text) (headers : List Header)
      → IsLine method
      → IsLine sub_path
      → ((q : Text) → query ≡ some q → IsLine q)
      → All (λ (header : Header). IsLine header.0) headers
      → IsLine o.host
      → ((value : List ℕ) (text : Text) → values.to_str value ≡ some text → IsLine text)
      → ((text : Text) (url : Url) → parse text ≡ some url → IsLine url.path)
      → ((text query : Text) (url : Url)
          → parse text ≡ some url
          → url.query ≡ some query
          → IsLine query)
      → (split_crlf (upgrade_head values parse o method sub_path query headers) ≡ (
        request_line method sub_path query,
        host_line o ∷ (upgrade_lines values parse o headers ++ [] ∷ [] ∷ []),
      ))
        × All IsLine (
            request_line method sub_path query ∷ host_line o ∷ upgrade_lines values parse o headers)
  unfolding upgrade_head
  split_crlf-upgrade_head method sub_path query headers m p q n host readable path_escaped
        query_escaped =
      let first : IsLine (request_line method sub_path query) =
        IsLine-append method (codes " /" ++ (sub_path ++ (part b'?' query ++ codes " HTTP/1.1"))) m
          (IsLine-append sub_path (part b'?' query ++ codes " HTTP/1.1") p (
            IsLine-append (part b'?' query) (codes " HTTP/1.1") (part-IsLine b'?' query refl q)
              refl)) in
      let second : IsLine (host_line o) = authority-IsLine o host in
      let others = upgrade_lines-IsLine host readable path_escaped query_escaped headers n in
      (
        split_crlf-lines _ (host_line o ∷ upgrade_lines values parse o headers) first
            (second, others),
        (first, (second, others)),
      )
