-- ===== src/Http/Forwarding.antt =====
-- http.rs: which headers a proxied request and its response carry.
use raemote_server.Prelude.{
  ℕ, ◌≡◌, ◌≢◌, refl, sym, ◌⊎◌, inl, inr, Bool, true, ◌||◌, List, [], ◌∷◌, ◌==◌, nat_instance,
  list_instance, option_instance, eq_iff, Bool-cases, Option,
}
use raemote_server.HashSet
use raemote_server.Text.{Text, codes, lowercase}
use raemote_server.Discovery.Model.{Origin}
use raemote_server.Http.Headers.{
  Url, HeaderValues, Header, is_hop_by_hop, forward, request_headers, response_headers,
}

-- a header that belongs to one connection (RFC 9110, 7.6.1, and RFC 2616, 13.5.1), in any case
pub data IsConnectionHeader (name : Text) : Type 0 where
  connection : lowercase name ≡ codes "connection" → IsConnectionHeader name
  keep_alive : lowercase name ≡ codes "keep-alive" → IsConnectionHeader name
  proxy_authenticate : lowercase name ≡ codes "proxy-authenticate" → IsConnectionHeader name
  proxy_authorization : lowercase name ≡ codes "proxy-authorization" → IsConnectionHeader name
  te : lowercase name ≡ codes "te" → IsConnectionHeader name
  trailer : lowercase name ≡ codes "trailer" → IsConnectionHeader name
  transfer_encoding : lowercase name ≡ codes "transfer-encoding" → IsConnectionHeader name
  upgrade : lowercase name ≡ codes "upgrade" → IsConnectionHeader name

-- the first text is the one that is looked for, or a later one is
pick :
    {P : Type 0} (x a : Text) (later : Bool)
    → (a ≡ x → P)
    → (later ≡ true → P)
    → (x == a || later) ≡ true
    → P
pick x a later here there h = elim (Bool-cases (x == a)) [
  | inl same ↦ here (sym ((eq_iff x a).0 same))
  | inr other ↦ there (rw other at h)
]

is_hop_by_hop_sound : (name : Text) → is_hop_by_hop name ≡ true → IsConnectionHeader name
unfolding is_hop_by_hop HashSet.contains
is_hop_by_hop_sound name =
    let l = lowercase name in
    pick (codes "connection") l
      (HashSet.contains
        (codes "keep-alive"
          ∷ codes "proxy-authenticate"
          ∷ codes "proxy-authorization"
          ∷ codes "te"
          ∷ codes "trailer"
          ∷ codes "transfer-encoding"
          ∷ codes "upgrade"
          ∷ [])
        l)
      connection
      (pick (codes "keep-alive") l
        (HashSet.contains
          (codes "proxy-authenticate"
            ∷ codes "proxy-authorization"
            ∷ codes "te"
            ∷ codes "trailer"
            ∷ codes "transfer-encoding"
            ∷ codes "upgrade"
            ∷ [])
          l)
        keep_alive
        (pick (codes "proxy-authenticate") l
          (HashSet.contains
            (codes "proxy-authorization"
              ∷ codes "te"
              ∷ codes "trailer"
              ∷ codes "transfer-encoding"
              ∷ codes "upgrade"
              ∷ [])
            l)
          proxy_authenticate
          (pick (codes "proxy-authorization") l
            (HashSet.contains
              (codes "te" ∷ codes "trailer" ∷ codes "transfer-encoding" ∷ codes "upgrade" ∷ []) l)
            proxy_authorization
            (pick (codes "te") l
              (HashSet.contains (codes "trailer" ∷ codes "transfer-encoding" ∷ codes "upgrade" ∷ [])
                l)
              te
              (pick (codes "trailer") l
                (HashSet.contains (codes "transfer-encoding" ∷ codes "upgrade" ∷ []) l) trailer
                (pick (codes "transfer-encoding") l (HashSet.contains (codes "upgrade" ∷ []) l)
                  transfer_encoding
                  (pick (codes "upgrade") l (HashSet.contains ([]) l) upgrade (λ h. cc))))))))

is_hop_by_hop_complete : (name : Text) → IsConnectionHeader name → is_hop_by_hop name ≡ true
unfolding is_hop_by_hop HashSet.contains
is_hop_by_hop_complete name (connection e) = rw e refl
is_hop_by_hop_complete name (keep_alive e) = rw e refl
is_hop_by_hop_complete name (proxy_authenticate e) = rw e refl
is_hop_by_hop_complete name (proxy_authorization e) = rw e refl
is_hop_by_hop_complete name (te e) = rw e refl
is_hop_by_hop_complete name (trailer e) = rw e refl
is_hop_by_hop_complete name (transfer_encoding e) = rw e refl
is_hop_by_hop_complete name (upgrade e) = rw e refl

-- The second list of headers is the first one without the host and the headers of the connection. A
-- value is the same, unless the header may be rewritten.
pub data IsForwarded (Rewritable : Text → Type 0) : List Header → List Header → Type 0 where
  done : IsForwarded Rewritable [] []
  dropped :
      {name : Text} {value : List ℕ} {headers out : List Header}
      → (name ≡ codes "host") ⊎ IsConnectionHeader name
      → IsForwarded Rewritable headers out
      → IsForwarded Rewritable ((name, value) ∷ headers) out
  kept :
      {name : Text} {value value' : List ℕ} {headers out : List Header}
      → name ≢ codes "host"
      → ¬ IsConnectionHeader name
      → Rewritable name ⊎ (value' ≡ value)
      → IsForwarded Rewritable headers out
      → IsForwarded Rewritable ((name, value) ∷ headers) ((name, value') ∷ out)

forward-IsForwarded :
    (Rewritable : Text → Type 0) (rewrite : Text → List ℕ → List ℕ) (headers : List Header)
    → ((name : Text) (value : List ℕ) → Rewritable name ⊎ (rewrite name value ≡ value))
    → IsForwarded Rewritable headers (forward rewrite headers)
unfolding forward
forward-IsForwarded Rewritable rewrite [] h = done
forward-IsForwarded Rewritable rewrite ((name, value) ∷ headers) h =
    let rest = forward-IsForwarded Rewritable rewrite headers h in
    elim (Bool-cases (name == codes "host")) [
      | inl host ↦ rw (host, forward) (dropped (inl ((eq_iff name (codes "host")).0 host)) rest)
      | inr other ↦ elim (Bool-cases (is_hop_by_hop name)) [
        | inl hop ↦ rw (other, hop, forward) (dropped (inr (is_hop_by_hop_sound name hop)) rest)
        | inr end_to_end ↦
            rw (other, end_to_end, forward)
              (kept (λ e. cc (other, (eq_iff name (codes "host")).1 e))
                (λ c. cc (end_to_end, is_hop_by_hop_complete name c)) (h name value) rest)
      ]
    ]

-- A proxied request and its response carry the headers that they came with, in their order, without
-- the host and the headers of a connection (connection, keep-alive, proxy-authenticate,
-- proxy-authorization, te, trailer, transfer-encoding and upgrade), in whatever case these are written. The
-- values are the same, except that those of origin and referer may differ in the request, and those of location in the
-- response.
pub headers-end_to_end :
    (values : HeaderValues) (parse : Text → Option Url) (o : Origin) (headers : List Header)
    → IsForwarded
        (λ name. (name ≡ codes "origin") ⊎ (name ≡ codes "referer"))
        headers
        (request_headers values parse o headers)
      × IsForwarded
          (λ name. name ≡ codes "location")
          headers
          (response_headers values parse o headers)
unfolding request_headers response_headers
headers-end_to_end values parse o headers = (
  forward-IsForwarded _ _ headers (λ name value. elim (Bool-cases (name == codes "origin")) [
    | inl origin ↦ inl (inl ((eq_iff name (codes "origin")).0 origin))
    | inr other ↦ elim (Bool-cases (name == codes "referer")) [
      | inl referer ↦ inl (inr ((eq_iff name (codes "referer")).0 referer))
      | inr plain ↦ inr (rw (other, plain) refl)
    ]
  ]),
  forward-IsForwarded _ _ headers (λ name value. elim (Bool-cases (name == codes "location")) [
    | inl location ↦ inl ((eq_iff name (codes "location")).0 location)
    | inr plain ↦ inr (rw plain refl)
  ]),
)
