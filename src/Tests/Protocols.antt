-- ===== src/Tests/Protocols.antt =====
-- The two protocols and the configuration at concrete inputs.
use raemote_server.Prelude.{
  ℕ, ◌≡◌, ◌≢◌, refl, ◌↔◌, ◌⊎◌, true, false, List, [], ◌∷◌, arith, ◌==◌, nat_instance, list_instance,
  option_instance, if◌then◌else◌, Option, none, some,
}
use raemote_server.HashMap
use raemote_server.HashSet
use raemote_server.Auth.Attempt.{Redeemable}
use raemote_server.Text.{Text, codes, trim, starts_with, to_ascii_lowercase}
use raemote_server.Auth.Operations.{is_authorized, revoke}
use raemote_server.Auth.State.{AuthState, PendingToken}
use raemote_server.Auth.Trace.{limit, revocation}
use raemote_server.Bind
use raemote_server.Bind.{written, received, replied}
use raemote_server.Config.Schema.{ServeConfig, default_config, default_serve, default_rate_limit}
use raemote_server.Config.Usable
use raemote_server.Config.Usable.{IsBounded, IsServable}
use raemote_server.Config.Validate.{validate}
use raemote_server.Discovery.Model.{Origin, http_origin}
use raemote_server.Http.Headers
use raemote_server.Http.Forwarding
use raemote_server.Http.Forwarding.{IsForwarded}
use raemote_server.Http.Headers.{
  Url, Header, HeaderValues, request_headers, response_headers, rewrite_location, is_same_origin,
  is_loopback_host,
}
use raemote_server.Http.Limiters
use raemote_server.Http.Limiters.{Limiters, connected, reloaded, get_or_create_limiter, limiter_of}
use raemote_server.Http.Serve
use raemote_server.Http.Serve.{Event, call, stream, accept_loop, closed}
use raemote_server.Tests.Fixtures.{
  Node, node_instance, phone, tablet, nodes, toml, healthy, gift, pairing, pairing-IsValid,
}

abbrev start : AuthState Node
start = pairing (tablet ∷ []) (gift ∷ [])

-- the decoder of ASCII bytes
ascii : List ℕ → Text
ascii bytes = bytes

accept-ok_iff_example :
    ((Bind.accept nodes ascii start 1 7 healthy phone (received (codes "secret\n") written)).1
      ≡ replied (codes "OK\n"))
    ↔ (is_authorized
          (Bind.accept nodes ascii start 1 7 healthy phone (received (codes "secret\n") written)).0
          phone
        ≡ true)
accept-ok_iff_example =
    Bind.accept-ok_iff nodes ascii start 0 7 healthy phone (codes "secret\n")
      (pairing-IsValid.invites) (omega arith)

abbrev padded : PendingToken
padded = record { token_hex = codes " secret"; expires_at = 100; expires_at_unix = 0 }

abbrev padded_start : AuthState Node
padded_start = record start {
  inner = record (start.inner) { pending = some padded; invitations = [] };
}

trimmed : trim (codes " secret") ≢ codes " secret"
unfolding trim
trimmed h = cc

nothing_Redeemable : (t : Text) → ¬ Redeemable padded_start.inner.invitations 7 t
unfolding HashMap.get
nothing_Redeemable t (i, found, live) = cc

phone_unauthorized : is_authorized padded_start phone ≡ false
unfolding is_authorized HashSet.contains
phone_unauthorized = refl

untrimmed_token_useless_example :
    is_authorized
      (Bind.accept nodes ascii padded_start 1 7 healthy phone
        (received (codes " secret") written)).0
      phone
    ≡ false
untrimmed_token_useless_example =
    Bind.untrimmed_token_useless nodes ascii padded_start 1 7 healthy phone
      (received (codes " secret") written) padded tt nothing_Redeemable refl trimmed
      phone_unauthorized

revoke-accept_loop_example :
    ((accept_loop nodes toml start tablet
        (call (revocation healthy healthy tablet) ∷ call (limit 4) ∷ stream ∷ [])).0
      ≡ 0)
    × (Serve.accept nodes toml
          (revoke nodes toml start healthy healthy tablet).0
          tablet
          (call (limit 4) ∷ stream ∷ [])
        ≡ (0, closed 401 (codes "unauthorized")))
revoke-accept_loop_example =
    Serve.revoke-accept_loop nodes toml start tablet healthy healthy (call (limit 4) ∷ stream ∷ [])
      pairing-IsValid (omega arith, (tt, tt)) (tt, (tt, tt))

abbrev idle : Limiters Node
idle = record {
  limiters = [];
  limiter_generation = 0;
  config_generation = 0;
  serve = default_serve;
}

abbrev wider : ServeConfig
wider = record { max_concurrent_streams = 200; rate_limit = default_rate_limit }

get_or_create_limiter-current_example :
    (get_or_create_limiter (Limiters.run idle (connected phone ∷ reloaded wider ∷ [])) phone).1
    ≡ limiter_of (Limiters.run idle (connected phone ∷ reloaded wider ∷ [])).serve
get_or_create_limiter-current_example =
    Limiters.get_or_create_limiter-current idle (connected phone ∷ reloaded wider ∷ []) phone refl
      refl (omega arith)

validate_iff_example : (validate default_config ≡ none) ↔ (IsBounded default_config × IsServable [])
validate_iff_example = Usable.validate_iff default_config

abbrev local : Origin
local = http_origin (codes "127.0.0.1") 3000

abbrev elsewhere : Url
elsewhere = record {
  host_str = some (codes "127.0.0.1");
  port_or_known_default = some 3000;
  path = codes "//example.com/";
  query = none;
  fragment = none;
}

-- the parser, at two texts
abbrev parse_url : Text → Option Url
parse_url t =
    if t == codes "http://127.0.0.1:3000//example.com/"
    then some elsewhere
    else if t == codes "http://127.0.0.1:5000/login"
    then some (record {
      host_str = some (codes "127.0.0.1");
      port_or_known_default = some 5000;
      path = codes "/login";
      query = none;
      fragment = none;
    })
    else none

abbrev values : HeaderValues
values = record { to_str = λ bytes. some bytes; from_str = λ text. some text }

abbrev sent : List Header
sent =
    (codes "host", codes "phone")
    ∷ (codes "origin", codes "http://127.0.0.1:5000/login")
    ∷ (codes "TE", codes "trailers")
    ∷ (codes "accept", codes "*/*")
    ∷ []

headers-end_to_end_example :
    IsForwarded
      (λ name. (name ≡ codes "origin") ⊎ (name ≡ codes "referer"))
      sent
      (request_headers values parse_url local sent)
    × IsForwarded
        (λ name. name ≡ codes "location")
        sent
        (response_headers values parse_url local sent)
headers-end_to_end_example = Forwarding.headers-end_to_end values parse_url local sent

same_origin : is_same_origin (codes "127.0.0.1") (some 3000) local ≡ true
unfolding is_same_origin to_ascii_lowercase
same_origin = refl

starts_with-rewrite_location_example :
    starts_with
      (codes "//")
      (rewrite_location parse_url (codes "http://127.0.0.1:3000//example.com/") local)
    ≡ starts_with (codes "//") (codes "//example.com/")
starts_with-rewrite_location_example =
    Headers.starts_with-rewrite_location parse_url (codes "http://127.0.0.1:3000//example.com/")
      (codes "127.0.0.1") local {url = elsewhere} refl refl same_origin
