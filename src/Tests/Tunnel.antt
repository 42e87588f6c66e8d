-- ===== src/Tests/Tunnel.antt =====
-- An upgrade with two headers, whose answer arrives in two reads.
use raemote_server.Prelude.{
  ℕ, ◌≡◌, refl, inl, inr, List, [], ◌∷◌, ◌++◌, arith, nat_instance, list_instance, option_instance,
  if◌then◌else◌, Bool-cases, all, Option, none, some, is_empty, All, some-injective,
}
use raemote_server.Text.{Text, codes}
use raemote_server.Discovery.Model.{Origin, http_origin}
use raemote_server.Discovery.Probe.Response.{split_crlf}
use raemote_server.Http.Headers.{Url, HeaderValues, Header}
use raemote_server.Http.Upgrade.{request_line, host_line, upgrade_lines, upgrade_head}
use raemote_server.Http.Tunnel
use raemote_server.Http.Tunnel.{IsLine, in_line}
use raemote_server.Http.Handover

abbrev vite : Origin
vite = http_origin (codes "127.0.0.1") 5173

-- values without line breaks can be read and written
abbrev readable_value : List ℕ → Option Text
readable_value value = if all in_line value then some value else none

abbrev values : HeaderValues
values = record { to_str = readable_value; from_str = λ text. some text }

abbrev root : Url
root = record {
  host_str = some (codes "127.0.0.1");
  port_or_known_default = some 80;
  path = codes "/";
  query = none;
  fragment = none;
}

abbrev parse_root : Text → Option Url
parse_root text = some root

readable_value-IsLine :
    (value : List ℕ) (text : Text) → values.to_str value ≡ some text → IsLine text
readable_value-IsLine value text h = elim (Bool-cases (all in_line value)) [
  | inl good ↦ ground (arith, good)
  | inr bad ↦ ground (arith, bad)
]

abbrev sent : List Header
sent =
    (codes "origin", codes "http://localhost")
    ∷ (codes "upgrade", codes "websocket")
    ∷ (codes "x", codes "a\r\nb")
    ∷ []

split_crlf-upgrade_head_example :
    (split_crlf (upgrade_head values parse_root vite (codes "GET") (codes "ws") none sent) ≡ (
      request_line (codes "GET") (codes "ws") none,
      host_line vite ∷ (upgrade_lines values parse_root vite sent ++ [] ∷ [] ∷ []),
    ))
    × All IsLine (
        request_line (codes "GET") (codes "ws") none
        ∷ host_line vite
        ∷ upgrade_lines values parse_root vite sent)
split_crlf-upgrade_head_example =
    Tunnel.split_crlf-upgrade_head values parse_root vite (codes "GET") (codes "ws") none sent refl
      refl (λ q h. cc) (refl, (refl, (refl, tt))) refl readable_value-IsLine
      (λ text url h. rw (← some-injective h) refl)
      (λ text query url h q. cc (rw (← some-injective h) at q))

abbrev ascii : List ℕ → Text
ascii bytes = bytes

abbrev name_of : Text → Option Text
name_of text = if is_empty text then none else some text

-- the answer is cut within the blank line, and a byte follows it
abbrev answer : List (List ℕ)
answer =
    codes "HTTP/1.1 101 Switching\r\nUpgrade: websocket\r\n\r" ∷ codes "\nX" ∷ codes "later" ∷ []
