-- ===== src/Ipc/Session.antt =====
-- ipc/unix.rs: one connection of the control socket, on the side of the daemon and of the client. The
-- reading and printing of JSON and the decoding of UTF-8 are parameters.
use raemote_server.Prelude.{
  ℕ, zero, suc, Bool, true, false, List, [], ◌∷◌, ◌++◌, nat_instance, list_instance, if◌then◌else◌,
  length, Option, none, some, unwrap_or, is_empty,
}
use raemote_server.Text.{Text, split_once, trim}
use raemote_server.Text.Utf8.{as_bytes}
use raemote_server.Auth.Secret.{constant_time_eq}
use raemote_server.Ipc.Protocol.{Request, hello, Response, accepted, denied}

-- What the reads of a socket return, one after the other: `none` is a failed read, and no bytes are the
-- end, as is the end of the list.
abbrev pub Stream : Type 0
Stream = List (Option (List ℕ))

pub data Received (A : Type 0) : Type 0 where
  message : A → Received A
  ended failed : Received A

-- `read_line` of a fresh `BufReader`: what the last read returned behind the line break is lost with
-- the reader. `none` is a failed read.
unfoldable pub read_line : List ℕ → Stream → Option (List ℕ) × Stream
read_line line [] = (some line, [])
read_line line (none ∷ stream) = (none, stream)
read_line line (some chunk ∷ stream) =
    let more = read_line (line ++ chunk) stream in
    if is_empty chunk then (some line, stream) else elim (split_once 10 chunk) [
      | some (start, lost) ↦ (some (line ++ start ++ 10 ∷ []), stream)
      | none ↦ more
    ]

-- the test of a line, and its parsing
unfoldable pub parse_line :
    {A : Type 0} → (List ℕ → Option Text) → (Text → Option A) → Option (List ℕ) → Received A
parse_line from_utf8 from_str none = failed
parse_line from_utf8 from_str (some bytes) = elim (is_empty bytes) [
  | true ↦ ended
  | false ↦ elim (from_utf8 bytes) [
    | none ↦ failed
    | some line ↦ elim (is_empty (trim line)) [
      | true ↦ ended
      | false ↦ elim (from_str (trim line)) [ none ↦ failed | some a ↦ message a ]
    ]
  ]
]

-- The daemon reads its requests and the client its responses in the same way.
unfoldable pub read_message :
    {A : Type 0} → (List ℕ → Option Text) → (Text → Option A) → Stream → Received A × Stream
read_message from_utf8 from_str stream =
    let (line, rest) = read_line [] stream in (parse_line from_utf8 from_str line, rest)

-- `constant_time_eq` of two texts
unfoldable pub text_eq : Text → Text → Bool
text_eq a b = constant_time_eq (as_bytes a) (as_bytes b)

-- whether the request is a `Hello` with the token
unfoldable pub presents : Text → Request → Bool
presents ipc_token (hello token) = text_eq token ipc_token
presents ipc_token other = false

-- A connection so far: the state of the handler, the replies sent and the number of replies that can
-- still be sent before sending fails.
pub record Session (S : Type 0) : Type 0 where
  pub state : S
  pub replies : List Response
  pub sends : ℕ

unfoldable pub send : {S : Type 0} → Session S → Response → Option (Session S)
send {S} s r = go s.sends
  where
    go : ℕ → Option (Session S)
    go zero = none
    go (suc n) = some (record s { replies = s.replies ++ r ∷ []; sends = n })

-- the refusal of the connection
abbrev pub deny : {S : Type 0} → Session S → Session S
deny s = unwrap_or (send s denied) s

module _ {S : Type 0} (from_utf8 : List ℕ → Option Text) (from_str : Text → Option Request)
    (handle : S → Request → Option (S × Response)) where
  -- The loop. `none` means that the fuel ran out or that a request is never answered.
  unfoldable pub client_loop : ℕ → Session S → Stream → Option (Session S)
  client_loop zero s stream = none
  client_loop (suc fuel) s stream =
      let (received, rest) = read_message from_utf8 from_str stream in
      elim received [
        | ended ↦ some s
        | failed ↦ some s
        | message req ↦ elim (handle s.state req) [
          | none ↦ none
          | some (state, resp) ↦ elim (send (record s { state = state }) resp) [
            | none ↦ some (record s { state = state })
            | some s' ↦ client_loop fuel s' rest
          ]
        ]
      ]

  unfoldable pub handle_client : Text → Session S → Stream → Option (Session S)
  handle_client ipc_token s stream =
      let (received, rest) = read_message from_utf8 from_str stream in
      elim received [
        | failed ↦ some s
        | ended ↦ some (deny s)
        | message req ↦
            if presents ipc_token req
            then elim (send s accepted) [
              | none ↦ some s
              | some s' ↦ client_loop (suc (length rest)) s' rest
            ]
            else some (deny s)
      ]

-- the bytes of a request that the client writes
unfoldable pub send_raw : (Request → Text) → Request → List ℕ
send_raw to_string req = as_bytes (to_string req) ++ 10 ∷ []

pub data Connected : Type 0 where
  granted refused closed broken : Connected
  unexpected : Response → Connected

-- what the client makes of the first line that it reads
unfoldable pub connect :
    (List ℕ → Option Text) → (Text → Option Response) → Stream → Connected × Stream
connect from_utf8 from_str stream =
    let (received, rest) = read_message from_utf8 from_str stream in (go received, rest)
  where
    go : Received Response → Connected
    go (message accepted) = granted
    go (message denied) = refused
    go (message other) = unexpected other
    go ended = closed
    go failed = broken

-- `request`: `none` is an error, of the socket, of the parsing or of a closed connection
unfoldable pub request :
    (List ℕ → Option Text) → (Text → Option Response) → Stream → Option Response × Stream
request from_utf8 from_str stream =
    let (received, rest) = read_message from_utf8 from_str stream in (go received, rest)
  where
    go : Received Response → Option Response
    go (message resp) = some resp
    go ended = none
    go failed = none
