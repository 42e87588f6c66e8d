-- ===== src/Ipc/Dialogue.antt =====
-- ipc/unix.rs: a whole conversation of the client with the daemon.
use raemote_server.Prelude.{
  ℕ, zero, suc, ◌-◌, ◌≤◌, ◌<◌, ◌≡◌, refl, ap, ◌∙◌, inl, inr, true, false, List, [], ◌∷◌, ◌++◌, map,
  append_assoc, append-nil, arith, nat_instance, list_instance, eq_self, Option-cases, length,
  Option, none, some, is_empty, All, length-append,
}
use raemote_server.Text.{Text, has_char}
use raemote_server.Text.Utf8.{as_bytes}
use raemote_server.Text.Trim.{StartsDark, EndsDark}
use raemote_server.Text.Split.{as_bytes-line, trim-line}
use raemote_server.Ipc.Protocol.{Request, hello, Response, accepted}
use raemote_server.Ipc.Session.{
  Stream, message, ended, read_line, parse_line, read_message, presents, Session, send, client_loop,
  handle_client, send_raw,
}
use raemote_server.Ipc.Delivery.{Delivers, is_empty-line, read_line-delivered}
use raemote_server.Ipc.Handshake.{text_eq_lem}

-- What `serde_json` prints of the request is one line without blanks around it, which is read back.
pub record IsLine (from_utf8 : List ℕ → Option Text) (from_str : Text → Option Request)
    (to_string : Request → Text) (req : Request) : Type 0 where
  pub parsed : from_str (to_string req) ≡ some req
  pub decoded : from_utf8 (as_bytes (to_string req ++ 10 ∷ [])) ≡ some (to_string req ++ 10 ∷ [])
  pub filled : is_empty (to_string req) ≡ false
  pub starts : StartsDark (to_string req)
  pub ends : EndsDark (to_string req)
  pub unbroken : has_char 10 (as_bytes (to_string req)) ≡ false

-- the reads of a stream that delivers each request by itself, cut anywhere
abbrev pub stream_of : List (List (List ℕ)) → Stream
stream_of [] = []
stream_of (chunks ∷ cuts) = map some chunks ++ stream_of cuts

abbrev pub DeliversAll : (Request → Text) → List Request → List (List (List ℕ)) → Type 0
DeliversAll to_string [] [] = Unit
DeliversAll to_string [] (chunks ∷ cuts) = ⊥
DeliversAll to_string (req ∷ reqs) [] = ⊥
DeliversAll to_string (req ∷ reqs) (chunks ∷ cuts) =
    Delivers (send_raw to_string req) chunks × DeliversAll to_string reqs cuts

-- the requests, answered one after the other
unfoldable pub answers :
    {S : Type 0}
    → (S → Request → Option (S × Response))
    → S
    → List Request
    → Option (S × List Response)
answers handle s [] = some (s, [])
answers handle s (req ∷ reqs) = elim (handle s req) [
  | none ↦ none
  | some (s', resp) ↦ elim (answers handle s' reqs) [
    | none ↦ none
    | some (s'', resps) ↦ some (s'', resp ∷ resps)
  ]
]

send-some :
    {S : Type 0} (s : Session S) (r : Response) (n : ℕ)
    → s.sends ≡ suc n
    → send s r ≡ some (record s { replies = s.replies ++ r ∷ []; sends = n })
unfolding send
send-some s r n h = rw (h, send) refl

length-stream_of :
    (to_string : Request → Text) (reqs : List Request) (cuts : List (List (List ℕ)))
    → DeliversAll to_string reqs cuts
    → length reqs ≤ length (stream_of cuts)
unfolding send_raw
length-stream_of to_string [] cuts d = omega arith
length-stream_of to_string (req ∷ reqs) [] d = absurd d
length-stream_of to_string (req ∷ reqs) ([] ∷ cuts) d =
    cc (is_empty-line (as_bytes (to_string req)), ap is_empty (d.0).complete)
length-stream_of to_string (req ∷ reqs) ((chunk ∷ chunks) ∷ cuts) d = omega (
  arith,
  length-append {0} (map some chunks) (stream_of cuts),
  length-stream_of to_string reqs cuts d.1,
)

module _ (from_utf8 : List ℕ → Option Text) (from_str : Text → Option Request)
    (to_string : Request → Text) where
  read_message-nil : read_message from_utf8 from_str [] ≡ (ended, [])
  unfolding read_message read_line parse_line
  read_message-nil = refl

  read_message-send_raw :
      (req : Request) (chunks : List (List ℕ)) (rest : Stream)
      → IsLine from_utf8 from_str to_string req
      → Delivers (send_raw to_string req) chunks
      → read_message from_utf8 from_str (map some chunks ++ rest) ≡ (message req, rest)
  unfolding read_message send_raw parse_line
  read_message-send_raw req chunks rest l d =
      let clean = trim-line (to_string req) l.filled l.starts l.ends in
      let bytes = as_bytes-line (to_string req) in
      let line = read_line-delivered chunks [] (as_bytes (to_string req)) rest l.unbroken d in
      ground (
        arith,
        clean,
        bytes,
        line,
        is_empty-line (as_bytes (to_string req)),
        l.decoded,
        l.parsed,
        l.filled,
      )

  module _ {S : Type 0} (handle : S → Request → Option (S × Response)) where
    -- every request has its reply, in order, behind the replies that were sent before
    abbrev Answered : Session S → Option (Session S) → S → List Response → Type 0
    Answered s r state resps =
        (t : Session S) × (r ≡ some t) × (t.state ≡ state) × (t.replies ≡ s.replies ++ resps)

    client_loop-answers :
        (reqs : List Request) (cuts : List (List (List ℕ))) (fuel : ℕ) (s : Session S) {s' : S}
        {resps : List Response}
        → All (IsLine from_utf8 from_str to_string) reqs
        → DeliversAll to_string reqs cuts
        → length reqs < fuel
        → length reqs ≤ s.sends
        → answers handle s.state reqs ≡ some (s', resps)
        → Answered s (client_loop from_utf8 from_str handle fuel s (stream_of cuts)) s' resps
    unfolding client_loop answers
    client_loop-answers reqs cuts zero s h d l n a = absurd (omega arith)
    client_loop-answers [] (chunks ∷ cuts) (suc fuel) s h d l n a = absurd d
    client_loop-answers (req ∷ reqs) [] (suc fuel) s h d l n a = absurd d
    client_loop-answers [] [] (suc fuel) s h d l n a =
        rw (read_message-nil, client_loop)
          (s, refl, ground arith, ground (arith, append-nil s.replies))
    client_loop-answers (req ∷ reqs) (chunks ∷ cuts) (suc fuel) s {s'} {resps} h d l n a =
        elim (Option-cases (handle s.state req)) [
          | inl e ↦ ground (arith, e)
          | inr ((s1, resp), e) ↦ elim (Option-cases (answers handle s1 reqs)) [
            | inl e' ↦ ground (arith, e, e')
            | inr ((s2, rest), e') ↦
                let sent = send-some (record s { state = s1 }) resp (s.sends - 1) (omega arith) in
                let next : Session S = record {
                  state = s1;
                  replies = s.replies ++ resp ∷ [];
                  sends = s.sends - 1;
                } in
                let (t, e1, e2, e3) =
                  client_loop-answers reqs cuts fuel next {s' = s2} {resps = rest} h.1 d.1
                    (omega arith) (omega arith) e' in
                let read = read_message-send_raw req chunks (stream_of cuts) h.0 d.0 in
                rw (read, e, sent, client_loop, read)
                  (
                    t,
                    e1,
                    ground (arith, e, e', e2),
                    ground (arith, e, e', e3, append_assoc s.replies (resp ∷ []) rest),
                  )
          ]
        ]

    greeted :
        (ipc_token : Text) (s : Session S) (stream rest : Stream) {req : Request} {s' : Session S}
        → read_message from_utf8 from_str stream ≡ (message req, rest)
        → presents ipc_token req ≡ true
        → send s accepted ≡ some s'
        → handle_client from_utf8 from_str handle ipc_token s stream
          ≡ client_loop from_utf8 from_str handle (suc (length rest)) s' rest
    unfolding handle_client
    greeted ipc_token s stream rest e e' e'' = rw (e, e', e'', handle_client, e) refl

    -- A client that says `Hello` with the daemon's token and then sends requests gets `Ok` and then
    -- the handler's response to each request, in their order, if every request is answered and every
    -- reply can be sent; the state is the handler's. The socket may cut each line into reads
    -- anywhere, as long as no read holds parts of two lines.
    pub handle_client-answers :
        (ipc_token : Text) (reqs : List Request) (cuts : List (List (List ℕ))) (s : Session S)
        {s' : S} {resps : List Response}
        → All (IsLine from_utf8 from_str to_string) (hello ipc_token ∷ reqs)
        → DeliversAll to_string (hello ipc_token ∷ reqs) cuts
        → length reqs < s.sends
        → answers handle s.state reqs ≡ some (s', resps)
        → (t : Session S) × (handle_client from_utf8 from_str handle ipc_token s (stream_of cuts)
            ≡ some t)
          × (t.state ≡ s')
          × (t.replies ≡ s.replies ++ accepted ∷ resps)
    unfolding handle_client presents
    handle_client-answers ipc_token reqs [] s h d n a = absurd d
    handle_client-answers ipc_token reqs (chunks ∷ cuts) s {s'} {resps} h d n a =
        let next : Session S = record s {
          replies = s.replies ++ accepted ∷ [];
          sends = s.sends - 1;
        } in
        let same = text_eq_lem ipc_token ipc_token ∙ eq_self ipc_token in
        let sent = send-some s accepted (s.sends - 1) (omega arith) in
        let read = read_message-send_raw (hello ipc_token) chunks (stream_of cuts) h.0 d.0 in
        let (t, e1, e2, e3) =
          client_loop-answers reqs cuts (suc (length (stream_of cuts))) next {s' = s'}
            {resps = resps} h.1 d.1 (omega (arith, length-stream_of to_string reqs cuts d.1))
            (omega arith) a in
        (
          t,
          greeted ipc_token s _ (stream_of cuts) read same sent ∙ e1,
          e2,
          e3 ∙ append_assoc s.replies (accepted ∷ []) resps,
        )
