-- ===== src/Ipc/Handshake.antt =====
-- ipc/unix.rs: who gets past the first message, and the end of a connection.
use raemote_server.Prelude.{
  ℕ, zero, suc, ◌≤◌, ◌<◌, ◌≡◌, ◌≢◌, refl, sym, ap, ◌∙◌, ◌⊎◌, inl, inr, true, false, List, [], ◌∷◌,
  ◌++◌, arith, ◌==◌, nat_instance, list_instance, eq_iff, Bool-cases, Option-cases, length, Option,
  none, some, is_some,
}
use raemote_server.Text.{Text}
use raemote_server.Auth.Secret.{constant_time_eq-as_bytes}
use raemote_server.Ipc.Protocol.{Request, hello, Response, accepted, denied}
use raemote_server.Ipc.Session.{
  Stream, Received, message, ended, failed, read_line, parse_line, read_message, text_eq, presents,
  Session, send, client_loop, deny, handle_client,
}

pub text_eq_lem : (s t : Text) → text_eq s t ≡ (s == t)
unfolding text_eq
text_eq_lem s t = constant_time_eq-as_bytes s t

read_line_shorter :
    (line : List ℕ) (stream : Stream)
    → (length (read_line line stream).1 ≤ length stream)
      × ((length (read_line line stream).1 < length stream)
          ⊎ ((read_line line stream).0 ≡ some line))
unfolding read_line
read_line_shorter line [] = (omega arith, inr refl)
read_line_shorter line (none ∷ stream) = (omega arith, inl (omega arith))
read_line_shorter line (some chunk ∷ stream) =
    let rest = read_line_shorter (line ++ chunk) stream in ground arith

Received-cases :
    {A : Type 0} (r : Received A) → ((a : A) × (r ≡ message a)) ⊎ ((r ≡ ended) ⊎ (r ≡ failed))
Received-cases (message a) = inl (a, refl)
Received-cases ended = inr (inl refl)
Received-cases failed = inr (inr refl)

parse_line-nil :
    {A : Type 0} (from_utf8 : List ℕ → Option Text) (from_str : Text → Option A)
    → parse_line from_utf8 from_str (some []) ≡ ended
unfolding parse_line
parse_line-nil from_utf8 from_str = refl

-- a message takes at least one read
read_message_shorter :
    {A : Type 0} (from_utf8 : List ℕ → Option Text) (from_str : Text → Option A) (stream : Stream)
    {a : A}
    → (read_message from_utf8 from_str stream).0 ≡ message a
    → length (read_message from_utf8 from_str stream).1 < length stream
unfolding read_message
read_message_shorter from_utf8 from_str stream h = elim ((read_line_shorter [] stream).1) [
  | inl shorter ↦ shorter
  | inr bare ↦ cc (h, ap (parse_line from_utf8 from_str) bare, parse_line-nil from_utf8 from_str)
]

-- only a `Hello` with the token is let in
presents-other : (t : Text) (req : Request) → req ≢ hello t → presents t req ≡ false
unfolding presents
presents-other t (hello token) h = elim (Bool-cases (text_eq token t)) [
  | inl same ↦ absurd (h (ap hello ((eq_iff token t).0 (sym (text_eq_lem token t) ∙ same))))
  | inr other ↦ other
]
presents-other t req h = refl

module _ {S : Type 0} (from_utf8 : List ℕ → Option Text) (from_str : Text → Option Request)
    (handle : S → Request → Option (S × Response)) where
  -- enough fuel for the loop
  client_loop_total :
      ((s : S) (req : Request) → is_some (handle s req) ≡ true)
      → (fuel : ℕ) (s : Session S) (stream : Stream) → length stream < fuel
      → is_some (client_loop from_utf8 from_str handle fuel s stream) ≡ true
  unfolding client_loop
  client_loop_total h zero s stream l = absurd (omega arith)
  client_loop_total h (suc fuel) s stream l =
      elim (Received-cases (read_message from_utf8 from_str stream).0) [
        | inr (inl e) ↦ rw (e, client_loop) refl
        | inr (inr e) ↦ rw (e, client_loop) refl
        | inl (req, e) ↦ elim (Option-cases (handle s.state req)) [
          | inl e' ↦ cc (e', h s.state req)
          | inr (r, e') ↦ elim (Option-cases (send (record s { state = r.0 }) r.1)) [
            | inl e'' ↦ rw (e, e', e'', client_loop) refl
            | inr (s', e'') ↦
                rw (e, e', e'', client_loop)
                  (client_loop_total h fuel s' _
                    (omega (arith, l, read_message_shorter from_utf8 from_str stream e)))
          ]
        ]
      ]

  -- If every request is answered, a connection ends when its stream does, however the client splits,
  -- repeats or garbles its lines: the loop of the connection has fuel enough.
  pub handle_client_total :
      ((s : S) (req : Request) → is_some (handle s req) ≡ true)
      → (ipc_token : Text) (s : Session S) (stream : Stream)
      → is_some (handle_client from_utf8 from_str handle ipc_token s stream) ≡ true
  unfolding handle_client
  handle_client_total h ipc_token s stream =
      let (received, rest) = read_message from_utf8 from_str stream in
      elim (Received-cases (read_message from_utf8 from_str stream).0) [
        | inr (inl e) ↦ rw (e, handle_client) refl
        | inr (inr e) ↦ rw (e, handle_client) refl
        | inl (req, e) ↦ elim (Option-cases (send s accepted)) [
          | inl e' ↦ ground (arith, e, e')
          | inr (s', e') ↦
              ground (arith, e, e', client_loop_total h (suc (length rest)) s' rest (omega arith))
        ]
      ]

  -- a connection that the handler never saw, with at most one reply, `Denied`
  abbrev pub IsRefused : Session S → Session S → Type 0
  IsRefused s s' =
      (s'.state ≡ s.state) × ((s'.replies ≡ s.replies) ⊎ (s'.replies ≡ s.replies ++ denied ∷ []))

  deny-IsRefused : (s : Session S) → IsRefused s (deny s)
  unfolding send
  deny-IsRefused s = go s.sends refl
    where
      go : (n : ℕ) → s.sends ≡ n → IsRefused s (deny s)
      go zero h = rw (h, send) (refl, inl refl)
      go (suc n) h = rw (h, send) (refl, inr refl)

  -- Unless the first message is a `Hello` with the daemon's token, the handler is never called: its
  -- state stays as it is, and the only reply, if there is one, is `Denied`.
  pub handle_client-denied :
      (ipc_token : Text) (s : Session S) (stream : Stream)
      → (read_message from_utf8 from_str stream).0 ≢ message (hello ipc_token)
      → (s' : Session S) × (handle_client from_utf8 from_str handle ipc_token s stream ≡ some s')
        × IsRefused s s'
  unfolding handle_client
  handle_client-denied ipc_token s stream h =
      elim (Received-cases (read_message from_utf8 from_str stream).0) [
        | inr (inl e) ↦ rw (e, handle_client) (deny s, refl, deny-IsRefused s)
        | inr (inr e) ↦ rw (e, handle_client) (s, refl, (refl, inl refl))
        | inl (req, e) ↦
            let other : presents ipc_token req ≡ false =
              presents-other ipc_token req (λ e'. h (cc (e, e'))) in
            rw (e, other, handle_client) (deny s, refl, deny-IsRefused s)
      ]
