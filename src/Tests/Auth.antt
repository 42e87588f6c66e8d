-- ===== src/Tests/Auth.antt =====
-- Pairing, lockout, invitations and restarts at concrete inputs.
use raemote_server.Prelude.{
  ℕ, ◌≤◌, ◌<◌, ◌≡◌, ◌≢◌, refl, ◌↔◌, ◌⊎◌, true, [], ◌∷◌, arith, nat_instance, list_instance, length,
  none, some, is_some,
}
use raemote_server.HashMap
use raemote_server.HashSet
use raemote_server.Text.{codes, is_control, trim}
use raemote_server.Auth.Access
use raemote_server.Auth.Attempt.{HoldsToken, Redeemable}
use raemote_server.Auth.Invariant
use raemote_server.Auth.Lockout
use raemote_server.Auth.NameLaws
use raemote_server.Auth.NameLaws.{IsClean}
use raemote_server.Auth.Names.{sanitize_device_name, max_device_name}
use raemote_server.Auth.OneTime
use raemote_server.Auth.Redeem
use raemote_server.Auth.Secret.{constant_time_eq, to_hex}
use raemote_server.Auth.State.{is_allowed, bound_via_invitation, token_mismatch, revoked, AuthState}
use raemote_server.Auth.Store.{save_authorized, replace_file}
use raemote_server.Auth.Operations.{
  authenticate_locked, is_authorized, authenticate, mint_invitation, live_invitations, grant,
  authorize, matches, active_token, scan_invitations, no_match,
}
use raemote_server.Auth.Trace
use raemote_server.Auth.Trace.{run, bind, mint, limit, revocation}
use raemote_server.Text.Trim.{EndsDark}
use raemote_server.Text.Utf8.{as_bytes, encode_char}
use raemote_server.Tests.Fixtures.{
  Node, node_instance, phone, tablet, nodes, toml, healthy, secret, gift, pairing, pairing-IsValid,
}

abbrev start : AuthState Node
start = pairing (tablet ∷ []) (gift ∷ [])

is_allowed-authenticate_iff_example :
    (is_allowed (authenticate nodes start 7 healthy phone (codes "secret")).1 ≡ true) ↔ (
      (is_authorized start phone ≡ true)
      ⊎ (HoldsToken (some secret) 7 (codes "secret") ⊎ Redeemable (gift ∷ []) 7 (codes "secret")))
is_allowed-authenticate_iff_example =
    Access.is_allowed-authenticate_iff nodes start 7 healthy phone (codes "secret")
      (pairing-IsValid.invites)

wrong : ℕ → Lockout.Bind Node
wrong now = record { now = now; disk = healthy; node = phone; presented = codes "guess" }

wrong-IsWrong : (now : ℕ) → now < 100 → Lockout.IsWrong nodes start secret (wrong now)
unfolding HashSet.contains HashMap.get wrong
wrong-IsWrong now h = record { stranger = refl; alive = h; mistaken = λ k. cc; uninvited = refl }

lockout_example :
    ((Lockout.binds nodes start (wrong 1 ∷ wrong 2 ∷ wrong 3 ∷ [])).1
      ≡ token_mismatch ∷ token_mismatch ∷ revoked ∷ [])
    × ((Lockout.binds nodes start (wrong 1 ∷ wrong 2 ∷ wrong 3 ∷ [])).0.inner.pending ≡ none)
    × ((Lockout.binds nodes start (wrong 1 ∷ wrong 2 ∷ wrong 3 ∷ [])).0.inner.authenticated
        ≡ tablet ∷ [])
lockout_example =
    Lockout.lockout nodes start secret (wrong 1) (wrong 2 ∷ wrong 3 ∷ []) (pairing-IsValid.invites)
      refl (omega arith) refl
      (
        wrong-IsWrong 1 (omega arith),
        (wrong-IsWrong 2 (omega arith), (wrong-IsWrong 3 (omega arith), tt)),
      )

-- the invitation is redeemed
accepted : (authenticate nodes start 7 healthy phone (codes "gift")).1 ≡ bound_via_invitation
unfolding authenticate authorize live_invitations HashMap.retain HashMap.remove authenticate_locked
    grant HashSet.contains HashSet.insert matches active_token constant_time_eq scan_invitations
    no_match save_authorized replace_file as_bytes encode_char
accepted = refl

redeemed_once_example :
    (authenticate nodes
      (run nodes toml
        (authenticate nodes start 7 healthy phone (codes "gift")).0
        (mint 8 0 (1 ∷ []) 50 none ∷ limit 5 ∷ revocation healthy healthy phone ∷ []))
      9
      healthy
      phone
      (codes "gift")).1
    ≢ bound_via_invitation
redeemed_once_example =
    OneTime.redeemed_once nodes toml start 7 9 healthy healthy phone phone (codes "gift")
      (mint 8 0 (1 ∷ []) 50 none ∷ limit 5 ∷ revocation healthy healthy phone ∷ []) pairing-IsValid
      accepted (tt, (omega arith, (tt, tt))) (tt, (tt, (tt, tt)))

run-IsValid_example :
    Invariant.IsValid (run nodes toml start (bind 7 healthy phone (codes "secret") ∷ limit 5 ∷ []))
run-IsValid_example =
    Trace.run-IsValid nodes toml start (bind 7 healthy phone (codes "secret") ∷ limit 5 ∷ [])
      (tt, (omega arith, tt)) pairing-IsValid

minted :
    (mint_invitation start 7 0 (1 ∷ 2 ∷ []) 50 tablet 3).1
    ≡ some (record { token_hex = codes "0102"; expires_at_unix = 0; ttl = 50 })
unfolding mint_invitation live_invitations HashMap.retain to_hex
minted = refl

mint_invitation-authenticate_example :
    is_allowed
      (authenticate nodes
        (mint_invitation start 7 0 (1 ∷ 2 ∷ []) 50 tablet 3).0
        56
        healthy
        phone
        (codes "0102")).1
    ≡ true
mint_invitation-authenticate_example =
    Redeem.mint_invitation-authenticate nodes start 7 0 (1 ∷ 2 ∷ []) 50 tablet 3
      {info = record { token_hex = codes "0102"; expires_at_unix = 0; ttl = 50 }} 56 healthy phone
      pairing-IsValid minted (omega arith)

mint_invitation-bounded_example :
    ((mint_invitation start 7 0 (1 ∷ []) 50 tablet 3).1 ≡ none
      → 3 ≤ length (live_invitations 7 (gift ∷ [])))
    × (is_some (mint_invitation start 7 0 (1 ∷ []) 50 tablet 3).1 ≡ true
        → length (mint_invitation start 7 0 (1 ∷ []) 50 tablet 3).0.inner.invitations ≤ 3)
mint_invitation-bounded_example =
    Redeem.mint_invitation-bounded nodes start 7 0 (1 ∷ []) 50 tablet 3

sanitized : sanitize_device_name (codes "  Leo's\t\tiPhone ") ≡ some (codes "Leo's iPhone")
unfolding sanitize_device_name trim is_control
sanitized = refl

sanitize_device_name-IsClean_example :
    (codes "Leo's iPhone" ≢ [])
    × IsClean true (codes "Leo's iPhone")
    × (length (codes "Leo's iPhone") ≤ max_device_name)
    × EndsDark (codes "Leo's iPhone")
sanitize_device_name-IsClean_example =
    NameLaws.sanitize_device_name-IsClean (codes "  Leo's\t\tiPhone ") (codes "Leo's iPhone")
      sanitized
