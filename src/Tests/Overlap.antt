-- ===== src/Tests/Overlap.antt =====
-- Calls of the authorization state that overlap, at concrete inputs.
use raemote_server.Prelude.{
  ◌<◌, ◌≡◌, refl, true, false, [], ◌∷◌, arith, nat_instance, list_instance, some, length,
}
use raemote_server.HashMap
use raemote_server.HashSet
use raemote_server.Text.{codes, lines, trim, join}
use raemote_server.Text.Utf8.{as_bytes, encode_char}
use raemote_server.Auth.Secret.{constant_time_eq}
use raemote_server.Auth.Store.{load_at, load_authorized, load_lines, save_authorized, replace_file}
use raemote_server.Auth.Operations.{
  is_authorized, authenticate_locked, revoke_locked, live_invitations, authorize, matches,
  active_token, scan_invitations, no_match,
}
use raemote_server.Auth.Persistence.{Synced, healthy}
use raemote_server.Auth.Saving.{Shared, attempt, removal, write, act, interleave, take_out}
use raemote_server.Auth.Overlap
use raemote_server.Auth.Expulsion
use raemote_server.Tests.Fixtures.{Node, node_instance, phone, tablet, nodes, toml, gift, pairing}

abbrev start : Shared Node
start = record {
  auth = record (pairing (tablet ∷ []) (gift ∷ [])) { store = some (codes "bbbb\n") };
  waiting = [];
}

synced : Synced nodes start.auth
unfolding HashSet.contains HashSet.insert load_authorized load_lines lines trim
synced j = refl

done :
    (interleave nodes start (
      attempt 7 phone (codes "secret")
      ∷ removal tablet
      ∷ write 0 healthy
      ∷ write 0 healthy
      ∷ [])).waiting
    ≡ []
unfolding interleave act take_out authenticate_locked revoke_locked authorize live_invitations
    HashMap.retain HashMap.remove HashSet.contains HashSet.insert HashSet.remove matches
    active_token constant_time_eq scan_invitations no_match as_bytes encode_char
done = refl

restart-interleave_example :
    let after =
      (interleave nodes start (
        attempt 7 phone (codes "secret")
        ∷ removal tablet
        ∷ write 0 healthy
        ∷ write 0 healthy
        ∷ [])).auth in
    is_authorized (load_at nodes toml after.store after.names_file 10) phone
    ≡ is_authorized after phone
restart-interleave_example =
    Overlap.restart-interleave nodes toml start
      (attempt 7 phone (codes "secret") ∷ removal tablet ∷ write 0 healthy ∷ write 0 healthy ∷ [])
      phone 10 refl synced (tt, (tt, ((refl, refl), ((refl, refl), tt)))) done

waits :
    1
    < length
        (interleave nodes
          (act nodes start (removal tablet))
          (attempt 7 phone (codes "secret") ∷ [])).waiting
unfolding interleave act take_out authenticate_locked revoke_locked authorize live_invitations
    HashMap.retain HashMap.remove HashSet.contains HashSet.insert HashSet.remove matches
    active_token constant_time_eq scan_invitations no_match as_bytes encode_char
waits = omega arith

restart-removal_example :
    let saved =
      act nodes
        (interleave nodes
          (act nodes start (removal tablet))
          (attempt 7 phone (codes "secret") ∷ []))
        (write 1 healthy) in
    let end = (interleave nodes saved (write 0 healthy ∷ [])).auth in
    is_authorized (load_at nodes toml end.store end.names_file 10) tablet ≡ false
restart-removal_example =
    Expulsion.restart-removal nodes tablet toml start (attempt 7 phone (codes "secret") ∷ [])
      (write 0 healthy ∷ []) 1 10 refl (refl, tt) (tt, tt) waits

-- The save of the attempt comes after that of the revocation: the device is back after a restart.
revived :
    let end =
      (interleave nodes start (
        attempt 7 phone (codes "secret")
        ∷ removal phone
        ∷ write 1 healthy
        ∷ write 0 healthy
        ∷ [])).auth in
    HashSet.contains (load_authorized nodes end.store) phone ≡ true
unfolding interleave act take_out authenticate_locked revoke_locked authorize live_invitations
    HashMap.retain HashMap.remove HashSet.contains HashSet.insert HashSet.remove matches
    active_token constant_time_eq scan_invitations no_match as_bytes encode_char save_authorized
    replace_file load_authorized load_lines lines join trim
revived = refl
