-- ===== src/Tests/Policy.antt =====
-- The authorization state against its policy at a concrete sequence of calls.
use raemote_server.Prelude.{
  ◌≡◌, refl, List, [], ◌∷◌, map, ◌==◌, nat_instance, list_instance, option_instance, some, All,
}
use raemote_server.HashMap
use raemote_server.HashSet
use raemote_server.Text.{codes}
use raemote_server.Auth.Operations.{is_authorized}
use raemote_server.Auth.State.{AuthState}
use raemote_server.Auth.Trace.{Call, bind, invite, revocation, run}
use raemote_server.Http.Replies
use raemote_server.Http.Replies.{DeviceReply, devices_reply}
use raemote_server.Auth.Policy.{Policy, Run}
use raemote_server.Auth.Refinement.{Implements, expiry_of, token_of}
use raemote_server.Auth.Simulation
use raemote_server.Auth.Simulation.{bind_replies}
use raemote_server.Tests.Fixtures.{
  Node, node_instance, phone, tablet, nodes, toml, healthy, secret, gift, pairing, pairing-IsValid,
}

abbrev paired : AuthState Node
paired = pairing (tablet ∷ []) (gift ∷ [])

abbrev policy : Policy Node
policy = record {
  allows = λ node. HashSet.contains (tablet ∷ []) node;
  token = token_of (some secret);
  invites = λ text. expiry_of (HashMap.get (gift ∷ []) text);
  failures = 0;
  bound_on_failures = 3;
}

paired-Implements : Implements paired policy
unfolding is_authorized
paired-Implements = record {
  allows = λ node. refl;
  token = refl;
  invites = λ text. refl;
  failures = refl;
  limit = refl;
}

abbrev calls : List (Call Node)
calls =
    bind 7 healthy phone (codes "wrong")
    ∷ invite 8 0 (1 ∷ []) 20 tablet 5
    ∷ bind 9 healthy phone (codes "gift")
    ∷ revocation healthy healthy tablet
    ∷ []

run-refines_example :
    (q : Policy Node) × Run policy calls (bind_replies nodes toml paired calls) q
    × Implements (run nodes toml paired calls) q
run-refines_example =
    Simulation.run-refines nodes toml paired policy calls (tt, (tt, (tt, (tt, tt)))) pairing-IsValid
      paired-Implements

devices_reply-lists_example :
    HashSet.IsUnique (map (λ (d : DeviceReply). d.node_id) (devices_reply nodes paired tablet))
    × ((j : Node)
        → HashSet.contains
            (map (λ (d : DeviceReply). d.node_id) (devices_reply nodes paired tablet))
            (nodes.to_text j)
          ≡ is_authorized paired j)
    × All
        (λ (d : DeviceReply). d.is_self ≡ (d.node_id == nodes.to_text tablet))
        (devices_reply nodes paired tablet)
devices_reply-lists_example = Replies.devices_reply-lists nodes paired tablet pairing-IsValid
