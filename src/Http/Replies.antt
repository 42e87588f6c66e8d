-- ===== src/Http/Replies.antt =====
-- http.rs: the answers of the routes that the server serves itself, as the fields of their JSON.
-- Writing JSON is left out.
use raemote_server.Prelude.{
  ℕ, ◌+◌, ◌*◌, ◌≡◌, refl, sym, ap, ◌∙◌, inl, inr, Bool, List, [], ◌∷◌, ◌++◌, map, arith, Eq, ◌==◌,
  nat_instance, list_instance, option_instance, eq_iff, eq_self, Bool-cases, Option, none, some,
  All, some-injective,
}
use raemote_server.HashSet
use raemote_server.Sort.Laws.{contains-sort_by, sort_by-IsUnique}
use raemote_server.Text.{Text, codes}
use raemote_server.Auth.Invariant
use raemote_server.Auth.State.{NodeIds, DeviceInfo, AuthState, nanos_per_sec}
use raemote_server.Auth.Operations.{is_authorized, device_before, device_infos, display_name}
use raemote_server.Catalog.{CatalogApp, Catalog, source_text}
use raemote_server.Daemon.State.{Poll}
use raemote_server.Daemon.Handle.{wait, max_polls}
use raemote_server.Discovery.Model.{scheme_text}
use raemote_server.Http.Routes.{Route, method_not_allowed, unknown_app, no_such_route}

pub record AppEntry : Type 0 where
  pub name : Text
  pub path : Text
  pub port : ℕ
  pub scheme : Text
  pub source : Text
  pub title : Option Text

unfoldable pub catalog_entry : CatalogApp → AppEntry
catalog_entry app = record {
  name = app.name;
  path = codes "/app/" ++ app.name;
  port = app.origin.port;
  scheme = scheme_text app.origin.scheme;
  source = source_text app.source;
  title = app.title;
}

unfoldable pub catalog_reply : Catalog → List AppEntry
catalog_reply c = map catalog_entry c.apps

abbrev pub discover_wait : ℕ
discover_wait = 3 * nanos_per_sec

-- The wait for the next generation, if a discovery engine is wired, and the catalog behind it.
-- `none` means that the loop goes on after the given number of polls.
unfoldable pub discover_reply :
    Catalog → Option ((before now : ℕ) × (ℕ → Poll)) → Option (List AppEntry)
discover_reply c none = some (catalog_reply c)
discover_reply c (some (before, now, polls)) =
    elim (wait max_polls before (now + discover_wait) polls 0) [
      | none ↦ none
      | some poll ↦ some (catalog_reply poll.engine.catalog)
    ]

pub record DeviceReply : Type 0 where
  pub node_id : Text
  pub name : Text
  pub is_self : Bool

pub record ErrorReply : Type 0 where
  pub status : ℕ
  pub code : Text
  pub error : Text
  pub hint : Option Text

-- the errors of `handle` itself
unfoldable pub route_error : Route → Option ErrorReply
route_error (method_not_allowed message) =
    some (record { status = 405; code = codes "method_not_allowed"; error = message; hint = none })
route_error (unknown_app name) = some (record {
  status = 404;
  code = codes "unknown_app";
  error = codes "unknown app \"" ++ (name ++ codes "\"");
  hint =
      some (
        codes
          "it may have stopped — refresh the app list, or run `raemote discover` on the server");
})
route_error (no_such_route path) = some (record {
  status = 404;
  code = codes "not_found";
  error = codes "no such route: " ++ path;
  hint = none;
})
route_error other = none

module _ {Node : Type 0} ⦃e : Eq Node⦄ (nodes : NodeIds Node) where
  unfoldable pub device_reply : Node → DeviceInfo Node → DeviceReply
  device_reply node d = record {
    node_id = nodes.to_text d.node_id;
    name = d.name;
    is_self = d.node_id == node;
  }

  unfoldable pub devices_reply : AuthState Node → Node → List DeviceReply
  devices_reply s node = map (device_reply node) (device_infos nodes s)

  to_text-injective : (a b : Node) → nodes.to_text a ≡ nodes.to_text b → a ≡ b
  to_text-injective a b h =
      some-injective
        (sym (nodes.from_text-to_text a) ∙ (ap nodes.from_text h ∙ nodes.from_text-to_text b))

  to_text-eq : (a b : Node) → (nodes.to_text a == nodes.to_text b) ≡ (a == b)
  to_text-eq a b = elim (Bool-cases (a == b)) [
    | inl same ↦ ground (arith, eq_iff a b, eq_self (nodes.to_text a))
    | inr other ↦ elim (Bool-cases (nodes.to_text a == nodes.to_text b)) [
      | inr apart ↦ apart ∙ sym other
      | inl joint ↦ cc (
          (eq_iff a b).1
            (to_text-injective a b ((eq_iff (nodes.to_text a) (nodes.to_text b)).0 joint)))
    ]
  ]

  -- the ids of a list of infos, printed and then looked up
  contains-to_text :
      (ids : List Node) (j : Node)
      → HashSet.contains (map nodes.to_text ids) (nodes.to_text j) ≡ HashSet.contains ids j
  unfolding HashSet.contains
  contains-to_text [] j = refl
  contains-to_text (id ∷ ids) j = ground (arith, to_text-eq id j, contains-to_text ids j)

  abbrev printed_id : DeviceInfo Node → Text
  printed_id d = nodes.to_text d.node_id

  reply_ids :
      (node : Node) (infos : List (DeviceInfo Node))
      → map (λ (d : DeviceReply). d.node_id) (map (device_reply node) infos) ≡ map printed_id infos
  unfolding device_reply
  reply_ids node [] = refl
  reply_ids node (d ∷ infos) = ap (◌∷◌ (printed_id d)) (reply_ids node infos)

  abbrev info_of : AuthState Node → Node → DeviceInfo Node
  info_of s id = record { node_id = id; name = display_name nodes s id }

  info_ids :
      (s : AuthState Node) (ids : List Node)
      → map printed_id (map (info_of s) ids) ≡ map nodes.to_text ids
  info_ids s [] = refl
  info_ids s (id ∷ ids) = ap (◌∷◌ (nodes.to_text id)) (info_ids s ids)

  printed-IsUnique :
      (ids : List Node) → HashSet.IsUnique ids → HashSet.IsUnique (map nodes.to_text ids)
  printed-IsUnique [] h = tt
  printed-IsUnique (id ∷ ids) h = (contains-to_text ids id ∙ h.0, printed-IsUnique ids h.1)

  self_flags :
      (node : Node) (infos : List (DeviceInfo Node))
      → All
          (λ (d : DeviceReply). d.is_self ≡ (d.node_id == nodes.to_text node))
          (map (device_reply node) infos)
  unfolding device_reply
  self_flags node [] = tt
  self_flags node (d ∷ infos) = (sym (to_text-eq d.node_id node), self_flags node infos)

  -- Over a well-formed state, the list of devices that a device is answered with names every
  -- authorized device once and no other one, and marks exactly the entry of the device that asks.
  pub devices_reply-lists :
      (s : AuthState Node) (node : Node)
      → Invariant.IsValid s
      → HashSet.IsUnique (map (λ (d : DeviceReply). d.node_id) (devices_reply s node))
        × ((j : Node)
            → HashSet.contains
                (map (λ (d : DeviceReply). d.node_id) (devices_reply s node))
                (nodes.to_text j)
              ≡ is_authorized s j)
        × All
            (λ (d : DeviceReply). d.is_self ≡ (d.node_id == nodes.to_text node))
            (devices_reply s node)
  unfolding devices_reply device_infos is_authorized
  devices_reply-lists s node v =
      let ids = s.inner.authenticated in
      let infos = map (info_of s) ids in
      let listed = reply_ids node (device_infos nodes s) in
      (
        rw listed (
            sort_by-IsUnique (device_before nodes) printed_id infos
              (rw (info_ids s ids) (printed-IsUnique ids v.devices))),
        λ j.
            ap (λ t. HashSet.contains t (nodes.to_text j)) listed
            ∙ (contains-sort_by (device_before nodes) printed_id infos (nodes.to_text j)
                ∙ (ap (λ t. HashSet.contains t (nodes.to_text j)) (info_ids s ids)
                    ∙ contains-to_text ids j)),
        self_flags node (device_infos nodes s),
      )
