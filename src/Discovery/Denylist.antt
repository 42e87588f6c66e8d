-- ===== src/Discovery/Denylist.antt =====
-- discovery/listener.rs: the built-in ports are never exposed.
use raemote_server.HashSet
use raemote_server.Prelude.{
  ℕ, ◌≡◌, sym, ◌∙◌, subst, inl, inr, Bool, true, false, List, [], ◌∷◌, ◌++◌, nat_instance,
  list_instance, Bool-cases, All,
}
use raemote_server.Discovery.Model.{origin_instance}
use raemote_server.Text.{Text}
use raemote_server.Discovery.Listener.{
  Listener, Candidate, ListenerFilter, builtin_exclude_ports, new_filter, filter_listeners_detailed,
}
use raemote_server.Discovery.Model.{Origin}
use raemote_server.Discovery.Filtering.{IsExposed, filter_listeners_detailed-IsExposed}

contains-builtin :
    (ports : List ℕ) (p : ℕ)
    → HashSet.contains builtin_exclude_ports p ≡ true
    → HashSet.contains (HashSet.from_list (builtin_exclude_ports ++ ports)) p ≡ true
contains-builtin ports p h =
    HashSet.contains-from_list (builtin_exclude_ports ++ ports) p
    ∙ HashSet.contains-append builtin_exclude_ports ports p
    ∙ rw h

-- a candidate's port is not excluded
IsExposed-port :
    (f : ListenerFilter) (ls : List Listener) (cs : List Candidate)
    → All (IsExposed f ls) cs
    → All (λ c. HashSet.contains f.exclude_ports c.origin.port ≡ false) cs
IsExposed-port f ls [] h = tt
IsExposed-port f ls (c ∷ cs) h = (
  subst (λ (x : Origin). HashSet.contains f.exclude_ports x.port ≡ false) (sym (h.0.same))
      (h.0.open_port),
  IsExposed-port f ls cs h.1,
)

closed :
    (ports : List ℕ) (cs : List Candidate)
    → All
        (λ c.
          HashSet.contains (HashSet.from_list (builtin_exclude_ports ++ ports)) c.origin.port
          ≡ false)
        cs
    → All (λ c. HashSet.contains builtin_exclude_ports c.origin.port ≡ false) cs
closed ports [] h = tt
closed ports (c ∷ cs) h = (
  elim (Bool-cases (HashSet.contains builtin_exclude_ports c.origin.port)) [
    | inl hit ↦ cc (h.0, contains-builtin ports c.origin.port hit)
    | inr miss ↦ miss
  ],
  closed ports cs h.1,
)

-- Whatever a configuration says, no candidate has a port of the built-in list, which holds those of
-- remote access, mail, databases and the like.
pub builtin_never_exposed :
    (min_port : ℕ) (loopback_only : Bool) (ports : List ℕ) (processes origin_texts : List Text)
    (ls : List Listener)
    → let f = new_filter min_port loopback_only ports processes origin_texts in
      All
        (λ c. HashSet.contains builtin_exclude_ports c.origin.port ≡ false)
        (filter_listeners_detailed ls f).candidates
unfolding new_filter
builtin_never_exposed min_port loopback_only ports processes origin_texts ls =
    let f = new_filter min_port loopback_only ports processes origin_texts in
    closed ports (filter_listeners_detailed ls f).candidates (
      IsExposed-port f ls (filter_listeners_detailed ls f).candidates
        (filter_listeners_detailed-IsExposed ls f))
