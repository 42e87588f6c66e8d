-- ===== src/Discovery/Filtering.antt =====
-- discovery/listener.rs: what the filter guarantees of its candidates, and that it accounts for every
-- listening socket.
use raemote_server.HashSet
use raemote_server.Sort
use raemote_server.Sort.Laws
use raemote_server.Prelude.{
  ◌+◌, ◌≤◌, ◌<◌, ◌&&◌, not, is_empty, ◌⊎◌, ◌≡◌, refl, subst, inl, inr, Bool, true, false, ◌||◌,
  List, [], ◌∷◌, map, arith, ◌==◌, nat_instance, list_instance, eq_iff, eq_self, Bool-cases,
  Option-cases, length, filter, none, some, if◌then◌else◌, ltb, All,
}
use mathlib.Core.List.{Memᴰ}
use raemote_server.Text.{trim, lowercase}
use raemote_server.Discovery.Ip.{is_loopback, is_unspecified}
use raemote_server.Discovery.Model.{Origin, origin_instance, http_origin, local_host}
use raemote_server.Discovery.Listener.{
  Listener, Candidate, ListenerFilter, Skipped, is_local_bind, excludes_process, process_of,
  origin_of, is_considered, skip_reason, candidate_of, filter_from, filter_listeners_detailed,
}

-- The candidate stands for a socket of the list that listens on TCP at a port, and no rule drops it: the
-- port is high enough and not excluded, the trimmed name of the process, if it has one, is not excluded in any
-- case, the socket is bound to a loopback or an unspecified address if only these are allowed, and
-- the origin is not excluded.
pub record IsExposed (f : ListenerFilter) (ls : List Listener) (c : Candidate) : Type 0 where
  pub listener : Listener
  pub listed : Memᴰ listener ls
  pub same : c.origin ≡ http_origin (local_host listener.socket) listener.socket.port
  pub process :
      c.process
      ≡ (if is_empty (trim listener.process_name) then none else some (trim listener.process_name))
  pub tcp : listener.is_tcp ≡ true
  pub listening : listener.is_listen ≡ true
  pub port_positive : 0 < listener.socket.port
  pub high : f.min_port ≤ listener.socket.port
  pub open_port : HashSet.contains f.exclude_ports listener.socket.port ≡ false
  pub open_process :
      is_empty (trim listener.process_name) ≡ false
      → HashSet.contains f.exclude_processes (lowercase (trim listener.process_name)) ≡ false
  pub local_bind :
      f.loopback_only ≡ true
      → (is_loopback listener.socket.ip ≡ true) ⊎ (is_unspecified listener.socket.ip ≡ true)
  pub open_origin : HashSet.contains f.exclude_origins c.origin ≡ false

open_name :
    (f : ListenerFilter) (l : Listener)
    → excludes_process f (process_of l) ≡ false
    → is_empty (trim l.process_name) ≡ false
    → HashSet.contains f.exclude_processes (lowercase (trim l.process_name)) ≡ false
unfolding excludes_process process_of
open_name f l h named = rw (named, excludes_process) at h

either_local :
    (f : ListenerFilter) (l : Listener)
    → (f.loopback_only && not (is_local_bind l.socket)) ≡ false
    → f.loopback_only ≡ true
    → (is_loopback l.socket.ip ≡ true) ⊎ (is_unspecified l.socket.ip ≡ true)
either_local f l h only = elim (Bool-cases (is_loopback l.socket.ip)) [
  | inl loopback ↦ inl loopback
  | inr other ↦ inr (ground (arith, other))
]

passed :
    (f : ListenerFilter) (seen : List Origin) (l : Listener) (ls : List Listener)
    → Memᴰ l ls
    → is_considered l ≡ true
    → skip_reason f seen l ≡ none
    → IsExposed f ls (candidate_of l)
unfolding skip_reason is_considered process_of
passed f seen l ls m c h = record {
  listener = l;
  listed = m;
  same = refl;
  process = refl;
  tcp = ground arith;
  listening = ground arith;
  port_positive = ground arith;
  high = ground arith;
  open_port = ground arith;
  open_process = open_name f l (ground arith);
  local_bind = either_local f l (ground arith);
  open_origin = ground arith;
}

filter_from-IsExposed :
    (f : ListenerFilter) (seen : List Origin) (ls whole : List Listener)
    → ((l : Listener) → Memᴰ l ls → Memᴰ l whole)
    → All (IsExposed f whole) (filter_from f seen ls).0
unfolding filter_from
filter_from-IsExposed f seen [] whole sub = tt
filter_from-IsExposed f seen (l ∷ ls) whole sub =
    let rest = λ (x : Listener) (m : Memᴰ x ls). sub x (Memᴰ.tail m) in
    elim (Bool-cases (is_considered l)) [
      | inr other ↦ rw (other, filter_from) (filter_from-IsExposed f seen ls whole rest)
      | inl candidate ↦ elim (Option-cases (skip_reason f seen l)) [
        | inr (reason, dropped) ↦
            rw (candidate, dropped, filter_from) (filter_from-IsExposed f seen ls whole rest)
        | inl kept ↦
            rw (candidate, kept, filter_from)
              (
                passed f seen l whole (sub l (Memᴰ.head refl)) candidate kept,
                filter_from-IsExposed f (HashSet.insert seen (origin_of l)) ls whole rest,
              )
      ]
    ]

-- Every candidate stands for a socket of the list, at the origin of its local host and its port: one that listens on
-- TCP, on a positive port of at least the configured minimum that is not excluded, with no excluded origin,
-- whose process has no excluded name in any case, and which is bound to a loopback or an
-- unspecified address if the configuration asks for that.
pub filter_listeners_detailed-IsExposed :
    (ls : List Listener) (f : ListenerFilter)
    → All (IsExposed f ls) (filter_listeners_detailed ls f).candidates
unfolding filter_listeners_detailed
filter_listeners_detailed-IsExposed ls f =
    Laws.All-sort_by _ (IsExposed f ls) (filter_from f [] ls).0
      (filter_from-IsExposed f [] ls ls (λ l m. m))

filter_from-length :
    (f : ListenerFilter) (seen : List Origin) (ls : List Listener)
    → length (filter_from f seen ls).0 + length (filter_from f seen ls).1
      ≡ length (filter is_considered ls)
unfolding filter_from
filter_from-length f seen [] = refl
filter_from-length f seen (l ∷ ls) = ground (
  arith,
  filter_from-length f seen ls,
  filter_from-length f (HashSet.insert seen (origin_of l)) ls,
)

-- Every listening TCP socket with a port becomes one candidate or one entry of the report.
pub filter_listeners_detailed-length :
    (ls : List Listener) (f : ListenerFilter)
    → length (filter_listeners_detailed ls f).candidates
        + length (filter_listeners_detailed ls f).skipped
      ≡ length (filter is_considered ls)
unfolding filter_listeners_detailed
filter_listeners_detailed-length ls f = omega (
  arith,
  filter_from-length f [] ls,
  Laws.length-sort_by (λ (a b : Candidate). ltb a.origin.port b.origin.port)
      (filter_from f [] ls).0,
  Laws.length-sort_by (λ (a b : Skipped). Sort.text_lt a.origin b.origin) (filter_from f [] ls).1,
)

abbrev pub origins : List Candidate → List Origin
origins = map (λ c. c.origin)

or_true : (b : Bool) → (b || true) ≡ true
or_true true = refl
or_true false = refl

new_origin :
    (f : ListenerFilter) (seen : List Origin) (l : Listener)
    → skip_reason f seen l ≡ none
    → HashSet.contains seen (origin_of l) ≡ false
unfolding skip_reason
new_origin f seen l h = ground arith

absent_cons :
    (f : ListenerFilter) (seen : List Origin) (l : Listener) (o : Origin) (cs : List Candidate)
    → HashSet.contains seen o ≡ true
    → skip_reason f seen l ≡ none
    → HashSet.contains (origins cs) o ≡ false
    → HashSet.contains (origins (candidate_of l ∷ cs)) o ≡ false
unfolding HashSet.contains
absent_cons f seen l o cs h kept later = elim (Bool-cases (origin_of l == o)) [
  | inl same ↦
      let e : origin_of l ≡ o = (eq_iff (origin_of l) o).0 same in
      let new : HashSet.contains seen o ≡ false =
        subst (λ x. HashSet.contains seen x ≡ false) e (new_origin f seen l kept) in
      cc (h, new)
  | inr other ↦ rw (other, later)
]

-- an origin that was seen is not kept again
filter_from-fresh :
    (f : ListenerFilter) (seen : List Origin) (ls : List Listener) (o : Origin)
    → HashSet.contains seen o ≡ true
    → HashSet.contains (origins (filter_from f seen ls).0) o ≡ false
unfolding filter_from
filter_from-fresh f seen [] o h = unfold HashSet.contains in refl
filter_from-fresh f seen (l ∷ ls) o h = elim (Bool-cases (is_considered l)) [
  | inr other ↦ rw (other, filter_from) (filter_from-fresh f seen ls o h)
  | inl candidate ↦ elim (Option-cases (skip_reason f seen l)) [
    | inr (reason, dropped) ↦ rw (candidate, dropped, filter_from) (filter_from-fresh f seen ls o h)
    | inl kept ↦
        let seen' = HashSet.insert seen (origin_of l) in
        let later =
          filter_from-fresh f seen' ls o
            (rw (HashSet.contains-insert seen (origin_of l) o, h) (or_true _)) in
        rw (candidate, kept, filter_from) (absent_cons f seen l o _ h kept later)
  ]
]

filter_from-IsUnique :
    (f : ListenerFilter) (seen : List Origin) (ls : List Listener)
    → HashSet.IsUnique (origins (filter_from f seen ls).0)
unfolding filter_from
filter_from-IsUnique f seen [] = tt
filter_from-IsUnique f seen (l ∷ ls) = elim (Bool-cases (is_considered l)) [
  | inr other ↦ rw (other, filter_from) (filter_from-IsUnique f seen ls)
  | inl candidate ↦ elim (Option-cases (skip_reason f seen l)) [
    | inr (reason, dropped) ↦ rw (candidate, dropped, filter_from) (filter_from-IsUnique f seen ls)
    | inl kept ↦
        let seen' = HashSet.insert seen (origin_of l) in
        rw (candidate, kept, filter_from)
          (
            filter_from-fresh f seen' ls (origin_of l) (
                rw (
                  HashSet.contains-insert seen (origin_of l) (origin_of l),
                  eq_self (origin_of l),
                )),
            filter_from-IsUnique f seen' ls,
          )
  ]
]

-- No two candidates have one origin.
pub filter_listeners_detailed-IsUnique :
    (ls : List Listener) (f : ListenerFilter)
    → HashSet.IsUnique (origins (filter_listeners_detailed ls f).candidates)
unfolding filter_listeners_detailed
filter_listeners_detailed-IsUnique ls f =
    Laws.sort_by-IsUnique _ (λ (c : Candidate). c.origin) (filter_from f [] ls).0
      (filter_from-IsUnique f [] ls)
