-- ===== src/Cli/Hiding.antt =====
-- bin/raemote.rs: what hiding an app does to the scans, and how commands undo one another.
use raemote_server.Prelude.{
  ℕ, ◌≡◌, ◌≢◌, refl, ap, ◌∙◌, subst, inl, inr, Bool, true, false, not, List, [], ◌∷◌, ◌++◌, arith,
  ◌==◌, nat_instance, list_instance, option_instance, eq_self, Bool-cases, Option-cases, length,
  filter, any, Option, some, nat_eq, All, length-append, some-injective,
}
use raemote_server.HashSet
use raemote_server.Text.{Text}
use raemote_server.Config.Schema.{Config, AppConfig}
use raemote_server.Config.Validate.{validate}
use raemote_server.Discovery.Authority.{IsPlain, parse_authority-authority}
use raemote_server.Discovery.Engine.{outcome}
use raemote_server.Discovery.Filtering.{IsExposed, filter_listeners_detailed-IsExposed}
use raemote_server.Discovery.Ip.{SocketAddr}
use raemote_server.Discovery.Listener.{
  Listener, Candidate, ListenerFilter, filter_map, new_filter, enumerate,
}
use raemote_server.Discovery.Model.{Origin, origin_instance, authority, parse_authority}
use raemote_server.Cli.Apps.{
  added, apps_add, apps_remove, is_entry, with_excluded, apps_hide, apps_unhide,
}

filter_map-append :
    {A B : Type 0} (f : A → Option B) (xs : List A) (a : A) {b : B}
    → f a ≡ some b
    → filter_map f (xs ++ a ∷ []) ≡ filter_map f xs ++ b ∷ []
filter_map-append f [] a h = rw h refl
filter_map-append f (x ∷ xs) a h = ground (arith, filter_map-append f xs a h)

-- what hiding an origin makes of the configuration
hidden :
    (cfg : Config) (o : Origin) {cfg' : Config}
    → apps_hide cfg o ≡ some cfg'
    → (any (is_entry (authority o)) cfg.discovery.exclude_origins ≡ false)
      × (with_excluded cfg (cfg.discovery.exclude_origins ++ authority o ∷ []) ≡ cfg')
unfolding apps_hide
hidden cfg o h = elim (Bool-cases (any (is_entry (authority o)) cfg.discovery.exclude_origins)) [
  | inl already ↦ ground (arith, already)
  | inr fresh ↦ (fresh, some-injective (ground (arith, fresh)))
]

-- the origin is among those that the configuration excludes
excluded :
    (cfg : Config) (o : Origin) {cfg' : Config}
    → IsPlain o
    → apps_hide cfg o ≡ some cfg'
    → HashSet.contains
        (HashSet.from_list (filter_map parse_authority cfg'.discovery.exclude_origins))
        o
      ≡ true
unfolding HashSet.contains
excluded cfg o {cfg'} p h =
    let old = cfg.discovery.exclude_origins in
    subst
      (λ (x : Config).
        HashSet.contains
          (HashSet.from_list (filter_map parse_authority x.discovery.exclude_origins)) o
        ≡ true)
      (hidden cfg o h).1
      (HashSet.contains-from_list (filter_map parse_authority (old ++ authority o ∷ [])) o
        ∙ (ap (λ (os : List Origin). HashSet.contains os o)
              (filter_map-append parse_authority old (authority o) (parse_authority-authority o p))
            ∙ (HashSet.contains-append (filter_map parse_authority old) (o ∷ []) o
                ∙ ground (arith, eq_self o))))

-- no candidate has the origin
open_only :
    (f : ListenerFilter) (ls : List Listener) (o : Origin) (cs : List Candidate)
    → HashSet.contains f.exclude_origins o ≡ true
    → All (IsExposed f ls) cs
    → All (λ c. c.origin ≢ o) cs
open_only f ls o [] h e = tt
open_only f ls o (c ∷ cs) h e = (
  λ same. cc (h, subst (λ x. HashSet.contains f.exclude_origins x ≡ false) same (e.0.open_origin)),
  open_only f ls o cs h e.1,
)

-- Once an origin that was not hidden before is hidden, no scan under the new configuration has a
-- candidate with that origin, whatever listens; the port of the origin is from 1 to 65535, and its host
-- is not empty, has no closing bracket, does not begin with an opening one or with whitespace, and is no
-- alias of the loopback address.
pub apps_hide-outcome :
    (cfg : Config) (o : Origin) {cfg' : Config} (ls : List Listener) (extra : List SocketAddr)
    → IsPlain o
    → apps_hide cfg o ≡ some cfg'
    → All (λ c. c.origin ≢ o) (outcome cfg'.discovery ls extra).candidates
unfolding enumerate new_filter
apps_hide-outcome cfg o {cfg'} ls extra p h =
    let d = cfg'.discovery in
    let f =
      new_filter d.min_port d.loopback_only d.exclude_ports d.exclude_processes d.exclude_origins in
    open_only f _ o _ (excluded cfg o p h) (filter_listeners_detailed-IsExposed _ f)

filter-append :
    {A : Type 0} (keep : A → Bool) (xs : List A) (a : A)
    → keep a ≡ false
    → filter keep (xs ++ a ∷ []) ≡ filter keep xs
filter-append keep [] a h = rw h refl
filter-append keep (x ∷ xs) a h = rw (filter-append keep xs a h) refl

filter_all :
    {A : Type 0} (test : A → Bool) (xs : List A)
    → any test xs ≡ false
    → filter (λ x. not (test x)) xs ≡ xs
filter_all test [] h = refl
filter_all test (x ∷ xs) h = ground (arith, filter_all test xs)

length-push :
    {A : Type 0} (xs : List A) (a : A) → nat_eq (length xs) (length (xs ++ a ∷ [])) ≡ false
length-push xs a = ground (arith, length-append {0} xs (a ∷ []))

unhidden :
    (cfg : Config) (o : Origin)
    → IsPlain o
    → any (is_entry (authority o)) cfg.discovery.exclude_origins ≡ false
    → apps_unhide (with_excluded cfg (cfg.discovery.exclude_origins ++ authority o ∷ [])) o
      ≡ some cfg
unfolding apps_unhide
unhidden cfg o p fresh =
    let old = cfg.discovery.exclude_origins in
    let is_own : is_entry (authority o) (authority o) ≡ true =
      rw (parse_authority-authority o p, is_entry) (eq_self (authority o)) in
    let kept =
      filter-append (λ s. not (is_entry (authority o) s)) old (authority o) (rw is_own refl)
      ∙ filter_all (is_entry (authority o)) old fresh in
    rw (kept, length-push old (authority o)) refl

-- Unhiding an origin that was just hidden gives back the configuration; the port of the origin is
-- from 1 to 65535, and its host is not empty, has no closing bracket, does not begin with an opening one
-- or with whitespace, and is no alias of the loopback address.
pub apps_unhide-apps_hide :
    (cfg : Config) (o : Origin) {cfg' : Config}
    → IsPlain o
    → apps_hide cfg o ≡ some cfg'
    → apps_unhide cfg' o ≡ some cfg
apps_unhide-apps_hide cfg o {cfg'} p h =
    let (fresh, made) = hidden cfg o h in
    subst (λ (x : Config). apps_unhide x o ≡ some cfg) made (unhidden cfg o p fresh)

added_back :
    (cfg : Config) (entry : AppConfig)
    → any (λ (a : AppConfig). a.name == entry.name) cfg.apps ≡ false
    → apps_remove (record cfg { apps = cfg.apps ++ entry ∷ [] }) entry.name ≡ some cfg
unfolding apps_remove
added_back cfg entry fresh =
    let kept =
      filter-append (λ (a : AppConfig). not (a.name == entry.name)) cfg.apps entry
        (rw (eq_self entry.name) refl)
      ∙ filter_all (λ (a : AppConfig). a.name == entry.name) cfg.apps fresh in
    rw (kept, length-push cfg.apps entry) refl

-- Removing an app that was just added gives back the configuration.
pub apps_remove-apps_add :
    (cfg : Config) (name : Text) (port : ℕ) {cfg' : Config}
    → apps_add cfg name port ≡ added cfg'
    → apps_remove cfg' name ≡ some cfg
unfolding apps_add
apps_remove-apps_add cfg name port {cfg'} h =
    let entry : AppConfig = record { name = name; port = port } in
    let made : Config = record cfg { apps = cfg.apps ++ entry ∷ [] } in
    elim (Bool-cases (any (λ (a : AppConfig). a.name == name) cfg.apps)) [
      | inl taken ↦ ground (arith, taken)
      | inr fresh ↦ elim (Option-cases (validate made)) [
        | inr (message, wrong) ↦ ground (arith, fresh, wrong)
        | inl right ↦
            let same : made ≡ cfg' = ground (arith, fresh, right) in
            subst (λ (x : Config). apps_remove x name ≡ some cfg) same (added_back cfg entry fresh)
      ]
    ]
