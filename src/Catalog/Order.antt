-- ===== src/Catalog/Order.antt =====
-- catalog.rs: the catalog does not depend on the order in which apps were discovered.
use mathlib.Core.List.{Permᴰ}
use raemote_server.HashSet
use raemote_server.Sort.Laws
use raemote_server.Prelude.{
  ◌≡◌, ◌≢◌, refl, ◌⊎◌, inl, inr, true, false, List, [], ◌∷◌, map, arith, ◌==◌, nat_instance,
  list_instance, eq_iff, Bool-cases, All,
}
use raemote_server.Config.Schema.{AppConfig}
use raemote_server.Discovery.Model.{origin_instance, DiscoveredApp}
use raemote_server.Catalog.{app_before, rebuild}

app_before-IsStrict : Laws.IsStrict app_before
app_before-IsStrict = record {
  asymm = λ a b h. ground (arith, Laws.text_lt-IsStrict.asymm a.origin.host b.origin.host);
  trans = λ a b c h k.
      ground (arith, Laws.text_lt-IsStrict.trans a.origin.host b.origin.host c.origin.host);
}

app_before_total :
    (a b : DiscoveredApp)
    → (a.origin == b.origin) ≡ false
    → (app_before a b ≡ true) ⊎ (app_before b a ≡ true)
app_before_total a b h = elim (Bool-cases (a.origin.host == b.origin.host)) [
  | inl same ↦ ground arith
  | inr other ↦
      let apart : a.origin.host ≢ b.origin.host =
        λ e. cc ((eq_iff a.origin.host b.origin.host).1 e) in
      ground (arith, Laws.text_lt_total a.origin.host b.origin.host apart)
]

other :
    (d a : DiscoveredApp) (ds : List DiscoveredApp)
    → HashSet.contains (map (λ x. x.origin) (a ∷ ds)) d.origin ≡ false
    → (d.origin == a.origin) ≡ false
unfolding HashSet.contains
other d a ds h = ground (arith, eq_iff d.origin a.origin, eq_iff a.origin d.origin)

unique-IsDistinct :
    (found : List DiscoveredApp)
    → HashSet.IsUnique (map (λ d. d.origin) found)
    → Laws.IsDistinct app_before app_before-IsStrict found
unique-IsDistinct [] h = tt
unique-IsDistinct (d ∷ found) h = (apart found h.0, unique-IsDistinct found h.1)
  where
    apart :
        (ds : List DiscoveredApp)
        → HashSet.contains (map (λ a. a.origin) ds) d.origin ≡ false
        → All (Laws.Apart app_before app_before-IsStrict d) ds
    apart [] h = tt
    apart (a ∷ ds) h =
        (app_before_total d a (other d a ds h), apart ds (unfold HashSet.contains in ground arith))

-- If the discovered origins are distinct, the catalog does not depend on the order of discovery.
pub rebuild-Permᴰ :
    (manual_apps : List AppConfig) {found found' : List DiscoveredApp}
    → HashSet.IsUnique (map (λ d. d.origin) found)
    → Permᴰ found found'
    → rebuild manual_apps found ≡ rebuild manual_apps found'
unfolding rebuild
rebuild-Permᴰ manual_apps h p =
    rw (Laws.sort_by-Permᴰ app_before app_before-IsStrict p (unique-IsDistinct _ h), rebuild) refl
