-- ===== src/Discovery/Caching.antt =====
-- discovery/mod.rs: the cache holds each origin once, and live origins only.
use raemote_server.HashMap
use raemote_server.HashSet
use raemote_server.Prelude.{
  ◌≡◌, refl, inl, inr, Bool, true, List, [], ◌∷◌, map, arith, ◌==◌, nat_instance, list_instance,
  eq_iff, Bool-cases, Option-cases, is_some, All,
}
use raemote_server.Discovery.Listener.{Candidate, Skipped}
use raemote_server.Discovery.Model.{Origin, origin_instance}
use raemote_server.Discovery.Engine.{
  is_credible, CachedApp, Cache, Completed, cached_apps, to_cached, absorb, candidate_origins,
  drop_gone,
}

-- Each key stands once, and is the origin of its app.
pub record IsCache (cache : Cache) : Type 0 where
  pub distinct : HashMap.IsMap cache
  pub keyed : All (λ (p : Origin × CachedApp). p.1.app.origin ≡ p.0) cache

abbrev pub Keyed : Cache → Type 0
Keyed = All (λ (p : Origin × CachedApp). p.1.app.origin ≡ p.0)

remove-Keyed : (cache : Cache) (o : Origin) → Keyed cache → Keyed (HashMap.remove cache o)
unfolding HashMap.remove
remove-Keyed [] o h = tt
remove-Keyed ((k, c) ∷ cache) o h = elim (Bool-cases (k == o)) [
  | inl same ↦ rw same (remove-Keyed cache o h.1)
  | inr other ↦ rw other (h.0, remove-Keyed cache o h.1)
]

retain-Keyed :
    (p : Origin → CachedApp → Bool) (cache : Cache) → Keyed cache → Keyed (HashMap.retain p cache)
unfolding HashMap.retain
retain-Keyed p [] h = tt
retain-Keyed p ((k, c) ∷ cache) h = elim (Bool-cases (p k c)) [
  | inl kept ↦ rw kept (h.0, retain-Keyed p cache h.1)
  | inr gone ↦ rw gone (retain-Keyed p cache h.1)
]

-- the cache holds live origins only
abbrev pub Within : List Origin → Cache → Type 0
Within live cache =
    (o : Origin) → is_some (HashMap.get cache o) ≡ true → HashSet.contains live o ≡ true

remove-Within :
    (live : List Origin) (cache : Cache) (o : Origin)
    → Within live cache
    → Within live (HashMap.remove cache o)
remove-Within live cache o h j k = ground (arith, HashMap.get-remove cache o j, h j)

insert-Within :
    (live : List Origin) (cache : Cache) (o : Origin) (c : CachedApp)
    → HashSet.contains live o ≡ true
    → Within live cache
    → Within live (HashMap.insert cache o c)
insert-Within live cache o c l h j k =
    ground (arith, HashMap.get-insert cache o c j, h j, eq_iff o j)

abbrev pub IsGood : List Origin → Cache → Type 0
IsGood live cache = IsCache cache × Within live cache

drop-IsGood :
    (live : List Origin) (cache : Cache) (o : Origin)
    → IsGood live cache
    → IsGood live (HashMap.remove cache o)
drop-IsGood live cache o h = (
  record {
    distinct = HashMap.remove-IsMap cache o h.0.distinct;
    keyed = remove-Keyed cache o h.0.keyed;
  },
  remove-Within live cache o h.1,
)

store-IsGood :
    (live : List Origin) (cache : Cache) (c : CachedApp)
    → HashSet.contains live c.app.origin ≡ true
    → IsGood live cache
    → IsGood live (HashMap.insert cache c.app.origin c)
store-IsGood live cache c l h = (
  record {
    distinct = HashMap.insert-IsMap cache c.app.origin c h.0.distinct;
    keyed = unfold HashMap.insert in (refl, remove-Keyed cache c.app.origin h.0.keyed);
  },
  insert-Within live cache c.app.origin c l h.1,
)

pub absorb-IsGood :
    (live : List Origin) (ts : List Completed) (cache : Cache) (skipped : List Skipped)
    → All (λ t. HashSet.contains live t.candidate.origin ≡ true) ts
    → IsGood live cache
    → IsGood live (absorb cache skipped ts).0
unfolding absorb
absorb-IsGood live [] cache skipped l h = h
absorb-IsGood live (t ∷ ts) cache skipped l h = elim (Option-cases t.result) [
  | inl silent ↦
      rw (silent, absorb)
        (absorb-IsGood live ts _ _ l.1 (drop-IsGood live cache t.candidate.origin h))
  | inr (r, answered) ↦ elim (Bool-cases (is_credible r)) [
    | inr poor ↦
        rw (answered, poor, absorb)
          (absorb-IsGood live ts _ _ l.1 (drop-IsGood live cache t.candidate.origin h))
    | inl good ↦
        rw (answered, good, absorb)
          (absorb-IsGood live ts _ _ l.1
            (store-IsGood live cache (to_cached t.candidate r t.finished) l.0 h))
  ]
]

pub drop_gone-IsGood :
    (candidates : List Candidate) (cache : Cache)
    → IsCache cache
    → IsGood (candidate_origins candidates) (drop_gone candidates cache)
unfolding drop_gone
drop_gone-IsGood candidates cache v =
    let live = HashSet.from_list (candidate_origins candidates) in
    (
      record {
        distinct = HashMap.retain-IsMap (λ o _. HashSet.contains live o) cache v.distinct;
        keyed = retain-Keyed (λ o _. HashSet.contains live o) cache v.keyed;
      },
      λ o k. ground (
        arith,
        HashMap.get-retain (λ (x : Origin) (c : CachedApp). HashSet.contains live x) cache o
            v.distinct,
        HashSet.contains-from_list (candidate_origins candidates) o,
      ),
    )

pub cached-get :
    (cache : Cache) (o : Origin)
    → Keyed cache
    → HashSet.contains (map (λ d. d.origin) (cached_apps cache)) o ≡ true
    → is_some (HashMap.get cache o) ≡ true
unfolding HashMap.get HashSet.contains
cached-get [] o h m = ground arith
cached-get ((k, c) ∷ cache) o h m =
    let same = h.0 in ground (arith, cached-get cache o h.1, eq_iff k o, eq_iff c.app.origin o)
