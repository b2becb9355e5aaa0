-- ===== src/Enricher/Faithful/Lookups.antt =====
-- The lookups of objects (getPod, GetDaemonSet and the five others) against the cluster.
use lumigo_kubernetes_operat.Prelude.{
  String, [], ◌∷◌, ◌≡◌, ◌⊎◌, refl, inl, inr, some, none, Option, Bool-cases, sym, ◌==◌, eq_iff,
  Fallible, Error, wrapf,
}
use lumigo_kubernetes_operat.K8s.{ApiResult, found, not_found, failed}
use lumigo_kubernetes_operat.Enricher.Objects.{Kind, KubeObject, compact}
use lumigo_kubernetes_operat.Enricher.External.{Libraries, Cluster, IsCache}
use lumigo_kubernetes_operat.Enricher.Caches.{object_key, resource_version_key, cache_key}
use lumigo_kubernetes_operat.Enricher.Client.{
  KubeClient, Lookup, cache_of, with_cache, lookup_object, after_cache, fetch_object,
  after_get_object,
}
use lumigo_kubernetes_operat.Enricher.Retry.{give_up, retry_answer}
use lumigo_kubernetes_operat.Enricher.Keys.{
  IsName, object_key_inj, resource_version_key_inj, object_key-not_version_key,
}
use lumigo_kubernetes_operat.Enricher.Faithful.{IsEntry, IsFaithful, IsAnswer, IsHonest}
use lumigo_kubernetes_operat.Enricher.Faithful.Caches.{
  got-IsFaithfulCache, with_cache-IsFaithful, register-IsFaithful,
}

-- An object that the cluster was seen to have with the kind, name and namespace, as it was seen or
-- compacted.
pub record IsLookedUp (Seen : KubeObject → Type 0) (kind : Kind) (name namespace : String)
    (o : KubeObject) : Type 0 where
  pub origin : KubeObject
  pub answer : IsAnswer Seen kind name namespace origin
  pub as_seen : (o ≡ origin) ⊎ (o ≡ compact origin)

module _ {W : Type 0} (Seen : KubeObject → Type 0) (cluster : Cluster W) (kind : Kind)
    (name namespace resource_version : String) where
  -- What a lookup may answer: such an object, nothing or an error. A compacted object has the
  -- resource version asked for, if any; nothing is answered only where the cluster answered that
  -- there is none, and an error only where the cluster answered one.
  pub data IsLookup : Fallible (Option KubeObject) → Type 0 where
    from_cache :
        {o : KubeObject}
        → IsLookedUp Seen kind name namespace o
        → (resource_version ≡ "") ⊎ (o.meta.resource_version ≡ resource_version)
        → IsLookup (inr (some o))
    from_cluster :
        {o : KubeObject} {v : W}
        → (cluster.get_object kind name namespace resource_version v).1 ≡ found o
        → IsLookedUp Seen kind name namespace o
        → IsLookup (inr (some o))
    absent :
        {e : Error} {v : W}
        → (cluster.get_object kind name namespace resource_version v).1 ≡ not_found e
        → IsLookup (inr none)
    erred :
        {e : Error} {v : W}
        → (cluster.get_object kind name namespace resource_version v).1 ≡ failed e
        → IsLookup (inl (wrapf "failed after %d attempts, last error: %w" ("5" ∷ []) e))

module _ (Seen : KubeObject → Type 0) (kind : Kind) (name namespace : String)
    (named : IsName name × IsName namespace)
    (names : (o : KubeObject) → Seen o → IsName o.meta.name × IsName o.meta.namespace) where
  IsLookedUp-entry :
      (key : String) (o : KubeObject) (e : IsEntry Seen kind key o)
      → (e.origin.meta.name ≡ name) × (e.origin.meta.namespace ≡ namespace)
      → IsLookedUp Seen kind name namespace o
  IsLookedUp-entry key o e h = record {
    origin = e.origin;
    answer = record { seen = e.seen; of_kind = e.of_kind; of_name = h.0; of_namespace = h.1 };
    as_seen = inr e.compacted;
  }

  name_of_entry :
      (key : String) (o : KubeObject) (e : IsEntry Seen kind key o)
      → key ≡ object_key namespace name
      → (e.origin.meta.name ≡ name) × (e.origin.meta.namespace ≡ namespace)
  name_of_entry key o e q = elim e.under [
    | inl p ↦
        let (a, b) =
          object_key_inj namespace name e.origin.meta.namespace e.origin.meta.name named.1
            (names e.origin e.seen).1 (cc (p, q)) in
        (sym b, sym a)
    | inr p ↦ absurd (
        object_key-not_version_key namespace name e.origin.meta.namespace e.origin.meta.name
          e.origin.meta.resource_version named.1 (names e.origin e.seen).1 named.0 (cc (p, q)))
  ]

  name_of_versioned_entry :
      (key rv : String) (o : KubeObject) (e : IsEntry Seen kind key o)
      → key ≡ resource_version_key namespace name rv
      → ((e.origin.meta.name ≡ name) × (e.origin.meta.namespace ≡ namespace))
        × (o.meta.resource_version ≡ rv)
  name_of_versioned_entry key rv o e q = elim e.under [
    | inl p ↦ absurd (
        object_key-not_version_key e.origin.meta.namespace e.origin.meta.name namespace name rv
          (names e.origin e.seen).1 named.1 (names e.origin e.seen).0 (cc (p, q)))
    | inr p ↦
        let (a, bc) =
          resource_version_key_inj namespace name rv e.origin.meta.namespace e.origin.meta.name
            e.origin.meta.resource_version named.1 (names e.origin e.seen).1 named.0
            (names e.origin e.seen).0 (cc (p, q)) in
        ((sym bc.0, sym a), rw (e.compacted) (sym bc.1))
  ]

module _ (libs : Libraries) {W : Type 0} (cluster : Cluster W) (Seen : KubeObject → Type 0)
    (is_cache : IsCache libs) (honest : IsHonest Seen cluster) where
  module _ (kind : Kind) (name namespace resource_version : String)
      (named : IsName name × IsName namespace) where
    cache_key_cases :
        ((cache_key name namespace resource_version ≡ object_key namespace name)
          × (resource_version ≡ ""))
        ⊎ (cache_key name namespace resource_version
            ≡ resource_version_key namespace name resource_version)
    unfolding cache_key
    cache_key_cases = elim (Bool-cases (resource_version == "")) [
      | inl h ↦ inl (rw h refl, (eq_iff resource_version "").0 h)
      | inr h ↦ inr (rw h refl)
    ]

    IsLookup-entry :
        (o : KubeObject)
        → IsEntry Seen kind (cache_key name namespace resource_version) o
        → IsLookup Seen cluster kind name namespace resource_version (inr (some o))
    IsLookup-entry o e = elim cache_key_cases [
      | inl h ↦
          from_cache
            (IsLookedUp-entry Seen kind name namespace named honest.named _ o e
              (name_of_entry Seen kind name namespace named honest.named _ o e h.0))
            (inl h.1)
      | inr h ↦
          let (n, v) =
            name_of_versioned_entry Seen kind name namespace named honest.named _ resource_version o
              e h in
          from_cache (IsLookedUp-entry Seen kind name namespace named honest.named _ o e n) (inr v)
    ]

    -- what a lookup does and answers
    abbrev Sound : Lookup libs cluster KubeObject → Type 0
    Sound r =
        IsFaithful libs Seen r.0.1 × IsLookup Seen cluster kind name namespace resource_version r.1

    Sound-after_get_object :
        (c : KubeClient libs) (u : W) (v : W) (r : ApiResult KubeObject)
        → (cluster.get_object kind name namespace resource_version v).1 ≡ r
        → IsFaithful libs Seen c
        → Sound (after_get_object libs cluster kind c (give_up (u, r)))
    unfolding after_get_object
    Sound-after_get_object c u v (found o) e f =
        let a = honest.answers kind name namespace resource_version v o e in
        (
          register-IsFaithful libs Seen is_cache kind o c a.seen a.of_kind f,
          from_cluster e (record { origin = o; answer = a; as_seen = inl refl }),
        )
    Sound-after_get_object c u v (not_found e) h f = (f, absent h)
    Sound-after_get_object c u v (failed e) h f = (f, erred h)

    Sound-fetch_object :
        (w : W) (c : KubeClient libs)
        → IsFaithful libs Seen c
        → Sound (fetch_object libs cluster kind name namespace resource_version (w, c))
    unfolding fetch_object
    Sound-fetch_object w c f =
        let (u, vre) =
          retry_answer cluster.sleep (cluster.get_object kind name namespace resource_version) w in
        let (v, re) = vre in let (r, e) = re in rw (e.1) (Sound-after_get_object c u v r e.0 f)

    Sound-after_cache :
        (w : W) (c : KubeClient libs) (r : libs.Cache × Option KubeObject)
        → libs.get (cache_key name namespace resource_version) (cache_of libs kind c) ≡ r
        → IsFaithful libs Seen c
        → Sound (after_cache libs cluster kind name namespace resource_version w c r)
    unfolding after_cache
    Sound-after_cache w c (cache, some o) e f =
        let (rest, entry) =
          got-IsFaithfulCache libs Seen is_cache kind _ (cache_of libs kind c) (cache, some o) e
            (f.caches kind) in
        (
          with_cache-IsFaithful libs Seen is_cache kind cache c rest f,
          IsLookup-entry o (entry o refl),
        )
    Sound-after_cache w c (cache, none) e f =
        let (rest, entry) =
          got-IsFaithfulCache libs Seen is_cache kind _ (cache_of libs kind c) (cache, none) e
            (f.caches kind) in
        Sound-fetch_object w (with_cache libs kind cache c)
          (with_cache-IsFaithful libs Seen is_cache kind cache c rest f)

    -- Where the name and the namespace asked for, and those of all objects seen, have neither "/" nor
    -- "@", and the caches hold what was seen: a lookup answers an object that was seen with this
    -- kind, name and namespace, from a cache only with the resource version asked for; it answers
    -- nothing only where the cluster said that there is none, and an error only where the cluster
    -- returned one. The caches hold what was seen afterwards too.
    pub lookup_object-IsLookup :
        (w : W) (c : KubeClient libs)
        → IsFaithful libs Seen c
        → IsFaithful libs Seen
            (lookup_object libs cluster kind name namespace resource_version (w, c)).0.1
          × IsLookup Seen cluster kind name namespace resource_version
              (lookup_object libs cluster kind name namespace resource_version (w, c)).1
    unfolding lookup_object
    lookup_object-IsLookup w c f =
        Sound-after_cache w c
          (libs.get (cache_key name namespace resource_version) (cache_of libs kind c)) refl f
