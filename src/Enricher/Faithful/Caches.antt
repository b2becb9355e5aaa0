-- ===== src/Enricher/Faithful/Caches.antt =====
-- The operations of the caches and the registrations keep the client faithful.
use mathlib.Core.List.{Memᴰ}
use mathlib.Core.List.Memᴰ
use lumigo_kubernetes_operat.Prelude.{String, ◌≡◌, refl, inl, inr, Option, some, Bool-cases, sym}
use lumigo_kubernetes_operat.Enricher.Objects.{
  Kind, pod, daemon_set, deployment, replica_set, stateful_set, cron_job, job, KubeObject, compact,
}
use lumigo_kubernetes_operat.Enricher.External.{Libraries, IsCache}
use lumigo_kubernetes_operat.Enricher.Caches.{
  Sending, add_object, add_new, metadata_to_cache_keys, object_key, resource_version_key,
}
use lumigo_kubernetes_operat.Enricher.Client.{
  KubeClient, cache_of, with_cache, with_sending, sending_of, add_to_cache, add_pod_uid, register,
  register_pod, register_daemon_set, register_deployment, register_replica_set,
  register_stateful_set, register_cron_job, register_job,
}
use lumigo_kubernetes_operat.Enricher.Faithful.{IsEntry, IsFaithfulCache, IsFaithful}

module _ (libs : Libraries) (Seen : KubeObject → Type 0) where
  -- A cache of a client with another cache of a kind: the new one, or the old one.
  cache_of-with_cache :
      (P : Kind → libs.Cache → Type 0) (kind : Kind) (cache : libs.Cache) (c : KubeClient libs)
      → P kind cache
      → ((k : Kind) → P k (cache_of libs k c))
      → (k : Kind) → P k (cache_of libs k (with_cache libs kind cache c))
  cache_of-with_cache P pod cache c h hs pod = h
  cache_of-with_cache P daemon_set cache c h hs daemon_set = h
  cache_of-with_cache P deployment cache c h hs deployment = h
  cache_of-with_cache P replica_set cache c h hs replica_set = h
  cache_of-with_cache P stateful_set cache c h hs stateful_set = h
  cache_of-with_cache P cron_job cache c h hs cron_job = h
  cache_of-with_cache P job cache c h hs job = h
  cache_of-with_cache P _ cache c h hs k = hs k

  pod_uid_cache-with_cache :
      (kind : Kind) (cache : libs.Cache) (c : KubeClient libs)
      → (with_cache libs kind cache c).pod_uid_cache ≡ c.pod_uid_cache
  pod_uid_cache-with_cache pod cache c = refl
  pod_uid_cache-with_cache daemon_set cache c = refl
  pod_uid_cache-with_cache deployment cache c = refl
  pod_uid_cache-with_cache replica_set cache c = refl
  pod_uid_cache-with_cache stateful_set cache c = refl
  pod_uid_cache-with_cache cron_job cache c = refl
  pod_uid_cache-with_cache job cache c = refl

  sent-with_cache :
      (kind : Kind) (cache : libs.Cache) (c : KubeClient libs)
      → (with_cache libs kind cache c).object_resource_versions ≡ c.object_resource_versions
  sent-with_cache pod cache c = refl
  sent-with_cache daemon_set cache c = refl
  sent-with_cache deployment cache c = refl
  sent-with_cache replica_set cache c = refl
  sent-with_cache stateful_set cache c = refl
  sent-with_cache cron_job cache c = refl
  sent-with_cache job cache c = refl

  cache_of-with_sending :
      (k kind : Kind) (s : Sending libs) (c : KubeClient libs)
      → cache_of libs k (with_sending libs kind s c) ≡ cache_of libs k (with_cache libs kind s.0 c)
  cache_of-with_sending pod kind (cache, sent) c = refl
  cache_of-with_sending daemon_set kind (cache, sent) c = refl
  cache_of-with_sending deployment kind (cache, sent) c = refl
  cache_of-with_sending replica_set kind (cache, sent) c = refl
  cache_of-with_sending stateful_set kind (cache, sent) c = refl
  cache_of-with_sending cron_job kind (cache, sent) c = refl
  cache_of-with_sending job kind (cache, sent) c = refl

  module _ (is_cache : IsCache libs) where
    add-IsFaithfulCache :
        (kind : Kind) (key : String) (e : KubeObject) (cache : libs.Cache)
        → IsEntry Seen kind key e
        → IsFaithfulCache libs Seen kind cache
        → IsFaithfulCache libs Seen kind (libs.add key e cache)
    unfolding IsFaithfulCache
    add-IsFaithfulCache kind key e cache h f k w p = elim (is_cache.get-add k key e w cache p) [
      | inl same ↦ rw (same.0, same.1) h
      | inr old ↦ f k w old
    ]

    get-IsFaithfulCache :
        (kind : Kind) (key : String) (cache : libs.Cache)
        → IsFaithfulCache libs Seen kind cache
        → IsFaithfulCache libs Seen kind (libs.get key cache).0
    unfolding IsFaithfulCache
    get-IsFaithfulCache kind key cache f k w p = f k w (is_cache.get-get k key w cache p)

    -- what a lookup leaves, and what it answers
    pub got-IsFaithfulCache :
        (kind : Kind) (key : String) (cache : libs.Cache) (r : libs.Cache × Option KubeObject)
        → libs.get key cache ≡ r
        → IsFaithfulCache libs Seen kind cache
        → IsFaithfulCache libs Seen kind r.0
          × ((o : KubeObject) → r.1 ≡ some o → IsEntry Seen kind key o)
    unfolding IsFaithfulCache
    got-IsFaithfulCache kind key cache r e f =
        rw (← e) (get-IsFaithfulCache kind key cache f, λ o p. f key o p)

    add_new-IsFaithfulCache :
        (kind : Kind) (o : KubeObject) (s : Sending libs)
        → Seen o
        → o.kind ≡ kind
        → IsFaithfulCache libs Seen kind s.0
        → IsFaithfulCache libs Seen kind (add_new libs o s).0
    unfolding add_new metadata_to_cache_keys
    add_new-IsFaithfulCache kind o (cache, sent) seen k f =
        add-IsFaithfulCache kind
          (resource_version_key o.meta.namespace o.meta.name o.meta.resource_version) (compact o)
          (libs.add (object_key o.meta.namespace o.meta.name) (compact o) cache)
          (record { origin = o; seen = seen; of_kind = k; compacted = refl; under = inr refl })
          (add-IsFaithfulCache kind (object_key o.meta.namespace o.meta.name) (compact o) cache
            (record { origin = o; seen = seen; of_kind = k; compacted = refl; under = inl refl }) f)

    add_new-sent :
        (o : KubeObject) (s : Sending libs)
        → Seen o
        → ((p : KubeObject) → Memᴰ p s.1 → Seen p)
        → (p : KubeObject) → Memᴰ p (add_new libs o s).1
        → Seen p
    unfolding add_new metadata_to_cache_keys
    add_new-sent o (cache, sent) seen h p m = elim (Memᴰ.append_cases sent m) [
      | inl old ↦ h p old
      | inr new ↦ rw (Memᴰ.eq_of_singleton new) seen
    ]

    -- with the contents of one cache and what is sent downstream replaced
    pub with_sending-IsFaithful :
        (kind : Kind) (s : Sending libs) (c : KubeClient libs)
        → IsFaithfulCache libs Seen kind s.0
        → ((o : KubeObject) → Memᴰ o s.1 → Seen o)
        → IsFaithful libs Seen c
        → IsFaithful libs Seen (with_sending libs kind s c)
    with_sending-IsFaithful kind (cache, sent) c h m f = record {
      caches = λ k.
          rw (cache_of-with_sending k kind (cache, sent) c)
            (cache_of-with_cache (IsFaithfulCache libs Seen) kind cache c h f.caches k);
      pods = λ uid o e. f.pods uid o (rw (← pod_uid_cache-with_cache kind cache c) e);
      sent = m;
    }

    pub with_cache-IsFaithful :
        (kind : Kind) (cache : libs.Cache) (c : KubeClient libs)
        → IsFaithfulCache libs Seen kind cache
        → IsFaithful libs Seen c
        → IsFaithful libs Seen (with_cache libs kind cache c)
    with_cache-IsFaithful kind cache c h f = record {
      caches = cache_of-with_cache (IsFaithfulCache libs Seen) kind cache c h f.caches;
      pods = λ uid o e. f.pods uid o (rw (← pod_uid_cache-with_cache kind cache c) e);
      sent = λ o m. f.sent o (rw (← sent-with_cache kind cache c) m);
    }

    add_object-IsFaithfulCache :
        (kind : Kind) (o : KubeObject) (s : Sending libs)
        → Seen o
        → o.kind ≡ kind
        → IsFaithfulCache libs Seen kind s.0
        → IsFaithfulCache libs Seen kind (add_object libs o s).0.0
    unfolding add_object
    add_object-IsFaithfulCache kind o (cache, sent) seen k f =
        elim (Bool-cases (libs.contains cache (metadata_to_cache_keys o.meta).0)) [
          | inl h ↦ rw h f
          | inr h ↦ rw h (add_new-IsFaithfulCache kind o (cache, sent) seen k f)
        ]

    add_object-sent :
        (o : KubeObject) (s : Sending libs)
        → Seen o
        → ((p : KubeObject) → Memᴰ p s.1 → Seen p)
        → (p : KubeObject) → Memᴰ p (add_object libs o s).0.1
        → Seen p
    unfolding add_object
    add_object-sent o (cache, sent) seen f =
        elim (Bool-cases (libs.contains cache (metadata_to_cache_keys o.meta).0)) [
          | inl h ↦ rw h f
          | inr h ↦ rw h (add_new-sent o (cache, sent) seen f)
        ]

    pub add_to_cache-IsFaithful :
        (kind : Kind) (o : KubeObject) (c : KubeClient libs)
        → Seen o
        → o.kind ≡ kind
        → IsFaithful libs Seen c
        → IsFaithful libs Seen (add_to_cache libs kind o c)
    unfolding add_to_cache
    add_to_cache-IsFaithful kind o c seen k f =
        with_sending-IsFaithful kind (add_object libs o (sending_of libs kind c)).0 c
          (add_object-IsFaithfulCache kind o (sending_of libs kind c) seen k (f.caches kind))
          (add_object-sent o (sending_of libs kind c) seen f.sent) f

    cache_of-add_pod_uid :
        (k : Kind) (o : KubeObject) (c : KubeClient libs)
        → cache_of libs k (add_pod_uid libs o c) ≡ cache_of libs k c
    unfolding add_pod_uid
    cache_of-add_pod_uid pod o c = refl
    cache_of-add_pod_uid daemon_set o c = refl
    cache_of-add_pod_uid deployment o c = refl
    cache_of-add_pod_uid replica_set o c = refl
    cache_of-add_pod_uid stateful_set o c = refl
    cache_of-add_pod_uid cron_job o c = refl
    cache_of-add_pod_uid job o c = refl

    pub add_pod_uid-IsFaithful :
        (o : KubeObject) (c : KubeClient libs)
        → Seen o
        → o.kind ≡ pod
        → IsFaithful libs Seen c
        → IsFaithful libs Seen (add_pod_uid libs o c)
    unfolding add_pod_uid
    add_pod_uid-IsFaithful o c seen k f = record {
      caches = λ k. rw (cache_of-add_pod_uid k o c) (f.caches k);
      pods = λ uid p e. elim (is_cache.get-add uid o.meta.uid o p c.pod_uid_cache e) [
        | inl same ↦ rw same.1 (record { seen = seen; of_kind = k; of_uid = sym same.0 })
        | inr old ↦ f.pods uid p old
      ];
      sent = f.sent;
    }

    pub register-IsFaithful :
        (kind : Kind) (o : KubeObject) (c : KubeClient libs)
        → Seen o
        → o.kind ≡ kind
        → IsFaithful libs Seen c
        → IsFaithful libs Seen (register libs kind o c)
    unfolding register_pod register_daemon_set register_deployment register_replica_set
        register_stateful_set register_cron_job register_job
    register-IsFaithful pod o c seen k f =
        add_pod_uid-IsFaithful o (add_to_cache libs pod o c) seen k
          (add_to_cache-IsFaithful pod o c seen k f)
    register-IsFaithful _ o c seen k f = add_to_cache-IsFaithful _ o c seen k f
