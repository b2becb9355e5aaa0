-- ===== src/Enricher/Client.antt =====
-- KubeClient of internal/kube.go: its state, the registration of objects, and the lookups that fall
-- back to the cluster. The logging is left out.
use lumigo_kubernetes_operat.Prelude.{
  String, Bool, Option, none, some, List, [], ◌∷◌, Fallible, inl, inr, errorf,
}
use lumigo_kubernetes_operat.K8s.{ApiResult, found, not_found, failed}
use lumigo_kubernetes_operat.Enricher.Objects.{
  Kind, pod, daemon_set, deployment, replica_set, stateful_set, cron_job, job, KubeObject,
  Namespace,
}
use lumigo_kubernetes_operat.Enricher.External.{
  Libraries, Cluster, Stored, stored_namespace, stored_other,
}
use lumigo_kubernetes_operat.Enricher.Caches.{Sending, add_object, cache_key}
use lumigo_kubernetes_operat.Enricher.Retry.{retry}

pub record KubeClient (libs : Libraries) : Type 0 where
  pub provider_id : String
  -- the store of the namespace informer
  pub namespaces : libs.Store
  pub pod_uid_cache : libs.Cache
  pub pod_cache : libs.Cache
  pub daemon_set_cache : libs.Cache
  pub deployment_cache : libs.Cache
  pub replica_set_cache : libs.Cache
  pub stateful_set_cache : libs.Cache
  pub cron_job_cache : libs.Cache
  pub job_cache : libs.Cache
  -- what is on the channel, or waits to be sent to it
  pub object_resource_versions : List KubeObject
  pub is_started : Bool

module _ (libs : Libraries) where
  abbrev pub cache_of : Kind → KubeClient libs → libs.Cache
  cache_of pod c = c.pod_cache
  cache_of daemon_set c = c.daemon_set_cache
  cache_of deployment c = c.deployment_cache
  cache_of replica_set c = c.replica_set_cache
  cache_of stateful_set c = c.stateful_set_cache
  cache_of cron_job c = c.cron_job_cache
  cache_of job c = c.job_cache

  abbrev pub with_cache : Kind → libs.Cache → KubeClient libs → KubeClient libs
  with_cache pod cache c = record c { pod_cache = cache }
  with_cache daemon_set cache c = record c { daemon_set_cache = cache }
  with_cache deployment cache c = record c { deployment_cache = cache }
  with_cache replica_set cache c = record c { replica_set_cache = cache }
  with_cache stateful_set cache c = record c { stateful_set_cache = cache }
  with_cache cron_job cache c = record c { cron_job_cache = cache }
  with_cache job cache c = record c { job_cache = cache }

  abbrev pub with_sending : Kind → Sending libs → KubeClient libs → KubeClient libs
  with_sending kind (cache, sent) c = record (with_cache kind cache c) {
    object_resource_versions = sent;
  }

  abbrev pub sending_of : Kind → KubeClient libs → Sending libs
  sending_of kind c = (cache_of kind c, c.object_resource_versions)

  -- `Add` of the cache of the kind
  unfoldable pub add_to_cache : Kind → KubeObject → KubeClient libs → KubeClient libs
  add_to_cache kind o c = with_sending kind (add_object libs o (sending_of kind c)).0 c

  unfoldable pub add_pod_uid : KubeObject → KubeClient libs → KubeClient libs
  add_pod_uid o c = record c { pod_uid_cache = libs.add o.meta.uid o c.pod_uid_cache }

  unfoldable pub register_namespace : Namespace → KubeClient libs → KubeClient libs
  register_namespace n c = record c { namespaces = (libs.store_add n c.namespaces).0 }

  unfoldable pub register_pod : KubeObject → KubeClient libs → KubeClient libs
  register_pod o c = add_pod_uid o (add_to_cache pod o c)

  unfoldable pub register_daemon_set : KubeObject → KubeClient libs → KubeClient libs
  register_daemon_set o c = add_to_cache daemon_set o c

  unfoldable pub register_deployment : KubeObject → KubeClient libs → KubeClient libs
  register_deployment o c = add_to_cache deployment o c

  unfoldable pub register_replica_set : KubeObject → KubeClient libs → KubeClient libs
  register_replica_set o c = add_to_cache replica_set o c

  unfoldable pub register_stateful_set : KubeObject → KubeClient libs → KubeClient libs
  register_stateful_set o c = add_to_cache stateful_set o c

  unfoldable pub register_cron_job : KubeObject → KubeClient libs → KubeClient libs
  register_cron_job o c = add_to_cache cron_job o c

  unfoldable pub register_job : KubeObject → KubeClient libs → KubeClient libs
  register_job o c = add_to_cache job o c

  -- the registration of objects of a kind
  abbrev pub register : Kind → KubeObject → KubeClient libs → KubeClient libs
  register pod o c = register_pod o c
  register daemon_set o c = register_daemon_set o c
  register deployment o c = register_deployment o c
  register replica_set o c = register_replica_set o c
  register stateful_set o c = register_stateful_set o c
  register cron_job o c = register_cron_job o c
  register job o c = register_job o c

  module _ {W : Type 0} (cluster : Cluster W) where
    abbrev pub Lookup : Type 0 → Type 0
    Lookup A = (W × KubeClient libs) × Fallible (Option A)

    unfoldable pub after_get_object :
        Kind → KubeClient libs → W × ApiResult KubeObject → Lookup KubeObject
    after_get_object kind c (w, found o) = ((w, register kind o c), inr (some o))
    after_get_object kind c (w, not_found e) = ((w, c), inr none)
    after_get_object kind c (w, failed e) = ((w, c), inl e)

    unfoldable pub fetch_object :
        Kind → String → String → String → W × KubeClient libs → Lookup KubeObject
    fetch_object kind name namespace resource_version (w, c) =
        after_get_object kind c
          (retry cluster.sleep (cluster.get_object kind name namespace resource_version) w)

    unfoldable pub after_cache :
        Kind
        → String
        → String
        → String
        → W
        → KubeClient libs
        → libs.Cache × Option KubeObject
        → Lookup KubeObject
    after_cache kind name namespace resource_version w c (cache, some o) =
        ((w, with_cache kind cache c), inr (some o))
    after_cache kind name namespace resource_version w c (cache, none) =
        fetch_object kind name namespace resource_version (w, with_cache kind cache c)

    -- getPod, GetDaemonSet and the five others, which differ only in the kind
    unfoldable pub lookup_object :
        Kind → String → String → String → W × KubeClient libs → Lookup KubeObject
    lookup_object kind name namespace resource_version (w, c) =
        after_cache kind name namespace resource_version w c
          (libs.get (cache_key name namespace resource_version) (cache_of kind c))

    abbrev get_pod : String → String → String → W × KubeClient libs → Lookup KubeObject
    get_pod = lookup_object pod

    abbrev get_daemon_set : String → String → String → W × KubeClient libs → Lookup KubeObject
    get_daemon_set = lookup_object daemon_set

    abbrev get_deployment : String → String → String → W × KubeClient libs → Lookup KubeObject
    get_deployment = lookup_object deployment

    abbrev get_replica_set : String → String → String → W × KubeClient libs → Lookup KubeObject
    get_replica_set = lookup_object replica_set

    abbrev get_stateful_set : String → String → String → W × KubeClient libs → Lookup KubeObject
    get_stateful_set = lookup_object stateful_set

    abbrev get_cron_job : String → String → String → W × KubeClient libs → Lookup KubeObject
    get_cron_job = lookup_object cron_job

    abbrev get_job : String → String → String → W × KubeClient libs → Lookup KubeObject
    get_job = lookup_object job

    -- the lookup that the switches over the kinds take
    abbrev pub get_kind : Kind → String → String → String → W × KubeClient libs → Lookup KubeObject
    get_kind pod = get_pod
    get_kind daemon_set = get_daemon_set
    get_kind deployment = get_deployment
    get_kind replica_set = get_replica_set
    get_kind stateful_set = get_stateful_set
    get_kind cron_job = get_cron_job
    get_kind job = get_job

    unfoldable pub after_get_namespace :
        KubeClient libs → W × ApiResult Namespace → Lookup Namespace
    after_get_namespace c (w, found n) = ((w, register_namespace n c), inr (some n))
    after_get_namespace c (w, not_found e) = ((w, c), inr none)
    after_get_namespace c (w, failed e) = ((w, c), inl e)

    unfoldable pub after_store :
        String → W × KubeClient libs → Fallible (Option Stored) → Lookup Namespace
    after_store name s (inl e) = (s, inl e)
    after_store name s (inr (some (stored_namespace n))) = (s, inr (some n))
    after_store name s (inr (some (stored_other type_string))) = (
      s,
      inl (
          errorf "Object returned from the namespace informer's store is not a *v1.Namespace: %s"
            (type_string ∷ [])),
    )
    after_store name (w, c) (inr none) =
        after_get_namespace c (retry cluster.sleep (cluster.get_namespace name) w)

    unfoldable pub get_namespace : String → W × KubeClient libs → Lookup Namespace
    get_namespace name (w, c) = after_store name (w, c) (libs.get_by_key name c.namespaces)

    abbrev pub without_error : Lookup Namespace → (W × KubeClient libs) × Option Namespace
    without_error (s, inl e) = (s, none)
    without_error (s, inr n) = (s, n)

    unfoldable pub get_namespace_by_name :
        String → W × KubeClient libs → (W × KubeClient libs) × Option Namespace
    get_namespace_by_name name s = without_error (get_namespace name s)

    abbrev pub uid_of_namespace :
        (W × KubeClient libs) × Option Namespace → (W × KubeClient libs) × Option String
    uid_of_namespace (s, none) = (s, none)
    uid_of_namespace (s, some n) = (s, some n.uid)

    unfoldable pub get_cluster_uid : W × KubeClient libs → (W × KubeClient libs) × Option String
    get_cluster_uid s = uid_of_namespace (get_namespace_by_name "kube-system" s)

    unfoldable pub get_pod_by_uid :
        String → W × KubeClient libs → (W × KubeClient libs) × Option KubeObject
    get_pod_by_uid uid (w, c) =
        let (cache, o) = libs.get uid c.pod_uid_cache in
        ((w, record c { pod_uid_cache = cache }), o)
