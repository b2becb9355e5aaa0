-- ===== src/Enricher/Faithful/Keeping.antt =====
-- What the client of the enricher does keeps its caches faithful.
use lumigo_kubernetes_operat.Prelude.{
  String, List, [], ◌∷◌, ◌≡◌, refl, inl, inr, some, none, Option, Fallible,
}
use lumigo_kubernetes_operat.K8s.{ApiResult, found, not_found, failed}
use lumigo_kubernetes_operat.Enricher.Objects.{
  Kind, pod, daemon_set, deployment, replica_set, stateful_set, cron_job, job, KubeObject,
  Namespace, OwnerReference, ObjectReference, GroupVersionKind,
}
use lumigo_kubernetes_operat.Enricher.External.{
  Libraries, Cluster, IsCache, Stored, stored_namespace, stored_other,
}
use lumigo_kubernetes_operat.Enricher.Caches.{cache_key, typed}
use lumigo_kubernetes_operat.Enricher.Client.{
  KubeClient, Lookup, cache_of, with_cache, lookup_object, get_kind, after_cache, fetch_object,
  after_get_object, register_namespace, get_namespace, after_store, after_get_namespace,
  get_namespace_by_name, without_error, get_pod_by_uid,
}
use lumigo_kubernetes_operat.Enricher.Retry.{give_up, retry_answer}
use lumigo_kubernetes_operat.Enricher.Owners.{
  resolve_kind, resolve_object, wrap_unresolved, resolve_first, resolve_relevant_owner_reference,
  runtime_object_to_object_reference, runtime_object_to_object_meta, known, ensure_of_kind,
  ensure_object_reference_is_known,
}
use lumigo_kubernetes_operat.Enricher.Watching.{
  Addr, connection_ip, first_pod, pod_field_selector, after_first_pod,
  get_pod_by_network_connection,
}
use lumigo_kubernetes_operat.Enricher.Faithful.{IsFaithful, IsHonest}
use lumigo_kubernetes_operat.Enricher.Faithful.Caches.{
  got-IsFaithfulCache, with_cache-IsFaithful, register-IsFaithful,
}
pub mod Pods

pub get_kind-lookup_object :
    {libs : Libraries} {W : Type 0} (cluster : Cluster W) (kind : Kind) (name namespace rv : String)
    (s : W × KubeClient libs)
    → get_kind libs cluster kind name namespace rv s
      ≡ lookup_object libs cluster kind name namespace rv s
get_kind-lookup_object cluster pod name namespace rv s = refl
get_kind-lookup_object cluster daemon_set name namespace rv s = refl
get_kind-lookup_object cluster deployment name namespace rv s = refl
get_kind-lookup_object cluster replica_set name namespace rv s = refl
get_kind-lookup_object cluster stateful_set name namespace rv s = refl
get_kind-lookup_object cluster cron_job name namespace rv s = refl
get_kind-lookup_object cluster job name namespace rv s = refl

module _ (libs : Libraries) {W : Type 0} (cluster : Cluster W) (Seen : KubeObject → Type 0)
    (is_cache : IsCache libs) (honest : IsHonest Seen cluster) where
  -- the client of a state is faithful
  abbrev pub Keeps : W × KubeClient libs → Type 0
  Keeps s = IsFaithful libs Seen s.1

  Keeps-after_get_object :
      (kind : Kind) (name namespace rv : String) (c : KubeClient libs) (u v : W)
      (r : ApiResult KubeObject)
      → (cluster.get_object kind name namespace rv v).1 ≡ r
      → IsFaithful libs Seen c
      → Keeps (after_get_object libs cluster kind c (give_up (u, r))).0
  unfolding after_get_object
  Keeps-after_get_object kind name namespace rv c u v (found o) e f =
      let a = honest.answers kind name namespace rv v o e in
      register-IsFaithful libs Seen is_cache kind o c a.seen a.of_kind f
  Keeps-after_get_object kind name namespace rv c u v (not_found e) h f = f
  Keeps-after_get_object kind name namespace rv c u v (failed e) h f = f

  Keeps-fetch_object :
      (kind : Kind) (name namespace rv : String) (w : W) (c : KubeClient libs)
      → IsFaithful libs Seen c
      → Keeps (fetch_object libs cluster kind name namespace rv (w, c)).0
  unfolding fetch_object
  Keeps-fetch_object kind name namespace rv w c f =
      let (u, vre) = retry_answer cluster.sleep (cluster.get_object kind name namespace rv) w in
      let (v, re) = vre in
      let (r, e) = re in rw (e.1) (Keeps-after_get_object kind name namespace rv c u v r e.0 f)

  Keeps-after_cache :
      (kind : Kind) (name namespace rv : String) (w : W) (c : KubeClient libs)
      (r : libs.Cache × Option KubeObject)
      → libs.get (cache_key name namespace rv) (cache_of libs kind c) ≡ r
      → IsFaithful libs Seen c
      → Keeps (after_cache libs cluster kind name namespace rv w c r).0
  unfolding after_cache
  Keeps-after_cache kind name namespace rv w c (cache, some o) e f =
      let (rest, entry) =
        got-IsFaithfulCache libs Seen is_cache kind _ (cache_of libs kind c) (cache, some o) e
          (f.caches kind) in
      with_cache-IsFaithful libs Seen is_cache kind cache c rest f
  Keeps-after_cache kind name namespace rv w c (cache, none) e f =
      let (rest, entry) =
        got-IsFaithfulCache libs Seen is_cache kind _ (cache_of libs kind c) (cache, none) e
          (f.caches kind) in
      Keeps-fetch_object kind name namespace rv w (with_cache libs kind cache c)
        (with_cache-IsFaithful libs Seen is_cache kind cache c rest f)

  pub Keeps-get_kind :
      (kind : Kind) (name namespace rv : String) (s : W × KubeClient libs)
      → Keeps s
      → Keeps (get_kind libs cluster kind name namespace rv s).0
  unfolding lookup_object
  Keeps-get_kind kind name namespace rv (w, c) f =
      rw (get_kind-lookup_object cluster kind name namespace rv (w, c)) (
        Keeps-after_cache kind name namespace rv w c
          (libs.get (cache_key name namespace rv) (cache_of libs kind c)) refl f)

  cache_of-register_namespace :
      (k : Kind) (n : Namespace) (c : KubeClient libs)
      → cache_of libs k (register_namespace libs n c) ≡ cache_of libs k c
  unfolding register_namespace
  cache_of-register_namespace pod n c = refl
  cache_of-register_namespace daemon_set n c = refl
  cache_of-register_namespace deployment n c = refl
  cache_of-register_namespace replica_set n c = refl
  cache_of-register_namespace stateful_set n c = refl
  cache_of-register_namespace cron_job n c = refl
  cache_of-register_namespace job n c = refl

  pub Keeps-register_namespace :
      (n : Namespace) (c : KubeClient libs)
      → IsFaithful libs Seen c
      → IsFaithful libs Seen (register_namespace libs n c)
  unfolding register_namespace
  Keeps-register_namespace n c f = record {
    caches = λ k. rw (cache_of-register_namespace k n c) (f.caches k);
    pods = f.pods;
    sent = f.sent;
  }

  Keeps-after_get_namespace :
      (c : KubeClient libs) (r : W × ApiResult Namespace)
      → IsFaithful libs Seen c
      → Keeps (after_get_namespace libs cluster c r).0
  unfolding after_get_namespace
  Keeps-after_get_namespace c (w, found n) f = Keeps-register_namespace n c f
  Keeps-after_get_namespace c (w, not_found e) f = f
  Keeps-after_get_namespace c (w, failed e) f = f

  Keeps-after_store :
      (name : String) (s : W × KubeClient libs) (r : Fallible (Option Stored))
      → Keeps s
      → Keeps (after_store libs cluster name s r).0
  unfolding after_store
  Keeps-after_store name s (inl e) f = f
  Keeps-after_store name s (inr (some (stored_namespace n))) f = f
  Keeps-after_store name s (inr (some (stored_other t))) f = f
  Keeps-after_store name (w, c) (inr none) f = Keeps-after_get_namespace c _ f

  Keeps-without_error :
      (l : Lookup libs cluster Namespace) → Keeps l.0 → Keeps (without_error libs cluster l).0
  Keeps-without_error (s, inl e) f = f
  Keeps-without_error (s, inr n) f = f

  pub Keeps-get_namespace_by_name :
      (name : String) (s : W × KubeClient libs)
      → Keeps s
      → Keeps (get_namespace_by_name libs cluster name s).0
  unfolding get_namespace_by_name get_namespace
  Keeps-get_namespace_by_name name (w, c) f =
      Keeps-without_error (get_namespace libs cluster name (w, c))
        (Keeps-after_store name (w, c) (libs.get_by_key name c.namespaces) f)

  Keeps-resolve_kind :
      (kind : Option Kind) (name namespace : String) (s : W × KubeClient libs)
      → Keeps s
      → Keeps (resolve_kind libs cluster kind name namespace s).0
  Keeps-resolve_kind none name namespace s f = f
  Keeps-resolve_kind (some kind) name namespace s f = Keeps-get_kind kind name namespace "" s f

  Keeps-wrap_unresolved :
      (r : OwnerReference) (namespace : String) (l : Lookup libs cluster KubeObject)
      → Keeps l.0
      → Keeps (wrap_unresolved libs cluster r namespace l).0
  Keeps-wrap_unresolved r namespace (s, inl e) f = f
  Keeps-wrap_unresolved r namespace (s, inr o) f = f

  Keeps-resolve_first :
      (namespace : String) (r : Option OwnerReference) (s : W × KubeClient libs)
      → Keeps s
      → Keeps (resolve_first libs cluster namespace r s).0
  unfolding resolve_object
  Keeps-resolve_first namespace none s f = f
  Keeps-resolve_first namespace (some r) s f =
      Keeps-wrap_unresolved r namespace _ (Keeps-resolve_kind _ r.name namespace s f)

  pub Keeps-resolve_relevant_owner_reference :
      (o : KubeObject) (s : W × KubeClient libs)
      → Keeps s
      → Keeps (resolve_relevant_owner_reference libs cluster (typed o) s).0
  unfolding resolve_relevant_owner_reference runtime_object_to_object_reference
      runtime_object_to_object_meta
  Keeps-resolve_relevant_owner_reference o s f = Keeps-resolve_first o.meta.namespace _ s f

  Keeps-known :
      (gvk : GroupVersionKind) (name : String) (l : Lookup libs cluster KubeObject)
      → Keeps l.0
      → Keeps (known libs cluster gvk name l).0
  Keeps-known gvk name (s, inl e) f = f
  Keeps-known gvk name (s, inr (some o)) f = f
  Keeps-known gvk name (s, inr none) f = f

  Keeps-ensure_of_kind :
      (kind : Option Kind) (r : ObjectReference) (s : W × KubeClient libs)
      → Keeps s
      → Keeps (ensure_of_kind libs cluster kind r s).0
  Keeps-ensure_of_kind none r s f = f
  Keeps-ensure_of_kind (some kind) r s f =
      Keeps-known _ r.name _ (Keeps-get_kind kind r.name r.namespace r.resource_version s f)

  pub Keeps-ensure_object_reference_is_known :
      (r : ObjectReference) (s : W × KubeClient libs)
      → Keeps s
      → Keeps (ensure_object_reference_is_known libs cluster r s).0
  unfolding ensure_object_reference_is_known
  Keeps-ensure_object_reference_is_known r s f = Keeps-ensure_of_kind _ r s f
