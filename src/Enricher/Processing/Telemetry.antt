-- ===== src/Enricher/Processing/Telemetry.antt =====
-- The informers, the enrichment of resources and that of metrics keep the caches of the enricher
-- faithful.
use lumigo_kubernetes_operat.Prelude.{
  String, true, List, [], ◌∷◌, ◌≡◌, refl, inl, inr, some, none, Option, Bool-cases, Outcome, ok,
  err, panicked,
}
use lumigo_kubernetes_operat.Enricher.Objects.{
  Kind, pod, daemon_set, deployment, replica_set, stateful_set, cron_job, job, KubeObject,
  Namespace,
}
use lumigo_kubernetes_operat.Enricher.External.{Libraries, Cluster, IsCache}
use lumigo_kubernetes_operat.Enricher.Client.{KubeClient, Lookup}
use lumigo_kubernetes_operat.Enricher.Watching.{Addr}
use lumigo_kubernetes_operat.Enricher.Attributes.{
  Value, as_string, Attributes, get_attribute, pod_uid_key, add_resource_cluster_attributes,
  put_pod, put_namespace, or_by_connection, by_uid_or_connection, find_pod, add_owner,
  add_found_owner, after_namespace, add_pod, add_resource_attributes, process_traces,
}
use lumigo_kubernetes_operat.Enricher.Metrics.{
  Metric, ResourceMetrics, owner_kind, is_owner_metric, put_owner_uid, look_up_owner, with_owner_of,
  add_owner_uid, add_owner_uid_attribute, enrich_gauge, enrich_metric, enrich_all, then_rest,
  prepend, with_scopes, add_owner_uid_attribute_to_owner_metrics, enrich_resource_metrics,
  process_metrics,
}
use lumigo_kubernetes_operat.Enricher.Faithful.{IsHonest}
use lumigo_kubernetes_operat.Enricher.Faithful.Keeping.{
  Keeps, Keeps-get_kind, Keeps-get_namespace_by_name, Keeps-resolve_relevant_owner_reference,
}
use lumigo_kubernetes_operat.Enricher.Faithful.Keeping.Pods.{
  Keeps-get_pod_by_uid, Keeps-get_pod_by_network_connection,
}

module _ (libs : Libraries) {W : Type 0} (cluster : Cluster W) (Seen : KubeObject → Type 0)
    (is_cache : IsCache libs) (honest : IsHonest Seen cluster) where
  abbrev pub Kept : W × KubeClient libs → Type 0
  Kept = Keeps libs cluster Seen is_cache honest

  Kept-or_by_connection :
      (addr : Option Addr) (r : (W × KubeClient libs) × Option KubeObject)
      → Kept r.0
      → Kept (or_by_connection libs cluster addr r).0
  Kept-or_by_connection addr (s, some o) f = f
  Kept-or_by_connection addr (s, none) f =
      Keeps-get_pod_by_network_connection libs cluster Seen is_cache honest addr s f

  Kept-by_uid_or_connection :
      (addr : Option Addr) (uid : Option Value) (s : W × KubeClient libs)
      → Kept s
      → Kept (by_uid_or_connection libs cluster addr uid s).0
  Kept-by_uid_or_connection addr none s f =
      Keeps-get_pod_by_network_connection libs cluster Seen is_cache honest addr s f
  Kept-by_uid_or_connection addr (some uid) s f =
      Kept-or_by_connection addr _
        (Keeps-get_pod_by_uid libs cluster Seen is_cache honest (as_string uid) s f)

  Kept-add_owner :
      (kind : Kind) (o : KubeObject) (l : Attributes) (s : W × KubeClient libs)
      → Kept s
      → Kept (add_owner libs cluster kind o l s).0
  Kept-add_owner replica_set o l s f =
      Keeps-resolve_relevant_owner_reference libs cluster Seen is_cache honest o s f
  Kept-add_owner job o l s f =
      Keeps-resolve_relevant_owner_reference libs cluster Seen is_cache honest o s f
  Kept-add_owner pod o l s f = f
  Kept-add_owner daemon_set o l s f = f
  Kept-add_owner deployment o l s f = f
  Kept-add_owner stateful_set o l s f = f
  Kept-add_owner cron_job o l s f = f

  Kept-add_found_owner :
      (l : Attributes) (o : Lookup libs cluster KubeObject)
      → Kept o.0
      → Kept (add_found_owner libs cluster l o).0
  Kept-add_found_owner l (s, inl e) f = f
  Kept-add_found_owner l (s, inr none) f = f
  Kept-add_found_owner l (s, inr (some o)) f = Kept-add_owner o.kind o l s f

  Kept-after_namespace :
      (o : KubeObject) (l : Attributes) (r : (W × KubeClient libs) × Option Namespace)
      → Kept r.0
      → Kept (after_namespace libs cluster o l r).0
  Kept-after_namespace o l (s, n) f =
      Kept-add_found_owner (put_namespace n l) _
        (Keeps-resolve_relevant_owner_reference libs cluster Seen is_cache honest o s f)

  Kept-add_pod :
      (l : Attributes) (r : (W × KubeClient libs) × Option KubeObject)
      → Kept r.0
      → Kept (add_pod libs cluster l r).0
  Kept-add_pod l (s, none) f = f
  Kept-add_pod l (s, some o) f =
      Kept-after_namespace o (put_pod o l) _
        (Keeps-get_namespace_by_name libs cluster Seen is_cache honest o.meta.namespace s f)

  pub Kept-add_resource_attributes :
      (cluster_uid : String) (addr : Option Addr) (l : Attributes) (s : W × KubeClient libs)
      → Kept s
      → Kept (add_resource_attributes libs cluster cluster_uid addr l s).0
  unfolding add_resource_attributes find_pod
  Kept-add_resource_attributes cluster_uid addr l (w, c) f =
      let l' = add_resource_cluster_attributes c.provider_id cluster_uid l in
      Kept-add_pod l' _ (Kept-by_uid_or_connection addr (get_attribute pod_uid_key l') (w, c) f)

  pub Kept-process_traces :
      (cluster_uid : String) (addr : Option Addr) (ls : List Attributes) (s : W × KubeClient libs)
      → Kept s
      → Kept (process_traces libs cluster cluster_uid addr ls s).0
  unfolding process_traces
  Kept-process_traces cluster_uid addr [] s f = f
  Kept-process_traces cluster_uid addr (l ∷ rest) s f =
      Kept-process_traces cluster_uid addr rest _
        (Kept-add_resource_attributes cluster_uid addr l s f)

  Kept-put_owner_uid :
      (l : Attributes) (o : Lookup libs cluster KubeObject)
      → Kept o.0
      → Kept (put_owner_uid libs cluster l o).0
  Kept-put_owner_uid l (s, inl e) f = f
  Kept-put_owner_uid l (s, inr none) f = f
  Kept-put_owner_uid l (s, inr (some o)) f = f

  Kept-look_up_owner :
      (kind : Option Kind) (name namespace : String) (l : Attributes) (s : W × KubeClient libs)
      → Kept s
      → Kept (look_up_owner libs cluster kind name namespace l s).0
  Kept-look_up_owner none name namespace l s f = f
  Kept-look_up_owner (some kind) name namespace l s f =
      Kept-put_owner_uid l _
        (Keeps-get_kind libs cluster Seen is_cache honest kind name namespace "" s f)

  Kept-with_owner_of :
      (kind name namespace : Option Value) (l : Attributes) (s : W × KubeClient libs)
      → Kept s
      → Kept (with_owner_of libs cluster kind name namespace l s).0
  Kept-with_owner_of (some k) (some n) (some ns) l s f =
      Kept-look_up_owner (owner_kind (as_string k)) (as_string n) (as_string ns) l s f
  Kept-with_owner_of none name namespace l s f = f
  Kept-with_owner_of (some k) none namespace l s f = f
  Kept-with_owner_of (some k) (some n) none l s f = f

  Kept-add_owner_uid_attribute :
      (ls : List Attributes) (s : W × KubeClient libs)
      → Kept s
      → Kept (add_owner_uid_attribute libs cluster ls s).0
  unfolding add_owner_uid_attribute add_owner_uid
  Kept-add_owner_uid_attribute [] s f = f
  Kept-add_owner_uid_attribute (l ∷ rest) s f = Kept-add_owner_uid_attribute rest _ (
      Kept-with_owner_of (get_attribute "owner_kind" l) (get_attribute "owner_name" l)
        (get_attribute "namespace" l) l s f)

  -- Where it does not panic, the client is faithful afterwards.
  abbrev pub KeptOutcome : {A : Type 0} → Outcome ((W × KubeClient libs) × A) → Type 0
  KeptOutcome (ok (s, a)) = Kept s
  KeptOutcome (err e) = true ≡ true
  KeptOutcome panicked = true ≡ true

  KeptOutcome-enrich_metric :
      (m : Metric) (s : W × KubeClient libs) → Kept s → KeptOutcome (enrich_metric libs cluster m s)
  unfolding enrich_metric
  KeptOutcome-enrich_metric m s f = elim (Bool-cases (is_owner_metric m.name)) [
    | inl h ↦ rw h (of_gauge m.gauge)
    | inr h ↦ rw h f
  ]
    where
      of_gauge : (g : Option (List Attributes)) → KeptOutcome (enrich_gauge libs cluster m g s)
      of_gauge none = refl
      of_gauge (some points) = Kept-add_owner_uid_attribute points s f

  module _ {A : Type 0} (enrich : A → W × KubeClient libs → Outcome ((W × KubeClient libs) × A))
      (step : (x : A) (s : W × KubeClient libs) → Kept s → KeptOutcome (enrich x s)) where
    KeptOutcome-prepend :
        (x : A) (r : Outcome ((W × KubeClient libs) × List A))
        → KeptOutcome r
        → KeptOutcome (prepend libs cluster enrich x r)
    KeptOutcome-prepend x (ok (s, xs)) f = f
    KeptOutcome-prepend x (err e) f = refl
    KeptOutcome-prepend x panicked f = refl

    KeptOutcome-then_rest :
        (rest : W × KubeClient libs → Outcome ((W × KubeClient libs) × List A))
        (r : Outcome ((W × KubeClient libs) × A))
        → ((s : W × KubeClient libs) → Kept s → KeptOutcome (rest s))
        → KeptOutcome r
        → KeptOutcome (then_rest libs cluster enrich rest r)
    KeptOutcome-then_rest rest (ok (s, x)) h f = KeptOutcome-prepend x (rest s) (h s f)
    KeptOutcome-then_rest rest (err e) h f = refl
    KeptOutcome-then_rest rest panicked h f = refl

    KeptOutcome-enrich_all :
        (xs : List A) (s : W × KubeClient libs)
        → Kept s
        → KeptOutcome (enrich_all libs cluster enrich xs s)
    KeptOutcome-enrich_all [] s f = f
    KeptOutcome-enrich_all (x ∷ rest) s f =
        KeptOutcome-then_rest (enrich_all libs cluster enrich rest) (enrich x s)
          (KeptOutcome-enrich_all rest) (step x s f)

  KeptOutcome-with_scopes :
      (l : Attributes) (r : Outcome ((W × KubeClient libs) × List (List Metric)))
      → KeptOutcome r
      → KeptOutcome (with_scopes libs cluster l r)
  KeptOutcome-with_scopes l (ok (s, scopes)) f = f
  KeptOutcome-with_scopes l (err e) f = refl
  KeptOutcome-with_scopes l panicked f = refl

  KeptOutcome-enrich_resource_metrics :
      (cluster_uid : String) (rm : ResourceMetrics) (s : W × KubeClient libs)
      → Kept s
      → KeptOutcome (enrich_resource_metrics libs cluster cluster_uid rm s)
  unfolding enrich_resource_metrics add_owner_uid_attribute_to_owner_metrics
  KeptOutcome-enrich_resource_metrics cluster_uid rm (w, c) f =
      KeptOutcome-with_scopes
        (add_resource_cluster_attributes c.provider_id cluster_uid rm.attributes) _
        (KeptOutcome-enrich_all (enrich_all libs cluster (enrich_metric libs cluster))
          (KeptOutcome-enrich_all (enrich_metric libs cluster) KeptOutcome-enrich_metric)
          rm.scope_metrics (w, c) f)

  pub KeptOutcome-process_metrics :
      (cluster_uid : String) (rms : List ResourceMetrics) (s : W × KubeClient libs)
      → Kept s
      → KeptOutcome (process_metrics libs cluster cluster_uid rms s)
  unfolding process_metrics
  KeptOutcome-process_metrics cluster_uid rms s f =
      KeptOutcome-enrich_all (enrich_resource_metrics libs cluster cluster_uid)
        (KeptOutcome-enrich_resource_metrics cluster_uid) rms s f
