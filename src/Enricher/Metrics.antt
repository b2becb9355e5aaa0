-- ===== src/Enricher/Metrics.antt =====
-- The uids of owners in the metrics of kube-state-metrics: addOwnerUidAttribute,
-- addOwnerUidAttributeToOwnerMetrics and processMetrics of processor.go.
use lumigo_kubernetes_operat.Prelude.{
  String, Bool, ◌||◌, Option, none, some, List, [], ◌∷◌, ◌==◌, if◌then◌else◌, inl, inr, Outcome, ok,
  err, panicked,
}
use lumigo_kubernetes_operat.Enricher.Objects.{
  Kind, daemon_set, deployment, replica_set, stateful_set, cron_job, job, KubeObject,
}
use lumigo_kubernetes_operat.Enricher.External.{Libraries, Cluster}
use lumigo_kubernetes_operat.Enricher.Client.{KubeClient, Lookup, get_kind}
use lumigo_kubernetes_operat.Enricher.Attributes.{
  Value, as_string, Attributes, get_attribute, put_str, add_resource_cluster_attributes,
}

-- A metric, with the attributes of its data points if it is a gauge.
pub record Metric : Type 0 where
  pub name : String
  pub gauge : Option (List Attributes)

pub record ResourceMetrics : Type 0 where
  pub attributes : Attributes
  pub scope_metrics : List (List Metric)

-- the kind that the chain of comparisons of `owner_kind` selects
unfoldable pub owner_kind : String → Option Kind
owner_kind s =
    if s == "ReplicaSet"
    then some replica_set
    else if s == "Deployment"
    then some deployment
    else if s == "StatefulSet"
    then some stateful_set
    else if s == "DaemonSet"
    then some daemon_set
    else if s == "Job"
    then some job
    else if s == "CronJob"
    then some cron_job
    else none

unfoldable pub is_owner_metric : String → Bool
is_owner_metric name =
    name == "kube_pod_owner" || (name == "kube_replicaset_owner" || name == "kube_job_owner")

module _ (libs : Libraries) {W : Type 0} (cluster : Cluster W) where
  abbrev State : Type 0
  State = W × KubeClient libs

  abbrev pub put_owner_uid : Attributes → Lookup libs cluster KubeObject → State × Attributes
  put_owner_uid attributes (s, inl e) = (s, attributes)
  put_owner_uid attributes (s, inr none) = (s, attributes)
  put_owner_uid attributes (s, inr (some o)) = (s, put_str "owner_uid" o.meta.uid attributes)

  abbrev pub look_up_owner : Option Kind → String → String → Attributes → State → State × Attributes
  look_up_owner none name namespace attributes s = (s, attributes)
  look_up_owner (some kind) name namespace attributes s =
      put_owner_uid attributes (get_kind libs cluster kind name namespace "" s)

  abbrev pub with_owner_of :
      Option Value → Option Value → Option Value → Attributes → State → State × Attributes
  with_owner_of (some kind) (some name) (some namespace) attributes s =
      look_up_owner (owner_kind (as_string kind)) (as_string name) (as_string namespace) attributes
        s
  with_owner_of _ _ _ attributes s = (s, attributes)

  -- one iteration of addOwnerUidAttribute
  unfoldable pub add_owner_uid : Attributes → State → State × Attributes
  add_owner_uid attributes s =
      with_owner_of (get_attribute "owner_kind" attributes) (get_attribute "owner_name" attributes)
        (get_attribute "namespace" attributes) attributes s

  unfoldable pub add_owner_uid_attribute : List Attributes → State → State × List Attributes
  add_owner_uid_attribute [] s = (s, [])
  add_owner_uid_attribute (point ∷ rest) s =
      let (s', point') = add_owner_uid point s in
      let (s'', rest') = add_owner_uid_attribute rest s' in (s'', point' ∷ rest')

  abbrev with_points : Metric → State × List Attributes → Outcome (State × Metric)
  with_points m (s, points) = ok (s, record m { gauge = some points })

  -- A metric of the three names that is not a gauge has no data points to iterate over: `Gauge()`
  -- answers a zero value, on which `DataPoints()` panics.
  abbrev pub enrich_gauge : Metric → Option (List Attributes) → State → Outcome (State × Metric)
  enrich_gauge m none s = panicked
  enrich_gauge m (some points) s = with_points m (add_owner_uid_attribute points s)

  unfoldable pub enrich_metric : Metric → State → Outcome (State × Metric)
  enrich_metric m s = if is_owner_metric m.name then enrich_gauge m m.gauge s else ok (s, m)

  module _ {A : Type 0} (enrich : A → State → Outcome (State × A)) where
    abbrev pub prepend : A → Outcome (State × List A) → Outcome (State × List A)
    prepend x (ok (s, xs)) = ok (s, x ∷ xs)
    prepend x (err e) = err e
    prepend x panicked = panicked

    abbrev pub then_rest :
        (State → Outcome (State × List A)) → Outcome (State × A) → Outcome (State × List A)
    then_rest rest (ok (s, x)) = prepend x (rest s)
    then_rest rest (err e) = err e
    then_rest rest panicked = panicked

    -- a loop over a slice, which a panic leaves
    abbrev pub enrich_all : List A → State → Outcome (State × List A)
    enrich_all [] s = ok (s, [])
    enrich_all (x ∷ rest) s = then_rest (enrich_all rest) (enrich x s)

  unfoldable pub add_owner_uid_attribute_to_owner_metrics :
      List (List Metric) → State → Outcome (State × List (List Metric))
  add_owner_uid_attribute_to_owner_metrics = enrich_all (enrich_all enrich_metric)

  abbrev pub with_scopes :
      Attributes → Outcome (State × List (List Metric)) → Outcome (State × ResourceMetrics)
  with_scopes attributes (ok (s, scopes)) =
      ok (s, record { attributes = attributes; scope_metrics = scopes })
  with_scopes attributes (err e) = err e
  with_scopes attributes panicked = panicked

  unfoldable pub enrich_resource_metrics :
      String → ResourceMetrics → State → Outcome (State × ResourceMetrics)
  enrich_resource_metrics cluster_uid rm (w, c) =
      with_scopes (add_resource_cluster_attributes c.provider_id cluster_uid rm.attributes)
        (add_owner_uid_attribute_to_owner_metrics rm.scope_metrics (w, c))

  unfoldable pub process_metrics :
      String → List ResourceMetrics → State → Outcome (State × List ResourceMetrics)
  process_metrics cluster_uid = enrich_all (enrich_resource_metrics cluster_uid)
