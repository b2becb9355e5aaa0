-- ===== src/Examples/Enriching.antt =====
-- The theorems on the enricher, for the small cluster of Enriched.
use lumigo_kubernetes_operat.Prelude.{
  ◌∷◌, [], ◌≡◌, ◌↔◌, List, true, none, some, inr, refl, false, panicked,
}
use lumigo_kubernetes_operat.Enricher.Objects.{pod, replica_set, is_gvk_relevant, kind_of_gvk}
use lumigo_kubernetes_operat.Enricher.Retry.{Spends, retry, retry-Spends}
use lumigo_kubernetes_operat.Enricher.Client.{
  KubeClient, lookup_object, after_cache, fetch_object, after_get_object, register_pod, add_pod_uid,
  add_to_cache, register_replica_set,
}
use lumigo_kubernetes_operat.Enricher.Owners.{
  get_root_owner_reference, walk_to_root, get_first_relevant_owner_reference_as_object_reference,
  resolve_owner_references, get_first_relevant_owner_reference,
}
use lumigo_kubernetes_operat.Enricher.Raw.{field, empty_object, opaque}
use lumigo_kubernetes_operat.Enricher.Attributes.{Attributes, add_resource_attributes, str}
use lumigo_kubernetes_operat.Enricher.Attributes.Kept.{
  IsEnriched, add_resource_attributes-IsEnriched,
}
use lumigo_kubernetes_operat.Enricher.Logs.{ResourceLogs, map_body}
use lumigo_kubernetes_operat.Enricher.Faithful.{IsFaithful}
use lumigo_kubernetes_operat.Enricher.Faithful.Lookups.{IsLookup, lookup_object-IsLookup}
use lumigo_kubernetes_operat.Enricher.Roots.Walks.{IsRootAnswer, get_root_owner_reference-ends}
use lumigo_kubernetes_operat.Enricher.Watching.{on_add, cached_event_handler}
use lumigo_kubernetes_operat.Enricher.Caches.{typed}
use lumigo_kubernetes_operat.Enricher.Attributes.{find_pod, get_attribute, as_string}
use lumigo_kubernetes_operat.Enricher.Client.{get_pod_by_uid}
use lumigo_kubernetes_operat.Enricher.Metrics.{ResourceMetrics, process_metrics}
use lumigo_kubernetes_operat.Enricher.Processing.Attribution.{IsAttributed, find_pod-IsAttributed}
use lumigo_kubernetes_operat.Enricher.Processing.Panics.{
  any_of, has_ungauged, process_metrics_panics_iff,
}
use lumigo_kubernetes_operat.Examples.Enriched.{libs, cluster, client, pod_reference, web_pod}
use lumigo_kubernetes_operat.Examples.Honesty.{
  IsThere, libs-IsCache, cluster-IsHonest, client-IsFaithful, web_1_named, pod_reference_named,
  rank, rank-IsAcyclic, rank-bounded,
}

-- a lookup of a ReplicaSet that does not exist
retry-Spends_example :
    Spends
      (λ w. w.0)
      (λ w. w.1)
      (0, 0)
      5
      1_500_000_000
      (retry cluster.sleep (cluster.get_object replica_set "web-2" "shop" "") (0, 0))
retry-Spends_example =
    retry-Spends cluster.sleep (cluster.get_object replica_set "web-2" "shop" "") (λ w. w.0)
      (λ w. w.1) (λ n w. refl) (λ n w. refl) (λ w. refl) (λ w. refl) (0, 0)

lookup_object-IsLookup_example :
    IsFaithful libs IsThere
      (lookup_object libs cluster replica_set "web-1" "shop" "" ((0, 0), client)).0.1
    × IsLookup IsThere cluster replica_set "web-1" "shop" ""
        (lookup_object libs cluster replica_set "web-1" "shop" "" ((0, 0), client)).1
lookup_object-IsLookup_example =
    lookup_object-IsLookup libs cluster IsThere libs-IsCache cluster-IsHonest replica_set "web-1"
      "shop" "" web_1_named (0, 0) client client-IsFaithful

get_root_owner_reference-ends_example :
    IsFaithful libs IsThere
      (get_root_owner_reference libs cluster 4 pod_reference ((0, 0), client)).0.1
    × IsRootAnswer libs cluster IsThere pod_reference
        (get_root_owner_reference libs cluster 4 pod_reference ((0, 0), client)).1
get_root_owner_reference-ends_example =
    get_root_owner_reference-ends libs cluster IsThere libs-IsCache cluster-IsHonest rank
      rank-IsAcyclic 4 pod_reference ((0, 0), client) (rank-bounded pod_reference)
      pod_reference_named client-IsFaithful

abbrev attributes : Attributes
attributes = ("service.name", str "web") ∷ ("k8s.pod.uid", str "p1") ∷ []

add_resource_attributes-IsEnriched_example :
    IsEnriched client.provider_id "c1" attributes
      (add_resource_attributes libs cluster "c1" none attributes ((0, 0), client)).1
add_resource_attributes-IsEnriched_example =
    add_resource_attributes-IsEnriched libs cluster "c1" none attributes (0, 0) client

abbrev event_logs : ResourceLogs
event_logs = record {
  attributes = attributes;
  scope_logs =
      record {
        name = "lumigo-operator.k8s-events";
        records =
            record { attributes = []; body = map_body (field "kind" (opaque "Event") empty_object) }
            ∷ [];
      }
      ∷ [];
}

-- The root owner of the pod is the Deployment, and the event is given its name.
root_of_pod :
    (get_root_owner_reference libs cluster 4 pod_reference ((0, 0), client)).1
    ≡ some (inr (field "name" (opaque "web") empty_object))
unfolding get_root_owner_reference walk_to_root
    get_first_relevant_owner_reference_as_object_reference resolve_owner_references kind_of_gvk
    lookup_object after_cache fetch_object after_get_object retry get_first_relevant_owner_reference
    is_gvk_relevant register_pod add_pod_uid add_to_cache register_replica_set
root_of_pod = refl

abbrev fresh_client : KubeClient libs
fresh_client = record {
  provider_id = "";
  namespaces = [];
  pod_uid_cache = [];
  pod_cache = [];
  daemon_set_cache = [];
  deployment_cache = [];
  replica_set_cache = [];
  stateful_set_cache = [];
  cron_job_cache = [];
  job_cache = [];
  object_resource_versions = [];
  is_started = false;
}

-- a notice of the pod, for a client that New has just made
abbrev noticed_client : KubeClient libs
noticed_client = cached_event_handler libs pod (on_add (typed web_pod)) fresh_client

pod_of_attributes : (find_pod libs cluster none attributes ((0, 0), client)).1 ≡ some web_pod
unfolding find_pod get_pod_by_uid get_attribute as_string
pod_of_attributes = refl

find_pod-IsAttributed_example : IsAttributed libs cluster IsThere none attributes web_pod
find_pod-IsAttributed_example =
    find_pod-IsAttributed libs cluster IsThere none attributes ((0, 0), client) web_pod
      client-IsFaithful pod_of_attributes

-- a sum that is named as an owner metric
abbrev owner_metrics : List ResourceMetrics
owner_metrics =
    record {
      attributes = [];
      scope_metrics = (record { name = "kube_pod_owner"; gauge = none } ∷ []) ∷ [];
    }
    ∷ []

process_metrics_panics_iff_example :
    (process_metrics libs cluster "c1" owner_metrics ((0, 0), client) ≡ panicked)
    ↔ (any_of has_ungauged owner_metrics ≡ true)
process_metrics_panics_iff_example =
    process_metrics_panics_iff libs cluster "c1" owner_metrics ((0, 0), client)
