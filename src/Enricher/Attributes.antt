-- ===== src/Enricher/Attributes.antt =====
-- The resource attributes of telemetry: addResourceClusterAttributes, addResourceAttributes and
-- getPod of processor.go, and the start of the processor.
pub mod Puts
pub mod Kept
use lumigo_kubernetes_operat.Prelude.{
  String, Bool, true, false, Option, none, some, List, [], ◌∷◌, ◌==◌, if◌then◌else◌, Fallible, inl,
  inr, Error, errorf, wrapf,
}
use lumigo_kubernetes_operat.Enricher.Objects.{
  Kind, pod, daemon_set, deployment, replica_set, stateful_set, cron_job, job, KubeObject,
  Namespace,
}
use lumigo_kubernetes_operat.Enricher.External.{Libraries, Cluster}
use lumigo_kubernetes_operat.Enricher.Caches.{typed}
use lumigo_kubernetes_operat.Enricher.Client.{
  KubeClient, Lookup, get_cluster_uid, get_namespace_by_name, get_pod_by_uid,
}
use lumigo_kubernetes_operat.Enricher.Owners.{resolve_relevant_owner_reference}
use lumigo_kubernetes_operat.Enricher.Watching.{Addr, start_client, get_pod_by_network_connection}

-- A value of an attribute: a text, a truth value, or another with what `AsString` makes of it.
pub data Value : Type 0 where
  str : String → Value
  truth : Bool → Value
  other_value : String → Value

unfoldable pub as_string : Value → String
as_string (str s) = s
as_string (truth true) = "true"
as_string (truth false) = "false"
as_string (other_value s) = s

-- `pcommon.Map`
abbrev pub Attributes : Type 0
Attributes = List (String × Value)

-- `Get`
unfoldable pub get_attribute : String → Attributes → Option Value
get_attribute key [] = none
get_attribute key ((k, v) ∷ rest) = if k == key then some v else get_attribute key rest

-- `PutStr`, `PutBool`
unfoldable pub put_attribute : String → Value → Attributes → Attributes
put_attribute key value [] = (key, value) ∷ []
put_attribute key value ((k, v) ∷ rest) =
    let rest' = put_attribute key value rest in
    if k == key then (k, value) ∷ rest else (k, v) ∷ rest'

abbrev pub put_str : String → String → Attributes → Attributes
put_str key s = put_attribute key (str s)

-- K8SProviderIdKey, K8SClusterUIDKey and K8SNodeNameKey
abbrev pub provider_id_key : String
provider_id_key = "k8s.provider.id"

abbrev pub cluster_uid_key : String
cluster_uid_key = "k8s.cluster.uid"

abbrev pub node_name_key : String
node_name_key = "k8s.node.name"

-- The keys of go.opentelemetry.io/otel/semconv.
abbrev pub pod_uid_key : String
pod_uid_key = "k8s.pod.uid"

abbrev pub pod_name_key : String
pod_name_key = "k8s.pod.name"

abbrev pub namespace_name_key : String
namespace_name_key = "k8s.namespace.name"

abbrev pub namespace_uid_key : String
namespace_uid_key = "k8s.namespace.uid"

abbrev pub name_key : Kind → String
name_key pod = "k8s.pod.name"
name_key daemon_set = "k8s.daemonset.name"
name_key deployment = "k8s.deployment.name"
name_key replica_set = "k8s.replicaset.name"
name_key stateful_set = "k8s.statefulset.name"
name_key cron_job = "k8s.cronjob.name"
name_key job = "k8s.job.name"

abbrev pub uid_key : Kind → String
uid_key pod = "k8s.pod.uid"
uid_key daemon_set = "k8s.daemonset.uid"
uid_key deployment = "k8s.deployment.uid"
uid_key replica_set = "k8s.replicaset.uid"
uid_key stateful_set = "k8s.statefulset.uid"
uid_key cron_job = "k8s.cronjob.uid"
uid_key job = "k8s.job.uid"

-- the two `PutStr` for an owner of a kind
abbrev pub put_owner : Kind → KubeObject → Attributes → Attributes
put_owner kind o attributes =
    put_str (uid_key kind) o.meta.uid (put_str (name_key kind) o.meta.name attributes)

unfoldable pub add_resource_cluster_attributes : String → String → Attributes → Attributes
add_resource_cluster_attributes provider_id cluster_uid attributes =
    put_str cluster_uid_key cluster_uid (put_str provider_id_key provider_id attributes)

-- `k8s.pod.uid` is set only where it is missing.
abbrev pub put_pod_uid : Option Value → String → Attributes → Attributes
put_pod_uid none uid attributes = put_str pod_uid_key uid attributes
put_pod_uid (some v) uid attributes = attributes

unfoldable pub put_pod : KubeObject → Attributes → Attributes
put_pod o attributes =
    let with_node = put_str node_name_key o.node_name attributes in
    let with_uid = put_pod_uid (get_attribute pod_uid_key with_node) o.meta.uid with_node in
    put_str namespace_name_key o.meta.namespace (put_str pod_name_key o.meta.name with_uid)

abbrev pub put_namespace : Option Namespace → Attributes → Attributes
put_namespace none attributes = attributes
put_namespace (some n) attributes = put_str namespace_uid_key n.uid attributes

-- The owner of a ReplicaSet or a Job, if it is of the kind that is looked for.
unfoldable pub put_upper_owner : Kind → Fallible (Option KubeObject) → Attributes → Attributes
put_upper_owner kind (inl e) attributes = attributes
put_upper_owner kind (inr none) attributes = attributes
put_upper_owner deployment (inr (some o)) attributes = elim o.kind [
  | deployment ↦ put_owner deployment o attributes
  | _ ↦ attributes
]
put_upper_owner cron_job (inr (some o)) attributes = elim o.kind [
  | cron_job ↦ put_owner cron_job o attributes
  | _ ↦ attributes
]
put_upper_owner kind (inr (some o)) attributes = attributes

module _ (libs : Libraries) {W : Type 0} (cluster : Cluster W) where
  abbrev State : Type 0
  State = W × KubeClient libs

  abbrev pub after_cluster_uid : State × Option String → State × Fallible String
  after_cluster_uid (s, some uid) = (s, inr uid)
  after_cluster_uid (s, none) = (
    s,
    inl (
        errorf
          "cannot add cluster uid resource attributes to traces, 'kube-system' namespace not found"
          []),
  )

  abbrev pub after_start : State × Option Error → State × Fallible String
  after_start (s, some e) = (s, inl (wrapf "cannot start Kube client: %w" [] e))
  after_start (s, none) = after_cluster_uid (get_cluster_uid libs cluster s)

  -- Start of the processor: an error, or the uid of the cluster that it keeps.
  unfoldable pub start_processor : State → State × Fallible String
  start_processor s = after_start (start_client libs cluster s)

  abbrev pub or_by_connection : Option Addr → State × Option KubeObject → State × Option KubeObject
  or_by_connection addr (s, some o) = (s, some o)
  or_by_connection addr (s, none) = get_pod_by_network_connection libs cluster addr s

  abbrev pub by_uid_or_connection : Option Addr → Option Value → State → State × Option KubeObject
  by_uid_or_connection addr none s = get_pod_by_network_connection libs cluster addr s
  by_uid_or_connection addr (some uid) s =
      or_by_connection addr (get_pod_by_uid libs cluster (as_string uid) s)

  unfoldable pub find_pod : Option Addr → Attributes → State → State × Option KubeObject
  find_pod addr attributes s = by_uid_or_connection addr (get_attribute pod_uid_key attributes) s

  abbrev add_upper_owner : Kind → Attributes → Lookup libs cluster KubeObject → State × Attributes
  add_upper_owner kind attributes (s, o) = (s, put_upper_owner kind o attributes)

  -- The switch over the type of the owner of a pod.
  abbrev pub add_owner : Kind → KubeObject → Attributes → State → State × Attributes
  add_owner daemon_set o attributes s = (s, put_owner daemon_set o attributes)
  add_owner stateful_set o attributes s = (s, put_owner stateful_set o attributes)
  add_owner replica_set o attributes s =
      add_upper_owner deployment (put_owner replica_set o attributes)
        (resolve_relevant_owner_reference libs cluster (typed o) s)
  add_owner job o attributes s =
      add_upper_owner cron_job (put_owner job o attributes)
        (resolve_relevant_owner_reference libs cluster (typed o) s)
  add_owner _ o attributes s = (s, attributes)

  abbrev pub add_found_owner : Attributes → Lookup libs cluster KubeObject → State × Attributes
  add_found_owner attributes (s, inl e) = (s, attributes)
  add_found_owner attributes (s, inr none) = (s, attributes)
  add_found_owner attributes (s, inr (some o)) = add_owner o.kind o attributes s

  abbrev pub after_namespace :
      KubeObject → Attributes → State × Option Namespace → State × Attributes
  after_namespace o attributes (s, n) =
      add_found_owner (put_namespace n attributes)
        (resolve_relevant_owner_reference libs cluster (typed o) s)

  abbrev pub add_pod : Attributes → State × Option KubeObject → State × Attributes
  add_pod attributes (s, none) = (s, attributes)
  add_pod attributes (s, some o) =
      after_namespace o (put_pod o attributes)
        (get_namespace_by_name libs cluster o.meta.namespace s)

  unfoldable pub add_resource_attributes :
      String → Option Addr → Attributes → State → State × Attributes
  add_resource_attributes cluster_uid addr attributes (w, c) =
      let with_cluster = add_resource_cluster_attributes c.provider_id cluster_uid attributes in
      add_pod with_cluster (find_pod addr with_cluster (w, c))

  -- the body of processTraces: the attributes of every resource
  unfoldable pub process_traces :
      String → Option Addr → List Attributes → State → State × List Attributes
  process_traces cluster_uid addr [] s = (s, [])
  process_traces cluster_uid addr (attributes ∷ rest) s =
      let (s', attributes') = add_resource_attributes cluster_uid addr attributes s in
      let (s'', rest') = process_traces cluster_uid addr rest s' in (s'', attributes' ∷ rest')
