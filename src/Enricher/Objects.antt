-- ===== src/Enricher/Objects.antt =====
-- The objects and the kinds that the enricher knows: internal/relevant_gvk.go, and of
-- internal/kube.go compactObjectMeta, isGVKRelevant, gvkToGroupResource and the switches over kinds.
use lumigo_kubernetes_operat.Prelude.{
  String, Bool, true, false, ◌&&◌, Option, none, some, List, [], ◌∷◌, ◌==◌, if◌then◌else◌,
}

pub record GroupVersionKind : Type 0 where
  pub group : String
  pub version : String
  pub kind : String

abbrev pub v1_namespace : GroupVersionKind
v1_namespace = record { group = ""; version = "v1"; kind = "Namespace" }

abbrev pub v1_pod : GroupVersionKind
v1_pod = record { group = ""; version = "v1"; kind = "Pod" }

abbrev pub v1_event : GroupVersionKind
v1_event = record { group = ""; version = "v1"; kind = "Event" }

abbrev pub apps_v1_daemon_set : GroupVersionKind
apps_v1_daemon_set = record { group = "apps"; version = "v1"; kind = "DaemonSet" }

abbrev pub apps_v1_deployment : GroupVersionKind
apps_v1_deployment = record { group = "apps"; version = "v1"; kind = "Deployment" }

abbrev pub apps_v1_replica_set : GroupVersionKind
apps_v1_replica_set = record { group = "apps"; version = "v1"; kind = "ReplicaSet" }

abbrev pub apps_v1_stateful_set : GroupVersionKind
apps_v1_stateful_set = record { group = "apps"; version = "v1"; kind = "StatefulSet" }

abbrev pub batch_v1_cron_job : GroupVersionKind
batch_v1_cron_job = record { group = "batch"; version = "v1"; kind = "CronJob" }

abbrev pub batch_v1_job : GroupVersionKind
batch_v1_job = record { group = "batch"; version = "v1"; kind = "Job" }

abbrev relevant_owner_reference_group_version_kinds : List GroupVersionKind
relevant_owner_reference_group_version_kinds =
    v1_pod ∷ apps_v1_daemon_set ∷ apps_v1_deployment ∷ apps_v1_replica_set ∷ apps_v1_stateful_set
    ∷ batch_v1_cron_job ∷ batch_v1_job ∷ []

abbrev pub same_gvk : GroupVersionKind → GroupVersionKind → Bool
same_gvk g h = g.group == h.group && (g.version == h.version && g.kind == h.kind)

abbrev contains_gvk : List GroupVersionKind → GroupVersionKind → Bool
contains_gvk [] gvk = false
contains_gvk (valid_gvk ∷ rest) gvk =
    let found = contains_gvk rest gvk in if same_gvk valid_gvk gvk then true else found

unfoldable pub is_gvk_relevant : GroupVersionKind → Bool
is_gvk_relevant gvk = contains_gvk relevant_owner_reference_group_version_kinds gvk

-- The Go types of the objects that have a cache.
pub data Kind : Type 0 where
  pod daemon_set deployment replica_set stateful_set cron_job job : Kind

-- The case that a switch over the seven relevant kinds takes, if any.
unfoldable pub kind_of_gvk : GroupVersionKind → Option Kind
kind_of_gvk gvk =
    if same_gvk gvk v1_pod
    then some pod
    else if same_gvk gvk apps_v1_daemon_set
    then some daemon_set
    else if same_gvk gvk apps_v1_deployment
    then some deployment
    else if same_gvk gvk apps_v1_replica_set
    then some replica_set
    else if same_gvk gvk apps_v1_stateful_set
    then some stateful_set
    else if same_gvk gvk batch_v1_cron_job
    then some cron_job
    else if same_gvk gvk batch_v1_job
    then some job
    else none

pub record OwnerReference : Type 0 where
  pub api_version : String
  pub kind : String
  pub name : String
  pub uid : String
  pub other : String

pub record ObjectMeta : Type 0 where
  pub name : String
  pub namespace : String
  pub uid : String
  pub resource_version : String
  pub owner_references : List OwnerReference
  pub other : String

-- A Pod, DaemonSet, Deployment, ReplicaSet, StatefulSet, CronJob or Job. `gvk` is what its TypeMeta
-- says, which is empty in an object that a typed client returns; `node_name` is `Spec.NodeName`, of
-- pods alone.
pub record KubeObject : Type 0 where
  pub kind : Kind
  pub gvk : GroupVersionKind
  pub meta : ObjectMeta
  pub node_name : String
  pub other : String

pub record Namespace : Type 0 where
  pub name : String
  pub uid : String
  pub other : String

pub record ObjectReference : Type 0 where
  pub api_version : String
  pub kind : String
  pub name : String
  pub namespace : String
  pub uid : String
  pub resource_version : String

abbrev compact_object_meta : ObjectMeta → ObjectMeta
compact_object_meta o = record {
  name = o.name;
  namespace = o.namespace;
  uid = o.uid;
  resource_version = o.resource_version;
  owner_references = o.owner_references;
  other = "";
}

-- The `compactorFunc` of each cache: an object with nothing but its compact metadata.
abbrev pub compact : KubeObject → KubeObject
compact o = record {
  kind = o.kind;
  gvk = record { group = ""; version = ""; kind = "" };
  meta = compact_object_meta o.meta;
  node_name = "";
  other = "";
}
