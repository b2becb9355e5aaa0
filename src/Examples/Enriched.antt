-- ===== src/Examples/Enriched.antt =====
-- A small cluster for the enricher: a pod of a ReplicaSet of a Deployment, and caches that are lists of
-- entries and evict nothing.

use lumigo_kubernetes_operat.Prelude.{
  ℕ, ◌+◌, String, Bool, true, false, Option, none, some, List, [], ◌∷◌, inl, inr, errorf, ◌==◌,
  ◌&&◌, if◌then◌else◌,
}
use lumigo_kubernetes_operat.K8s.{ApiResult, found, not_found}
use lumigo_kubernetes_operat.Enricher.Objects.{
  GroupVersionKind, Kind, pod, deployment, replica_set, OwnerReference, ObjectMeta, KubeObject,
  Namespace, ObjectReference,
}
use lumigo_kubernetes_operat.Enricher.Raw.{field, empty_object, opaque}
use lumigo_kubernetes_operat.Enricher.External.{Libraries, Cluster}
use lumigo_kubernetes_operat.Enricher.Client.{KubeClient}

abbrev pub Entries : Type 0
Entries = List (String × KubeObject)

abbrev pub find_object : String → Entries → Option KubeObject
find_object k [] = none
find_object k ((j, o) ∷ rest) = let later = find_object k rest in if j == k then some o else later

abbrev is_some : Option KubeObject → Bool
is_some none = false
is_some (some o) = true

abbrev gvk_of : String → String → GroupVersionKind
gvk_of api_version kind =
    if api_version == "apps/v1"
    then record { group = "apps"; version = "v1"; kind = kind }
    else record { group = ""; version = api_version; kind = kind }

abbrev pub replica_set_owner : OwnerReference
replica_set_owner = record {
  api_version = "apps/v1";
  kind = "ReplicaSet";
  name = "web-1";
  uid = "r1";
  other = "";
}

abbrev pub deployment_owner : OwnerReference
deployment_owner = record {
  api_version = "apps/v1";
  kind = "Deployment";
  name = "web";
  uid = "d1";
  other = "";
}

abbrev meta_of : String → String → List OwnerReference → ObjectMeta
meta_of name uid owners = record {
  name = name;
  namespace = "shop";
  uid = uid;
  resource_version = "7";
  owner_references = owners;
  other = "";
}

abbrev no_gvk : GroupVersionKind
no_gvk = record { group = ""; version = ""; kind = "" }

abbrev pub web_pod : KubeObject
web_pod = record {
  kind = pod;
  gvk = no_gvk;
  meta = meta_of "web-1-x" "p1" (replica_set_owner ∷ []);
  node_name = "node-1";
  other = "";
}

abbrev pub web_replica_set : KubeObject
web_replica_set = record {
  kind = replica_set;
  gvk = no_gvk;
  meta = meta_of "web-1" "r1" (deployment_owner ∷ []);
  node_name = "";
  other = "";
}

abbrev pub web_deployment : KubeObject
web_deployment = record {
  kind = deployment;
  gvk = no_gvk;
  meta = meta_of "web" "d1" [];
  node_name = "";
  other = "";
}

abbrev pub pod_reference : ObjectReference
pod_reference = record {
  api_version = "v1";
  kind = "Pod";
  name = "web-1-x";
  namespace = "shop";
  uid = "p1";
  resource_version = "7";
}

abbrev pub libs : Libraries
libs = record {
  Cache = Entries;
  contains = λ c k. is_some (find_object k c);
  add = λ k o c. (k, o) ∷ c;
  get = λ k c. (c, find_object k c);
  new_cache = λ size. inr [];
  Store = List Namespace;
  empty_store = [];
  get_by_key = λ k s. inr none;
  store_add = λ n s. (n ∷ s, none);
  from_api_version_and_kind = gvk_of;
  to_api_version_and_kind = λ gvk. (gvk.version, gvk.kind);
  gvk_string = λ gvk. gvk.kind;
  type_string = λ kind. "*v1.Object";
  format_owner_reference = λ r. r.name;
  format_object_reference = λ r. r.name;
  to_lower = λ s. s;
  new_not_found = λ group resource name. errorf "%s %q not found" (resource ∷ name ∷ []);
  unstructured_gvk = λ body. gvk_of "v1" "Event";
  object_from_unstructured = λ kind body. inl (errorf "no object" []);
  namespace_from_unstructured = λ body. inl (errorf "no namespace" []);
  involved_object_from_unstructured = λ body. inr pod_reference;
  object_to_unstructured = λ o. inr (field "name" (opaque o.meta.name) empty_object);
  reference_to_unstructured = λ r. inr (field "name" (opaque r.name) empty_object);
  parse_ip = λ s. none;
  receive = λ sent. (sent, []);
}

-- The world counts calls and nanoseconds.
abbrev pub Counters : Type 0
Counters = ℕ × ℕ

abbrev pub missing : {A : Type 0} → ApiResult A
missing = not_found (errorf "not found" [])

abbrev pub answer : Kind → String → String → ApiResult KubeObject
answer replica_set name namespace =
    if name == "web-1" && namespace == "shop" then found web_replica_set else missing
answer deployment name namespace =
    if name == "web" && namespace == "shop" then found web_deployment else missing
answer pod name namespace =
    if name == "web-1-x" && namespace == "shop" then found web_pod else missing
answer _ name namespace = missing

abbrev pub cluster : Cluster Counters
cluster = record {
  get_object = λ kind name namespace rv w. ((w.0 + 1, w.1), answer kind name namespace);
  get_namespace =
      λ name w. ((w.0 + 1, w.1), found (record { name = name; uid = "n1"; other = "" }));
  list_pods = λ selector w. ((w.0 + 1, w.1), found (web_pod ∷ []));
  get_provider_id = λ node w. ((w.0 + 1, w.1), found "aws:///eu-central-1a/i-0");
  lookup_env = λ name. some "node-1";
  add_event_handler = λ informer w. (w, none);
  sleep = λ n w. (w.0, w.1 + n);
}

abbrev pub client : KubeClient libs
client = record {
  provider_id = "aws:///eu-central-1a/i-0";
  namespaces = [];
  pod_uid_cache = ("p1", web_pod) ∷ [];
  pod_cache = [];
  daemon_set_cache = [];
  deployment_cache = [];
  replica_set_cache = [];
  stateful_set_cache = [];
  cron_job_cache = [];
  job_cache = [];
  object_resource_versions = [];
  is_started = true;
}
