-- ===== src/Examples.antt =====
-- Concrete objects and services on which the children apply the theorems.
pub mod Controlling
pub mod Enriched
pub mod Enriching
pub mod Honesty
pub mod Mutating
pub mod NameSort
pub mod Reconciling
pub mod Quickstarting
pub mod Requesting
pub mod TimeSort
pub mod Webhooks
use lumigo_kubernetes_operat.Prelude.{
  String, true, false, Option, none, some, [], ◌∷◌, ◌==◌, if◌then◌else◌, Outcome, ok, err, errorf,
}
use lumigo_kubernetes_operat.K8s.{
  EnvVar, Container, PodSecurityContext, PodSpec, ObjectMeta, Workload, PodTemplateSpec,
  OwnerReference, Libs,
}
use lumigo_kubernetes_operat.Api.{
  Lumigo, LumigoCondition, LumigoSpec, Credentials, active, status_true,
}
use lumigo_kubernetes_operat.Mutation.Mutator.{
  InjectingMutator, OperatorConfig, new_injecting_mutator_from_spec,
}

-- `parse_group_version` knows the two versions that the examples use.
abbrev pub libs : Libs
libs = record {
  new_scaled_quantity = λ value scale. "200M";
  parse_group_version = λ version.
      if version == "apps/v1"
      then ok ("apps", "v1")
      else if version == "v1"
      then ok ("", "v1")
      else err (errorf "unexpected GroupVersion string: %v" (version ∷ []));
}

abbrev pub config : OperatorConfig
config = record {
  operator_version = "1.2.3";
  injector_image = "lumigo/injector:1";
  otlp_service_url = "http://proxy";
  otlp_logs_service_url = "http://proxy/logs";
}

abbrev pub spec : LumigoSpec
spec = record {
  lumigo_token = record { secret_ref = record { name = "lumigo-credentials"; key = "token" } };
  tracing = record {
    enabled = none;
    injection = record {
      enabled = none;
      inject_lumigo_into_existing_resources_on_creation = none;
      remove_lumigo_from_resources_on_deletion = some true;
    };
  };
  logging = record { enabled = some true };
  infrastructure = record { enabled = none; kube_events = record { enabled = none } };
}

abbrev pub mutator : InjectingMutator
mutator = record {
  autotrace_label_value = "lumigo-operator.v1.2.3";
  endpoint = "http://proxy";
  logs_endpoint = "http://proxy/logs";
  enable_logs = true;
  enable_traces = true;
  token = spec.lumigo_token;
  injector_image = "lumigo/injector:1";
}

abbrev home_env : EnvVar
home_env = record { name = "HOME"; value = "/root"; value_from = none }

abbrev pub web_container : Container
web_container = record {
  name = "web";
  image = "web:1";
  env = some (home_env ∷ []);
  security_context = none;
  volume_mounts = none;
  other = "";
}

abbrev pub pod_context : PodSecurityContext
pod_context = record { fs_group = some 1000; run_as_non_root = some true; other = "" }

abbrev pub pod_spec : PodSpec
pod_spec = record {
  volumes = none;
  init_containers = none;
  containers = some (web_container ∷ []);
  security_context = some pod_context;
  other = "";
}

-- Without the security context that the API server always sets.
abbrev pub bare_pod_spec : PodSpec
bare_pod_spec = record {
  volumes = none;
  init_containers = none;
  containers = some (web_container ∷ []);
  security_context = none;
  other = "";
}

abbrev pub meta : ObjectMeta
meta = record {
  name = "web";
  namespace = "shop";
  uid = "1";
  labels = some (("app", "web") ∷ []);
  owner_references = [];
  other = "";
}

abbrev pub web_of : PodSpec → Workload
web_of s = record { meta = meta; template = record { meta = meta; spec = s }; other = "" }

abbrev pub web : Workload
web = web_of pod_spec

abbrev pub deployment_owner : OwnerReference
deployment_owner = record { api_version = "apps/v1"; kind = "Deployment"; name = "web" }

abbrev node_owner : OwnerReference
node_owner = record { api_version = "v1"; kind = "Node"; name = "n" }

abbrev pub owned_web : Workload
owned_web = record web {
  meta = record meta { owner_references = node_owner ∷ deployment_owner ∷ [] };
}

abbrev pub active_condition : LumigoCondition
active_condition = record {
  condition_type = active;
  status = status_true;
  last_update_time = 1;
  last_transition_time = 1;
  message = "Lumigo is ready";
}

abbrev pub new_lumigo : Lumigo
new_lumigo = record {
  meta = record {
    name = "lumigo";
    namespace = "shop";
    uid = "2";
    creation_timestamp = 1;
    deletion_timestamp = none;
    finalizers = [];
  };
  spec = spec;
  status = record { conditions = []; instrumented_resources = none };
}

abbrev pub active_lumigo : Lumigo
active_lumigo = record new_lumigo {
  status = record { conditions = active_condition ∷ []; instrumented_resources = none };
}
