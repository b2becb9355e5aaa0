-- ===== src/Api.antt =====
-- The Lumigo custom resource (controller/src/api/v1alpha1/lumigo_types.go) and the settings read
-- from labels (controller/src/types/autotrace.go). A pointer to a bool is an `Option Bool`.
pub mod Events
use lumigo_kubernetes_operat.Prelude.{ℕ, String, Bool, Option, List, Slice}
use lumigo_kubernetes_operat.K8s.{ObjectMeta}

abbrev pub resource_finalizer : String
resource_finalizer = "operator.lumigo.io/lumigo-finalizer"

pub record KubernetesSecretRef : Type 0 where
  pub name : String
  pub key : String

pub record Credentials : Type 0 where
  pub secret_ref : KubernetesSecretRef

pub record InjectionSpec : Type 0 where
  pub enabled : Option Bool
  pub inject_lumigo_into_existing_resources_on_creation : Option Bool
  pub remove_lumigo_from_resources_on_deletion : Option Bool

pub record TracingSpec : Type 0 where
  pub enabled : Option Bool
  pub injection : InjectionSpec

pub record LoggingSpec : Type 0 where
  pub enabled : Option Bool

pub record KubeEventsSpec : Type 0 where
  pub enabled : Option Bool

pub record InfrastructureSpec : Type 0 where
  pub enabled : Option Bool
  pub kube_events : KubeEventsSpec

pub record LumigoSpec : Type 0 where
  pub lumigo_token : Credentials
  pub tracing : TracingSpec
  pub logging : LoggingSpec
  pub infrastructure : InfrastructureSpec

pub data LumigoConditionType : Type 0 where
  active error : LumigoConditionType

-- corev1.ConditionStatus
pub data ConditionStatus : Type 0 where
  status_true status_false status_unknown : ConditionStatus

-- A metav1.Time is a number of seconds.
pub record LumigoCondition : Type 0 where
  pub condition_type : LumigoConditionType
  pub status : ConditionStatus
  pub last_update_time : ℕ
  pub last_transition_time : ℕ
  pub message : String

-- corev1.ObjectReference
pub record ObjectReference : Type 0 where
  pub api_version : String
  pub kind : String
  pub namespace : String
  pub name : String
  pub uid : String
  pub resource_version : String

pub record LumigoStatus : Type 0 where
  pub conditions : List LumigoCondition
  pub instrumented_resources : Slice ObjectReference

-- The metadata of a Lumigo instance: what the operator reads of its metav1.ObjectMeta.
pub record LumigoMeta : Type 0 where
  pub name : String
  pub namespace : String
  pub uid : String
  pub creation_timestamp : ℕ
  pub deletion_timestamp : Option ℕ
  pub finalizers : List String

pub record Lumigo : Type 0 where
  pub meta : LumigoMeta
  pub spec : LumigoSpec
  pub status : LumigoStatus

pub record AutoTraceSettings : Type 0 where
  pub is_auto_traced : Bool
  pub traces_enabled : Bool
  pub logs_enabled : Bool
  pub secret_name : String
  pub secret_key : String
