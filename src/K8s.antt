-- ===== src/K8s.antt =====
-- The Kubernetes API objects, as far as the operator reads or writes them. Their types are those of
-- k8s.io/api; the fields that the operator never touches are carried along as one opaque text,
-- `other`, so that equality of objects is equality of all their fields.
pub mod Equality
use lumigo_kubernetes_operat.Prelude.{
  ℕ, String, Bool, Option, none, List, Slice, Labels, Outcome, Error,
}

pub record SecretKeySelector : Type 0 where
  pub name : String
  pub key : String
  pub is_optional : Option Bool

pub record EnvVarSource : Type 0 where
  pub secret_key_ref : Option SecretKeySelector
  pub other : String

pub record EnvVar : Type 0 where
  pub name : String
  pub value : String
  pub value_from : Option EnvVarSource

pub record VolumeMount : Type 0 where
  pub name : String
  pub read_only : Bool
  pub mount_path : String
  pub other : String

-- `size_limit` is a resource.Quantity in memory, which only its own package looks into.
pub record EmptyDirVolumeSource : Type 0 where
  pub size_limit : Option String
  pub other : String

pub record Volume : Type 0 where
  pub name : String
  pub empty_dir : Option EmptyDirVolumeSource
  pub other : String

-- User and group ids are int64 values that are copied and never computed with.
pub record SecurityContext : Type 0 where
  pub allow_privilege_escalation : Option Bool
  pub privileged : Option Bool
  pub read_only_root_filesystem : Option Bool
  pub run_as_non_root : Option Bool
  pub run_as_user : Option ℕ
  pub run_as_group : Option ℕ
  pub other : String

pub record Container : Type 0 where
  pub name : String
  pub image : String
  pub env : Slice EnvVar
  pub security_context : Option SecurityContext
  pub volume_mounts : Slice VolumeMount
  pub other : String

pub record PodSecurityContext : Type 0 where
  pub fs_group : Option ℕ
  pub run_as_non_root : Option Bool
  pub other : String

pub record PodSpec : Type 0 where
  pub volumes : Slice Volume
  pub init_containers : Slice Container
  pub containers : Slice Container
  pub security_context : Option PodSecurityContext
  pub other : String

pub record OwnerReference : Type 0 where
  pub api_version : String
  pub kind : String
  pub name : String

pub record ObjectMeta : Type 0 where
  pub name : String
  pub namespace : String
  pub uid : String
  pub labels : Labels
  pub owner_references : List OwnerReference
  pub other : String

pub record PodTemplateSpec : Type 0 where
  pub meta : ObjectMeta
  pub spec : PodSpec

-- A DaemonSet, Deployment, ReplicaSet, StatefulSet, CronJob or Job: its metadata and the template of
-- its pods (for a CronJob, the template in its job template).
pub record Workload : Type 0 where
  pub meta : ObjectMeta
  pub template : PodTemplateSpec
  pub other : String

pub data WorkloadKind : Type 0 where
  daemon_set deployment replica_set stateful_set cron_job job : WorkloadKind

-- A value with its dynamic type, for the type switches of the program.
pub data Resource : Type 0 where
  object : WorkloadKind → Workload → Resource
  other_resource : String → Resource

-- The result of a call of the Kubernetes API: `apierrors.IsNotFound` tells the two failures apart.
pub data ApiResult (A : Type 0) : Type 0 where
  found : A → ApiResult A
  not_found : Error → ApiResult A
  failed : Error → ApiResult A

-- Operations of the Kubernetes libraries that the mutation calls.
pub record Libs : Type 0 where
  -- resource.NewScaledQuantity
  pub new_scaled_quantity : ℕ → ℕ → String
  -- schema.ParseGroupVersion: the group and the version
  pub parse_group_version : String → Outcome (String × String)
