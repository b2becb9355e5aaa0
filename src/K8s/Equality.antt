-- ===== src/K8s/Equality.antt =====
-- reflect.DeepEqual on pod specs, environments and volume mounts: equality of all fields, where a
-- nil slice or pointer differs from an empty one.
use mathlib.Core.Bool.{decide, decide_iff}
use lumigo_kubernetes_operat.Prelude.{◌≡◌, ◌↔◌, Bool, true, Slice, String-discrete}
use native.Mathlib.Decide.{ℕ_discrete}
use lumigo_kubernetes_operat.K8s.{
  SecretKeySelector, EnvVarSource, EnvVar, VolumeMount, EmptyDirVolumeSource, Volume,
  SecurityContext, Container, PodSecurityContext, PodSpec,
}

SecretKeySelector-discrete : Discrete SecretKeySelector
SecretKeySelector-discrete = hlevel String-discrete

EnvVarSource-discrete : Discrete EnvVarSource
EnvVarSource-discrete = hlevel (String-discrete, SecretKeySelector-discrete)

EnvVar-discrete : Discrete EnvVar
EnvVar-discrete = hlevel (String-discrete, EnvVarSource-discrete)

VolumeMount-discrete : Discrete VolumeMount
VolumeMount-discrete = hlevel String-discrete

EmptyDirVolumeSource-discrete : Discrete EmptyDirVolumeSource
EmptyDirVolumeSource-discrete = hlevel String-discrete

Volume-discrete : Discrete Volume
Volume-discrete = hlevel (String-discrete, EmptyDirVolumeSource-discrete)

SecurityContext-discrete : Discrete SecurityContext
SecurityContext-discrete = hlevel (String-discrete, ℕ_discrete)

Container-discrete : Discrete Container
Container-discrete =
    hlevel (String-discrete, EnvVar-discrete, SecurityContext-discrete, VolumeMount-discrete)

PodSecurityContext-discrete : Discrete PodSecurityContext
PodSecurityContext-discrete = hlevel (String-discrete, ℕ_discrete)

PodSpec-discrete : Discrete PodSpec
PodSpec-discrete =
    hlevel (String-discrete, Volume-discrete, Container-discrete, PodSecurityContext-discrete)

env-discrete : Discrete (Slice EnvVar)
env-discrete = hlevel EnvVar-discrete

mounts-discrete : Discrete (Slice VolumeMount)
mounts-discrete = hlevel VolumeMount-discrete

unfoldable pub deep_equal : PodSpec → PodSpec → Bool
unfolding decide String-discrete ℕ_discrete SecretKeySelector-discrete EnvVarSource-discrete
    EnvVar-discrete VolumeMount-discrete EmptyDirVolumeSource-discrete Volume-discrete
    SecurityContext-discrete Container-discrete PodSecurityContext-discrete PodSpec-discrete
deep_equal a b = decide (PodSpec-discrete a b)

unfoldable pub deep_equal_env : Slice EnvVar → Slice EnvVar → Bool
unfolding decide String-discrete SecretKeySelector-discrete EnvVarSource-discrete EnvVar-discrete
    env-discrete
deep_equal_env a b = decide (env-discrete a b)

unfoldable pub deep_equal_mounts : Slice VolumeMount → Slice VolumeMount → Bool
unfolding decide String-discrete VolumeMount-discrete mounts-discrete
deep_equal_mounts a b = decide (mounts-discrete a b)

pub deep_equal_iff : (a b : PodSpec) → (deep_equal a b ≡ true) ↔ (a ≡ b)
unfolding deep_equal
deep_equal_iff a b = decide_iff (PodSpec-discrete a b)

deep_equal_env_iff : (a b : Slice EnvVar) → (deep_equal_env a b ≡ true) ↔ (a ≡ b)
unfolding deep_equal_env
deep_equal_env_iff a b = decide_iff (env-discrete a b)

deep_equal_mounts_iff : (a b : Slice VolumeMount) → (deep_equal_mounts a b ≡ true) ↔ (a ≡ b)
unfolding deep_equal_mounts
deep_equal_mounts_iff a b = decide_iff (mounts-discrete a b)
