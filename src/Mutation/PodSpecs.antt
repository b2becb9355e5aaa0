-- ===== src/Mutation/PodSpecs.antt =====
-- How a pod spec is injected and cleaned (mutation/mutate.go:361-608).
use lumigo_kubernetes_operat.Prelude.{
  ℕ, String, Bool, true, false, ◌||◌, none, some, List, [], ◌∷◌, map, items, Outcome, ok, panicked,
  ◌==◌, if◌then◌else◌,
}
use mathlib.Core.Option
use lumigo_kubernetes_operat.K8s.{
  EnvVar, VolumeMount, Volume, Container, PodSecurityContext, PodSpec, Libs,
}
use lumigo_kubernetes_operat.Mutation.Names.{
  target_directory_env_var_name, target_directory_path, injector_container_name,
  injector_volume_name, injector_volume_mount_point, tracer_token_env_var_name,
  endpoint_env_var_name, logs_endpoint_env_var_name, enable_logs_env_var_name,
  enable_traces_env_var_name, container_name_env_var_name, ld_preload_env_var_name,
  ld_preload_env_var_value, default_init_container_user, default_init_container_group,
}
use lumigo_kubernetes_operat.Mutation.Mutator.{InjectingMutator}
use lumigo_kubernetes_operat.Mutation.Matchers.{injector_container_match, injector_volume_match}

-- `slices.IndexFunc` by `test`, then an assignment at the index found or an `append`.
unfoldable pub replace_or_append {ℓ} : {A : Type ℓ} → (A → Bool) → A → List A → List A
replace_or_append test v [] = v ∷ []
replace_or_append test v (x ∷ xs) = if test x then v ∷ xs else x ∷ replace_or_append test v xs

-- The loops that keep what fails a test.
unfoldable pub remove_where {ℓ} : {A : Type ℓ} → (A → Bool) → List A → List A
remove_where test [] = []
remove_where test (x ∷ xs) = let rest = remove_where test xs in if test x then rest else x ∷ rest

unfoldable pub format_bool : Bool → String
format_bool true = "true"
format_bool false = "false"

abbrev pub env_named : String → EnvVar → Bool
env_named name e = e.name == name

abbrev pub set_env : EnvVar → List EnvVar → List EnvVar
set_env e = replace_or_append (env_named e.name) e

abbrev pub plain_env : String → String → EnvVar
plain_env name value = record { name = name; value = value; value_from = none }

-- resource.Mega is the scale 6
unfoldable pub injector_volume : Libs → Volume
injector_volume libs = record {
  name = injector_volume_name;
  empty_dir = some (record { size_limit = some (libs.new_scaled_quantity 200 6); other = "" });
  other = "";
}

-- The user of the init container; the group is found in the same way.
unfoldable pub init_container_user : PodSecurityContext → ℕ
init_container_user context = Option.get_or context.fs_group default_init_container_user

unfoldable pub init_container_group : PodSecurityContext → ℕ
init_container_group context = Option.get_or context.fs_group default_init_container_group

unfoldable pub injector_container : InjectingMutator → PodSecurityContext → Container
unfolding init_container_user init_container_group
injector_container m context = record {
  name = injector_container_name;
  image = m.injector_image;
  env = some (plain_env target_directory_env_var_name target_directory_path ∷ []);
  security_context = some (record {
    allow_privilege_escalation = some false;
    privileged = some false;
    read_only_root_filesystem = some true;
    run_as_non_root = context.run_as_non_root;
    run_as_user = some (init_container_user context);
    run_as_group = some (init_container_group context);
    other = "";
  });
  volume_mounts = some (
      record {
        name = injector_volume_name;
        read_only = false;
        mount_path = target_directory_path;
        other = "";
      }
      ∷ []);
  other = "";
}

unfoldable pub injector_volume_mount : VolumeMount
injector_volume_mount = record {
  name = injector_volume_name;
  read_only = true;
  mount_path = injector_volume_mount_point;
  other = "";
}

unfoldable pub tracer_token_env : InjectingMutator → EnvVar
tracer_token_env m = record {
  name = tracer_token_env_var_name;
  value = "";
  value_from = some (record {
    secret_key_ref = some (record {
      name = m.token.secret_ref.name;
      key = m.token.secret_ref.key;
      is_optional = some true;
    });
    other = "";
  });
}

-- The variables that a container named `name` is given, in the order in which they are set.
unfoldable pub lumigo_env : InjectingMutator → String → List EnvVar
unfolding format_bool tracer_token_env
lumigo_env m name =
    plain_env ld_preload_env_var_name ld_preload_env_var_value
    ∷ tracer_token_env m
    ∷ plain_env endpoint_env_var_name m.endpoint
    ∷ plain_env logs_endpoint_env_var_name m.logs_endpoint
    ∷ plain_env enable_logs_env_var_name (format_bool m.enable_logs)
    ∷ plain_env enable_traces_env_var_name (format_bool m.enable_traces)
    ∷ plain_env container_name_env_var_name name
    ∷ []

unfoldable pub set_all_env : List EnvVar → List EnvVar → List EnvVar
set_all_env [] env = env
set_all_env (e ∷ es) env = set_all_env es (set_env e env)

abbrev pub mounted_at_target : VolumeMount → Bool
mounted_at_target v = v.mount_path == injector_volume_mount_point

-- The body of the loop over the containers.
unfoldable pub patch_container : InjectingMutator → Container → Container
patch_container m c = record c {
  env = some (set_all_env (lumigo_env m c.name) (items c.env));
  volume_mounts =
      some (replace_or_append mounted_at_target injector_volume_mount (items c.volume_mounts));
}

abbrev pub volume_named : Volume → Bool
volume_named v = v.name == injector_volume_name

abbrev pub container_named : Container → Bool
container_named c = c.name == injector_container_name

-- The pod spec with the injector's volume, which is set before the security context is looked at.
abbrev pub with_injector_volume : Libs → PodSpec → PodSpec
with_injector_volume libs spec = record spec {
  volumes = some (replace_or_append volume_named (injector_volume libs) (items spec.volumes));
}

-- What is written, with the pod's security context at hand.
unfoldable pub injected_pod_spec : Libs → InjectingMutator → PodSecurityContext → PodSpec → PodSpec
injected_pod_spec libs m context spec = record (with_injector_volume libs spec) {
  init_containers = some (
      replace_or_append container_named (injector_container m context)
        (items spec.init_containers));
  containers = some (map (patch_container m) (items spec.containers));
}

-- A nil security context of the pod is dereferenced, which panics.
unfoldable pub inject_lumigo_into_pod_spec : Libs → InjectingMutator → PodSpec → Outcome PodSpec
inject_lumigo_into_pod_spec libs m spec = elim spec.security_context [
  | none ↦ panicked
  | some context ↦ ok (injected_pod_spec libs m context spec)
]

abbrev env_vars_to_remove : List String
env_vars_to_remove =
    tracer_token_env_var_name ∷ endpoint_env_var_name ∷ logs_endpoint_env_var_name
    ∷ enable_logs_env_var_name ∷ enable_traces_env_var_name ∷ container_name_env_var_name
    ∷ ld_preload_env_var_name ∷ []

-- `slices.Contains`
unfoldable pub contains : List String → String → Bool
contains [] name = false
contains (n ∷ ns) name = name == n || contains ns name

unfoldable pub is_injected_env : EnvVar → Bool
unfolding contains
is_injected_env e = contains env_vars_to_remove e.name

abbrev pub mounts_injector_volume : VolumeMount → Bool
mounts_injector_volume v = v.name == injector_volume_name

unfoldable pub clean_container : Container → Container
clean_container c = record c {
  env = some (remove_where is_injected_env (items c.env));
  volume_mounts = Option.map (remove_where mounts_injector_volume) c.volume_mounts;
}

abbrev pub is_injector_container : Container → Bool
is_injector_container c = (injector_container_match "" c).0

abbrev pub is_injector_volume : Volume → Bool
is_injector_volume v = (injector_volume_match v).0

-- It returns no error.
unfoldable pub remove_lumigo_from_pod_spec : PodSpec → PodSpec
remove_lumigo_from_pod_spec spec = record spec {
  init_containers = Option.map (remove_where is_injector_container) spec.init_containers;
  volumes = Option.map (remove_where is_injector_volume) spec.volumes;
  containers = some (map clean_container (items spec.containers));
}
