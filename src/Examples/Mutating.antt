-- ===== src/Examples/Mutating.antt =====
-- The theorems on the mutation at concrete objects.
use Prim.Native.String.{len}
use lumigo_kubernetes_operat.Prelude.{
  arith, ◌≢◌, String, true, false, none, [], ◌∷◌, items, ◌≡◌, ◌↔◌, refl, ok, panicked, ◌≤◌, errorf,
  lower_is, label_or_empty,
}
use lumigo_kubernetes_operat.K8s.{
  deployment, Workload, replica_set, object, other_resource, PodSpec,
}
use lumigo_kubernetes_operat.K8s.Equality.{deep_equal, deep_equal_env, deep_equal_mounts}
use lumigo_kubernetes_operat.Mutation.Mutator.{truncate_version, version_label_value}
use lumigo_kubernetes_operat.Mutation.PodSpecs.{
  replace_or_append, format_bool, injector_volume, init_container_user, init_container_group,
  injector_container, injector_volume_mount, tracer_token_env, lumigo_env, set_all_env,
  patch_container, injected_pod_spec, inject_lumigo_into_pod_spec, contains, is_injected_env,
}
use lumigo_kubernetes_operat.Mutation.Workloads.{
  add_auto_trace_label, opts_out, inject_lumigo_into_template, inject_lumigo_into,
  inject_lumigo_into_resource, remove_lumigo_from, remove_lumigo_from_resource,
  has_deployment_owner_reference,
}
use lumigo_kubernetes_operat.Mutation.Env.{find_env, or_else, find_env-patch_container}
use lumigo_kubernetes_operat.Mutation.Idempotent.{inject_lumigo_into_idem}
use lumigo_kubernetes_operat.Mutation.RoundTrip.{IsFresh, IsFreshContainer, normalized}
use lumigo_kubernetes_operat.Mutation.Removal.{LosesLabel, remove-inject}
use lumigo_kubernetes_operat.Mutation.Instrumented.{BeInstrumentedWithLumigo, match_workload}
use lumigo_kubernetes_operat.Mutation.Recognised.{
  match_workload-inject, match_workload_ignores_volumes_and_labels,
}
use lumigo_kubernetes_operat.Mutation.Guards.{
  inject_resource_error_unchanged, HasDeploymentOwner, here, there,
  has_deployment_owner_reference_iff, owned_replica_set_untouched,
}
use lumigo_kubernetes_operat.Mutation.Panics.{IsUnguarded, inject_panics_iff}
use lumigo_kubernetes_operat.Mutation.VersionLabel.{len-version_label_value}
use lumigo_kubernetes_operat.Examples.{
  libs, mutator, web, web_container, pod_context, pod_spec, bare_pod_spec, web_of, owned_web,
}

abbrev injected_pod : PodSpec
injected_pod = injected_pod_spec libs mutator pod_context pod_spec

injected_pod_ok : inject_lumigo_into_pod_spec libs mutator pod_spec ≡ ok injected_pod
unfolding inject_lumigo_into_pod_spec
injected_pod_ok = refl

abbrev injected_web : Workload
injected_web = (inject_lumigo_into libs mutator web).0

injected_ok : inject_lumigo_into libs mutator web ≡ (injected_web, ok true)
unfolding inject_lumigo_into inject_lumigo_into_template inject_lumigo_into_pod_spec
    injected_pod_spec patch_container replace_or_append injector_volume injector_container
    set_all_env lumigo_env tracer_token_env format_bool injector_volume_mount init_container_user
    init_container_group opts_out deep_equal deep_equal_env deep_equal_mounts add_auto_trace_label
    lower_is label_or_empty
injected_ok = refl

container_fresh : IsFreshContainer web_container
unfolding is_injected_env contains
container_fresh = record {
  no_target_mount = tt;
  no_injector_mount = tt;
  no_injected_env = (refl, tt);
}

web-IsFresh : IsFresh pod_spec
web-IsFresh = record {
  no_volume = tt;
  no_init_container = tt;
  fresh_containers = (container_fresh, tt);
}

mutator_labelled : mutator.autotrace_label_value ≡ version_label_value "1.2.3"
unfolding version_label_value truncate_version
mutator_labelled = refl

find_env-patch_container_example :
    find_env "HOME" (items (patch_container mutator web_container).env)
    ≡ or_else
        (find_env "HOME" (lumigo_env mutator "web"))
        (find_env "HOME" (items web_container.env))
find_env-patch_container_example = find_env-patch_container mutator web_container "HOME"

inject_lumigo_into_idem_example :
    inject_lumigo_into libs mutator injected_web ≡ (injected_web, ok false)
inject_lumigo_into_idem_example =
    inject_lumigo_into_idem libs mutator "1.2.3" web injected_web true mutator_labelled injected_ok

remove-inject_example :
    (v : Workload) × (remove_lumigo_from injected_web ≡ (v, ok true))
    × (v.template.spec ≡ normalized pod_spec)
    × LosesLabel web.meta v.meta
    × LosesLabel web.template.meta v.template.meta
remove-inject_example = remove-inject libs mutator web injected_web web-IsFresh injected_ok

abbrev expected : BeInstrumentedWithLumigo
expected = record {
  operator_version = "1.2.3";
  injector_image = "lumigo/injector:1";
  endpoint_url = "http://proxy";
  logs_enabled = true;
}

match_workload-inject_example :
    match_workload (λ key value actual. (true, none)) expected injected_web ≡ (true, none)
match_workload-inject_example =
    match_workload-inject (λ key value actual. (true, none)) libs mutator expected web injected_web
      true (record { same_image = refl; same_endpoint = refl; same_logs = refl }) web-IsFresh
      injected_ok

abbrev without_volumes : Workload
without_volumes = web_of (record injected_pod { volumes = none })

match_workload_ignores_volumes_and_labels_example :
    match_workload (λ key value actual. (true, none)) expected (web_of injected_pod)
    ≡ match_workload (λ key value actual. (true, none)) expected without_volumes
match_workload_ignores_volumes_and_labels_example =
    match_workload_ignores_volumes_and_labels (λ key value actual. (true, none)) expected
      (web_of injected_pod) without_volumes refl refl

inject_resource_error_unchanged_example :
    (inject_lumigo_into_resource libs mutator (other_resource "a pod")).0 ≡ other_resource "a pod"
unfolding inject_lumigo_into_resource
inject_resource_error_unchanged_example =
    inject_resource_error_unchanged libs mutator (other_resource "a pod")
      (errorf "unexpected resource type to mutate: %+v" ("a pod" ∷ [])) refl

libs_parses : (s : String) → libs.parse_group_version s ≢ panicked
libs_parses s h = ground arith

inject_panics_iff_example :
    ((inject_lumigo_into_resource libs mutator (object deployment (web_of bare_pod_spec))).1
      ≡ panicked)
    ↔ IsUnguarded libs (object deployment (web_of bare_pod_spec))
inject_panics_iff_example =
    inject_panics_iff libs libs_parses mutator (object deployment (web_of bare_pod_spec))

owner : HasDeploymentOwner libs owned_web.meta.owner_references
owner = there refl (here refl refl)

has_deployment_owner_reference_iff_example :
    (has_deployment_owner_reference libs owned_web.meta.owner_references ≡ ok true)
    ↔ HasDeploymentOwner libs owned_web.meta.owner_references
has_deployment_owner_reference_iff_example =
    has_deployment_owner_reference_iff libs owned_web.meta.owner_references

owned_replica_set_untouched_example :
    (inject_lumigo_into_resource libs mutator (object replica_set owned_web)
      ≡ (object replica_set owned_web, ok false))
    × (remove_lumigo_from_resource libs (object replica_set owned_web)
        ≡ (object replica_set owned_web, ok false))
owned_replica_set_untouched_example = owned_replica_set_untouched libs mutator owned_web owner

len-version_label_value_example : len (version_label_value "1.2.3-heads-main") ≤ 25
len-version_label_value_example = len-version_label_value "1.2.3-heads-main"
