-- ===== src/Mutation/Workloads.antt =====
-- Injection into and removal from whole objects (mutation/mutate.go:199-359, 615-628). A method
-- changes the object through its pointer and returns `(bool, error)`: here it returns the object as
-- it leaves it, with the outcome.
use lumigo_kubernetes_operat.Prelude.{
  String, Bool, true, false, ◌&&◌, none, some, List, [], ◌∷◌, Outcome, ok, err, panicked, errorf,
  ◌==◌, if◌then◌else◌, lower_is, put_entry, delete_label, label_or_empty,
}
use lumigo_kubernetes_operat.K8s.{
  ObjectMeta, OwnerReference, PodSpec, Workload, WorkloadKind, Resource, object, daemon_set,
  deployment, replica_set, stateful_set, cron_job, job, other_resource, Libs,
}
use lumigo_kubernetes_operat.K8s.Equality.{deep_equal}
use lumigo_kubernetes_operat.Mutation.Names.{auto_trace_label_key}
use lumigo_kubernetes_operat.Mutation.Mutator.{InjectingMutator}
use lumigo_kubernetes_operat.Mutation.PodSpecs.{
  with_injector_volume, inject_lumigo_into_pod_spec, remove_lumigo_from_pod_spec,
}

unfoldable pub add_auto_trace_label : ObjectMeta → String → ObjectMeta
unfolding put_entry
add_auto_trace_label meta value = record meta {
  labels = elim meta.labels [
    | none ↦ some ((auto_trace_label_key, value) ∷ [])
    | some l ↦ some (put_entry auto_trace_label_key value l)
  ];
}

unfoldable pub remove_auto_trace_label : ObjectMeta → ObjectMeta
unfolding delete_label
remove_auto_trace_label meta = record meta {
  labels = delete_label meta.labels auto_trace_label_key;
}

-- The object opts out of the injection.
unfoldable pub opts_out : ObjectMeta → Bool
opts_out meta = lower_is (label_or_empty meta.labels auto_trace_label_key) "false"

unfoldable pub has_deployment_owner_reference : Libs → List OwnerReference → Outcome Bool
has_deployment_owner_reference libs [] = ok false
has_deployment_owner_reference libs (r ∷ rs) =
    let rest = has_deployment_owner_reference libs rs in
    elim (libs.parse_group_version r.api_version) [
      | ok (group, version) ↦
          if group == "apps" && version == "v1" && r.kind == "Deployment" then ok true else rest
      | err e ↦ err e
      | panicked ↦ panicked
    ]

abbrev pub with_pod_spec : Workload → PodSpec → Workload
with_pod_spec w spec = record w { template = record { meta = w.template.meta; spec = spec } }

-- Both the object and its pod template get their metadata changed.
abbrev pub with_metas : (ObjectMeta → ObjectMeta) → Workload → Workload
with_metas f w = record w {
  meta = f w.meta;
  template = record { meta = f w.template.meta; spec = w.template.spec };
}

module _ (libs : Libs) (m : InjectingMutator) where
  -- `injectLumigoInto`, after the validation
  unfoldable pub inject_lumigo_into_template : Workload → Workload × Outcome Bool
  inject_lumigo_into_template w = elim (inject_lumigo_into_pod_spec libs m w.template.spec) [
    | ok spec ↦ if deep_equal w.template.spec spec then (with_pod_spec w spec, ok false) else (
      with_metas (λ meta. add_auto_trace_label meta m.autotrace_label_value) (with_pod_spec w spec),
      ok true,
    )
    | err e ↦ (w, err e)
    | panicked ↦ (with_pod_spec w (with_injector_volume libs w.template.spec), panicked)
  ]

  unfoldable pub inject_lumigo_into : Workload → Workload × Outcome Bool
  inject_lumigo_into w =
      if opts_out w.meta
      then (
        w,
        err (errorf "the resource has the '%s' label set to 'false'" (auto_trace_label_key ∷ [])),
      )
      else inject_lumigo_into_template w

  unfoldable pub inject_lumigo_into_replica_set : Workload → Workload × Outcome Bool
  inject_lumigo_into_replica_set w =
      elim (has_deployment_owner_reference libs w.meta.owner_references) [
        | ok true ↦ (w, ok false)
        | ok false ↦ inject_lumigo_into w
        | err e ↦ (w, err e)
        | panicked ↦ (w, panicked)
      ]

  -- The methods for the six kinds; a CronJob is injected in the template of its job template.
  unfoldable pub inject_lumigo_into_kind : WorkloadKind → Workload → Workload × Outcome Bool
  inject_lumigo_into_kind daemon_set w = inject_lumigo_into w
  inject_lumigo_into_kind deployment w = inject_lumigo_into w
  inject_lumigo_into_kind replica_set w = inject_lumigo_into_replica_set w
  inject_lumigo_into_kind stateful_set w = inject_lumigo_into w
  inject_lumigo_into_kind cron_job w = inject_lumigo_into w
  inject_lumigo_into_kind job w = inject_lumigo_into w

  -- The type switch.
  unfoldable pub inject_lumigo_into_resource : Resource → Resource × Outcome Bool
  inject_lumigo_into_resource (object kind w) =
      let (w', r) = inject_lumigo_into_kind kind w in (object kind w', r)
  inject_lumigo_into_resource (other_resource s) =
      (other_resource s, err (errorf "unexpected resource type to mutate: %+v" (s ∷ [])))

unfoldable pub remove_lumigo_from : Workload → Workload × Outcome Bool
remove_lumigo_from w =
    let spec = remove_lumigo_from_pod_spec w.template.spec in
    if deep_equal w.template.spec spec
    then (with_pod_spec w spec, ok false)
    else (with_metas remove_auto_trace_label (with_pod_spec w spec), ok true)

module _ (libs : Libs) where
  unfoldable pub remove_lumigo_from_replica_set : Workload → Workload × Outcome Bool
  remove_lumigo_from_replica_set w =
      elim (has_deployment_owner_reference libs w.meta.owner_references) [
        | ok true ↦ (w, ok false)
        | ok false ↦ remove_lumigo_from w
        | err e ↦ (w, err e)
        | panicked ↦ (w, panicked)
      ]

  unfoldable pub remove_lumigo_from_kind : WorkloadKind → Workload → Workload × Outcome Bool
  remove_lumigo_from_kind daemon_set w = remove_lumigo_from w
  remove_lumigo_from_kind deployment w = remove_lumigo_from w
  remove_lumigo_from_kind replica_set w = remove_lumigo_from_replica_set w
  remove_lumigo_from_kind stateful_set w = remove_lumigo_from w
  remove_lumigo_from_kind cron_job w = remove_lumigo_from w
  remove_lumigo_from_kind job w = remove_lumigo_from w

  unfoldable pub remove_lumigo_from_resource : Resource → Resource × Outcome Bool
  remove_lumigo_from_resource (object kind w) =
      let (w', r) = remove_lumigo_from_kind kind w in (object kind w', r)
  remove_lumigo_from_resource (other_resource s) =
      (other_resource s, err (errorf "unexpected resource type to mutate: %+v" (s ∷ [])))
