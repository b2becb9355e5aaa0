-- ===== src/Controllers/Reconciler.antt =====
-- What `Reconcile` of controllers/lumigo_controller.go works with: its services, the order of instances,
-- and the references to objects (lines 355-388, 730-824). The steps are in the child Steps. The
-- clients of the API and controllerutil are parameters; logging is left out, and with it the errors
-- that are only logged. The world `W` is what the calls change; the time of the call is `now`.
pub mod Consistency
pub mod Keeping
pub mod Precedence
pub mod Statuses
pub mod Steps
use Prim.Native.String.{◌++◌ as ◌⧺◌}
use lumigo_kubernetes_operat.Prelude.{
  ◌++◌, ℕ, String, Bool, true, false, not, ◌&&◌, ◌||◌, Option, none, some, List, [], ◌∷◌, inl, inr,
  Fallible, Error, errorf, wrapf, ◌==◌, if◌then◌else◌, ltb, Slice,
}
use lumigo_kubernetes_operat.K8s.{
  ApiResult, found, not_found, failed, Workload, WorkloadKind, daemon_set, deployment, replica_set,
  stateful_set, cron_job, job,
}
use lumigo_kubernetes_operat.Api.{
  Lumigo, LumigoSpec, LumigoMeta, ObjectReference, active, resource_finalizer,
}
use lumigo_kubernetes_operat.Conditions.{
  get_lumigo_condition_by_type, is_active, set_active_condition, set_active_condition_with_message,
  clear_error_condition, set_error_and_active_conditions,
}
use lumigo_kubernetes_operat.Mutation.Mutator.{OperatorConfig}
use lumigo_kubernetes_operat.Controllers.Cluster.{
  autotraced, Verdict, completed, erred, crashed, Cluster,
}
use lumigo_kubernetes_operat.Controllers.Resources.{
  event_trigger, kind_word, inject_lumigo_into_resources, remove_lumigo_from_resources,
}
use lumigo_kubernetes_operat.Controllers.NamespaceConfigs.{
  Files, before, upsert_telemetry_proxy_monitoring_of_namespace,
  remove_telemetry_proxy_monitoring_of_namespace,
}
use lumigo_kubernetes_operat.Controllers.Requests.{
  Reads, is_truthy, is_empty_ref, validate_credentials, update_status_if_needed,
  default_err_requeue_period,
}

-- An event without the uid of the object that it is about.
pub record DanglingEvent : Type 0 where
  pub involved_object : ObjectReference
  pub other : String

pub record Services (W : Type 0) : Type 0 where
  pub cluster : Cluster W
  pub files : Files W
  pub reads : W → Reads
  -- the uid of a namespace
  pub get_namespace : String → W → ApiResult String
  pub get_lumigo : String → String → W → ApiResult Lumigo
  -- `Update` and `Status().Update` overwrite the instance with the answer of the API server.
  pub update_lumigo : Lumigo → W → (W × Lumigo) × Option Error
  pub update_status : Lumigo → W → (W × Lumigo) × Option Error
  -- controllerutil, on the list of finalizers
  pub contains_finalizer : String → List String → Bool
  pub add_finalizer : String → List String → List String
  pub remove_finalizer : String → List String → List String
  -- the events with the reason LumigoAddedInstrumentation and no uid
  pub list_dangling_events : String → W → Fallible (List DanglingEvent)
  pub update_event : DanglingEvent → W → W × Option Error
  -- the uid and the resource version of an object, by the dynamic client: the group and version, the
  -- resource, the namespace and the name
  pub get_object : String → String → String → String → W → Fallible (String × String)
  -- `strings.ToLower`
  pub to_lower : String → String
  -- `reference.GetReference`
  pub get_reference : WorkloadKind → Workload → Fallible ObjectReference
  -- `sort.Sort` with a `Less`
  pub sort_lumigoes : (Lumigo → Lumigo → Bool) → List Lumigo → List Lumigo
  pub sort_workloads : (Workload → Workload → Bool) → List Workload → List Workload
  -- `fmt.Sprintf("%v", err)`
  pub text : Error → String

-- The `ctrl.Result` by its `RequeueAfter`, with a nil error or an error.
pub data Answer : Type 0 where
  answered : Option ℕ → Answer
  returned : Option ℕ → Error → Answer
  panicking : Answer

-- The `Less` of the orders that the instances and the objects are sorted by.
abbrev pub created_before : Lumigo → Lumigo → Bool
created_before a b = ltb a.meta.creation_timestamp b.meta.creation_timestamp

abbrev named_before : Workload → Workload → Bool
named_before a b = before a.meta.name b.meta.name

unfoldable pub has_other : String → List Lumigo → Bool
has_other name [] = false
has_other name (lumigo ∷ lumigoes) = not (lumigo.meta.name == name) || has_other name lumigoes

abbrev pub is_first_uid : String → List Lumigo → Bool
is_first_uid uid [] = true
is_first_uid uid (first ∷ rest) = first.meta.uid == uid

-- Another instance of the namespace was created first.
unfoldable pub is_superseded :
    ((Lumigo → Lumigo → Bool) → List Lumigo → List Lumigo) → Lumigo → List Lumigo → Bool
is_superseded sort lumigo lumigoes =
    has_other lumigo.meta.name lumigoes
    && not (is_first_uid lumigo.meta.uid (sort created_before lumigoes))

abbrev unset : Option Bool → Bool
unset none = true
unset (some b) = false

-- `lumigo.Spec == (operatorv1alpha1.LumigoSpec{})`
unfoldable pub is_empty_spec : LumigoSpec → Bool
is_empty_spec spec =
    is_empty_ref spec.lumigo_token.secret_ref
    && unset spec.tracing.enabled
    && unset spec.tracing.injection.enabled
    && unset spec.tracing.injection.inject_lumigo_into_existing_resources_on_creation
    && unset spec.tracing.injection.remove_lumigo_from_resources_on_deletion
    && unset spec.logging.enabled
    && unset spec.infrastructure.enabled
    && unset spec.infrastructure.kube_events.enabled

abbrev pub with_finalizers : Lumigo → List String → Lumigo
with_finalizers lumigo finalizers = record lumigo {
  meta = record lumigo.meta { finalizers = finalizers };
}

abbrev pub with_references : Lumigo → List ObjectReference → Lumigo
with_references lumigo references = record lumigo {
  status = record {
    conditions = lumigo.status.conditions;
    instrumented_resources = some references;
  };
}

module _ {W : Type 0} (services : Services W) where
  -- The end of an object reference, by what the dynamic client finds.
  abbrev filled_out : ObjectReference → Fallible (String × String) → Fallible ObjectReference
  filled_out reference (inl e) = inl (
      wrapf "cannot retrieve '%s/%s' %s: %w"
        (reference.namespace ∷ reference.name ∷ reference.kind ∷ []) e)
  filled_out reference (inr (uid, resource_version)) =
      inr (record reference { uid = uid; resource_version = resource_version })

  unfoldable pub fill_out_reference : ObjectReference → W → Fallible ObjectReference
  fill_out_reference reference world =
      if reference.api_version == "apps/v1" || reference.api_version == "batch/v1"
      then filled_out reference (
          services.get_object reference.api_version (◌⧺◌ (services.to_lower reference.kind) "s")
            reference.namespace reference.name world)
      else inl
          (errorf "unexpected APIVersion for referenced object: '%s'" (reference.api_version ∷ []))

  -- Errors are logged by the caller.
  abbrev pub update_filled : DanglingEvent → W → Fallible ObjectReference → W
  update_filled event world (inl e) = world
  update_filled event world (inr reference) =
      (services.update_event (record event { involved_object = reference }) world).0

  unfoldable pub rebind_lumigo_event : DanglingEvent → W → W
  rebind_lumigo_event event world =
      update_filled event world (fill_out_reference event.involved_object world)

  unfoldable pub rebind_events : List DanglingEvent → W → W
  rebind_events [] world = world
  rebind_events (event ∷ events) world = rebind_events events (rebind_lumigo_event event world)

  abbrev pub rebind_listed : W → Fallible (List DanglingEvent) → W
  rebind_listed world (inl e) = world
  rebind_listed world (inr events) = rebind_events events world

  unfoldable pub rebind_dangling : String → W → W
  rebind_dangling namespace world =
      rebind_listed world (services.list_dangling_events namespace world)

  unfoldable pub append_references :
      WorkloadKind → List Workload → List ObjectReference → Fallible (List ObjectReference)
  append_references kind [] references = inr references
  append_references kind (w ∷ ws) references = elim (services.get_reference kind w) [
    | inl e ↦ inl e
    | inr reference ↦ append_references kind ws (references ++ reference ∷ [])
  ]

  abbrev pub appended :
      WorkloadKind
      → List ObjectReference
      → W × Fallible (List Workload)
      → W × Fallible (List ObjectReference)
  appended kind references (world, inl e) =
      (world, inl (wrapf "cannot list autotraced %ss: %w" (kind_word kind ∷ []) e))
  appended kind references (world, inr ws) =
      (world, append_references kind (services.sort_workloads named_before ws) references)

  abbrev pub and_collect :
      (List ObjectReference → W → W × Fallible (List ObjectReference))
      → W × Fallible (List ObjectReference)
      → W × Fallible (List ObjectReference)
  and_collect next (world, inl e) = (world, inl e)
  and_collect next (world, inr references) = next references world

  -- The six listings, one after the other.
  unfoldable pub collect_references :
      List WorkloadKind → String → List ObjectReference → W → W × Fallible (List ObjectReference)
  collect_references [] namespace references world = (world, inr references)
  collect_references (kind ∷ kinds) namespace references world =
      and_collect (collect_references kinds namespace)
        (appended kind references (services.cluster.list_workloads kind namespace autotraced world))

  unfoldable pub get_instrumented_object_references :
      String → W → W × Fallible (List ObjectReference)
  get_instrumented_object_references namespace world =
      collect_references
        (daemon_set ∷ deployment ∷ replica_set ∷ stateful_set ∷ cron_job ∷ job ∷ []) namespace []
        world
