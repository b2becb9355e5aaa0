-- ===== src/Controllers/Reconciler/Steps.antt =====
-- The steps of `Reconcile` (controllers/lumigo_controller.go:146-353), from the last to the first: each
-- is what the code does from some line on.
use lumigo_kubernetes_operat.Prelude.{
  ℕ, String, Bool, true, false, ◌&&◌, Option, none, some, List, [], inl, inr, Fallible, Error,
  errorf, wrapf, if◌then◌else◌,
}
use lumigo_kubernetes_operat.K8s.{ApiResult, found, not_found, failed}
use lumigo_kubernetes_operat.Api.{
  Lumigo, LumigoCondition, ObjectReference, active, resource_finalizer,
}
use lumigo_kubernetes_operat.Conditions.{
  get_lumigo_condition_by_type, is_active, set_active_condition, set_active_condition_with_message,
  clear_error_condition, set_error_and_active_conditions,
}
use lumigo_kubernetes_operat.Mutation.Mutator.{OperatorConfig}
use lumigo_kubernetes_operat.Controllers.Cluster.{Verdict, completed, erred, crashed}
use lumigo_kubernetes_operat.Controllers.Resources.{
  event_trigger, inject_lumigo_into_resources, remove_lumigo_from_resources,
}
use lumigo_kubernetes_operat.Controllers.NamespaceConfigs.{
  upsert_telemetry_proxy_monitoring_of_namespace, remove_telemetry_proxy_monitoring_of_namespace,
}
use lumigo_kubernetes_operat.Controllers.Requests.{
  is_truthy, validate_credentials, update_status_if_needed, default_err_requeue_period,
}
use lumigo_kubernetes_operat.Controllers.Reconciler.{
  Services, Answer, answered, returned, panicking, is_superseded, is_empty_spec, with_finalizers,
  with_references, rebind_dangling, get_instrumented_object_references,
}

abbrev is_new : Option LumigoCondition → Bool
is_new none = true
is_new (some c) = false

module _ {W : Type 0} (services : Services W) (config : OperatorConfig) (path : String)
    (now : ℕ) where
  unfoldable pub write_status : Lumigo → W → W × Answer
  write_status lumigo world =
      let (world', seconds) = update_status_if_needed services.update_status lumigo world in
      (world', answered (some seconds))

  unfoldable pub write_failure : Lumigo → Error → W → W × Answer
  write_failure lumigo e world =
      write_status (set_error_and_active_conditions services.text lumigo now e) world

  -- Lines 338-352: the references, and the status of an active instance.
  abbrev pub with_collected : Lumigo → W × Fallible (List ObjectReference) → W × Answer
  with_collected lumigo (world, inl e) = (world, answered (some default_err_requeue_period))
  with_collected lumigo (world, inr references) =
      write_status (with_references lumigo references) world

  unfoldable pub activate : Lumigo → W → W × Answer
  activate lumigo world =
      with_collected (clear_error_condition (set_active_condition lumigo now true) now)
        (get_instrumented_object_references services lumigo.meta.namespace world)

  -- Lines 292-310: the errors of both updates are logged.
  unfoldable pub update_monitoring : Lumigo → String → String → W → W
  update_monitoring lumigo uid token world =
      if is_truthy lumigo.spec.infrastructure.enabled true
        && is_truthy lumigo.spec.infrastructure.kube_events.enabled true
      then (upsert_telemetry_proxy_monitoring_of_namespace services.files path lumigo.meta.namespace
          uid token world).0
      else (remove_telemetry_proxy_monitoring_of_namespace services.files path lumigo.meta.namespace
          world).0

  unfoldable pub finish : Lumigo → String → String → W → W × Answer
  finish lumigo uid token world =
      activate lumigo
        (rebind_dangling services lumigo.meta.namespace (update_monitoring lumigo uid token world))

  -- The error of an injection is logged.
  abbrev pub after_injection : (W → W × Answer) → W × Verdict → W × Answer
  after_injection next (world, completed) = next world
  after_injection next (world, erred e) = next world
  after_injection next (world, crashed) = (world, panicking)

  unfoldable pub inject_if_new : Bool → Lumigo → (W → W × Answer) → W → W × Answer
  inject_if_new is_just_created lumigo next world =
      if is_just_created
        && is_truthy lumigo.spec.tracing.injection.enabled true
        && is_truthy lumigo.spec.tracing.injection.inject_lumigo_into_existing_resources_on_creation
            true
      then after_injection next (inject_lumigo_into_resources services.cluster config lumigo world)
      else next world

  -- Lines 268-290, by the check of the credentials.
  abbrev pub with_token : Bool → String → Lumigo → W → Fallible String → W × Answer
  with_token is_just_created uid lumigo world (inl e) =
      write_failure lumigo (wrapf "invalid Lumigo token secret reference: %w" [] e) world
  with_token is_just_created uid lumigo world (inr token) =
      inject_if_new is_just_created lumigo (finish lumigo uid token) world

  -- From line 263 on: the only instance, or the first.
  unfoldable pub reconcile_first : Bool → String → String → Lumigo → W → W × Answer
  reconcile_first is_just_created namespace uid lumigo world =
      if is_empty_spec lumigo.spec
      then (world, returned none (errorf "the Lumigo spec is empty" []))
      else with_token is_just_created uid lumigo world
          (validate_credentials (services.reads world) namespace lumigo.spec.lumigo_token)

  abbrev pub with_listed : Bool → String → String → Lumigo → W → Fallible (List Lumigo) → W × Answer
  with_listed is_just_created namespace uid lumigo world (inl e) =
      (world, returned (some default_err_requeue_period) e)
  with_listed is_just_created namespace uid lumigo world (inr lumigoes) =
      if is_superseded services.sort_lumigoes lumigo lumigoes
      then write_failure lumigo (errorf "other Lumigo instances in this namespace" []) world
      else reconcile_first is_just_created namespace uid lumigo world

  -- From line 235 on.
  unfoldable pub reconcile_live : Bool → String → String → Lumigo → W → W × Answer
  reconcile_live is_just_created namespace uid lumigo world =
      with_listed is_just_created namespace uid lumigo world
        ((services.reads world).list_lumigoes namespace)

  -- Lines 215-232: the finalizer goes, then the monitoring, then the instance is inactive.
  abbrev pub retire : (W × Lumigo) × Option Error → W × Answer
  retire ((world, lumigo), some e) = (world, returned none e)
  retire ((world, lumigo), none) =
      write_status
        (clear_error_condition
          (set_active_condition_with_message lumigo now false
            "This Lumigo instance is being deleted")
          now)
        (remove_telemetry_proxy_monitoring_of_namespace services.files path lumigo.meta.namespace
          world).0

  unfoldable pub drop_finalizer : Lumigo → W → W × Answer
  drop_finalizer lumigo world = retire (
      services.update_lumigo
        (with_finalizers lumigo
          (services.remove_finalizer resource_finalizer lumigo.meta.finalizers))
        world)

  abbrev pub after_removal : Lumigo → W × Verdict → W × Answer
  after_removal lumigo (world, completed) = drop_finalizer lumigo world
  after_removal lumigo (world, erred e) = (world, returned none e)
  after_removal lumigo (world, crashed) = (world, panicking)

  -- Lines 194-232: the instance is being deleted and has the finalizer.
  unfoldable pub reconcile_deleted : Lumigo → W → W × Answer
  reconcile_deleted lumigo world =
      if is_active lumigo
        && is_truthy lumigo.spec.tracing.injection.enabled true
        && is_truthy lumigo.spec.tracing.injection.remove_lumigo_from_resources_on_deletion true
      then after_removal lumigo (
          remove_lumigo_from_resources services.cluster lumigo.meta.namespace (event_trigger lumigo)
            world)
      else drop_finalizer lumigo world

  abbrev pub after_finalizer : (Lumigo → W → W × Answer) → (W × Lumigo) × Option Error → W × Answer
  after_finalizer next ((world, lumigo), none) = next lumigo world
  after_finalizer next ((world, lumigo), some e) = (world, returned none e)

  abbrev pub is_just_created : Lumigo → Bool
  is_just_created lumigo = is_new (get_lumigo_condition_by_type lumigo active)

  -- From line 180 on, by the deletion timestamp and whether the instance has the finalizer.
  abbrev pub by_deletion : String → String → Lumigo → W → Option ℕ → Bool → W × Answer
  by_deletion namespace uid lumigo world none true =
      reconcile_live (is_just_created lumigo) namespace uid lumigo world
  by_deletion namespace uid lumigo world none false =
      after_finalizer (reconcile_live (is_just_created lumigo) namespace uid) (
        services.update_lumigo
          (with_finalizers lumigo
            (services.add_finalizer resource_finalizer lumigo.meta.finalizers))
          world)
  by_deletion namespace uid lumigo world (some t) true = reconcile_deleted lumigo world
  by_deletion namespace uid lumigo world (some t) false =
      reconcile_live (is_just_created lumigo) namespace uid lumigo world

  unfoldable pub reconcile_found : String → String → Lumigo → W → W × Answer
  reconcile_found namespace uid lumigo world =
      by_deletion namespace uid lumigo world lumigo.meta.deletion_timestamp
        (services.contains_finalizer resource_finalizer lumigo.meta.finalizers)

  abbrev pub with_instance : String → String → W → ApiResult Lumigo → W × Answer
  with_instance namespace uid world (found lumigo) = reconcile_found namespace uid lumigo world
  with_instance namespace uid world (not_found e) = (world, answered none)
  with_instance namespace uid world (failed e) = (world, answered (some default_err_requeue_period))

  unfoldable pub reconcile_named : String → String → String → W → W × Answer
  reconcile_named namespace name uid world =
      with_instance namespace uid world (services.get_lumigo namespace name world)

  -- A namespace that is gone has no uid.
  abbrev pub with_namespace : String → String → W → ApiResult String → W × Answer
  with_namespace namespace name world (found uid) = reconcile_named namespace name uid world
  with_namespace namespace name world (not_found e) = reconcile_named namespace name "" world
  with_namespace namespace name world (failed e) =
      (world, answered (some default_err_requeue_period))

  unfoldable pub reconcile : String → String → W → W × Answer
  reconcile namespace name world =
      with_namespace namespace name world (services.get_namespace namespace world)
