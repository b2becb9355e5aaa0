-- ===== src/Controllers/Reconciler/Keeping.antt =====
-- What a reconciliation writes to the status of instances, step by step
-- (controllers/lumigo_controller.go:146-353).
use lumigo_kubernetes_operat.Prelude.{
  ℕ, String, true, ◌&&◌, List, [], ◌∷◌, ◌≡◌, inl, inr, Fallible, Error, Bool-cases,
}
use lumigo_kubernetes_operat.K8s.{Workload, WorkloadKind}
use lumigo_kubernetes_operat.Api.{Lumigo, ObjectReference}
use lumigo_kubernetes_operat.Conditions.{
  set_active_condition, clear_error_condition, set_error_and_active_conditions,
}
use lumigo_kubernetes_operat.Mutation.Mutator.{OperatorConfig}
use lumigo_kubernetes_operat.Controllers.Cluster.{autotraced, IsTryDo}
use lumigo_kubernetes_operat.Controllers.NamespaceConfigs.{
  upsert_telemetry_proxy_monitoring_of_namespace, remove_telemetry_proxy_monitoring_of_namespace,
}
use lumigo_kubernetes_operat.Controllers.Requests.{
  is_truthy, with_resources, update_status_if_needed,
}
use lumigo_kubernetes_operat.Controllers.Reconciler.{
  and_collect, appended, update_filled, rebind_listed, Services, DanglingEvent, rebind_lumigo_event,
  rebind_events, rebind_dangling, fill_out_reference, collect_references,
  get_instrumented_object_references, with_references,
}
use lumigo_kubernetes_operat.Controllers.Reconciler.Steps.{
  write_status, write_failure, with_collected, activate, update_monitoring, finish,
}
use lumigo_kubernetes_operat.Controllers.Reconciler.Consistency.{
  is_consistent, failure_consistent, collected_consistent, update_file-keeps, IsKeptByConsistent,
}

module _ {W : Type 0} (services : Services W) (config : OperatorConfig) (path : String) (now : ℕ)
    (is_try_do : IsTryDo services.cluster) {P : W → Type 0}
    (kept : IsKeptByConsistent services P) where
  pub write_status-keeps :
      (lumigo : Lumigo) (world : W)
      → is_consistent (with_resources lumigo) ≡ true
      → P world
      → P (write_status services config path now lumigo world).0
  unfolding write_status update_status_if_needed
  write_status-keeps lumigo world c p = kept.status_updated (with_resources lumigo) world c p

  pub write_failure-keeps :
      (lumigo : Lumigo) (e : Error) (world : W)
      → P world
      → P (write_failure services config path now lumigo e world).0
  unfolding write_failure
  write_failure-keeps lumigo e world p =
      write_status-keeps (set_error_and_active_conditions services.text lumigo now e) world
        (failure_consistent services.text lumigo now e) p

  appended-keeps :
      (kind : WorkloadKind) (references : List ObjectReference) (r : W × Fallible (List Workload))
      → P r.0
      → P (appended services kind references r).0
  appended-keeps kind references (world, inl e) p = p
  appended-keeps kind references (world, inr ws) p = p

  and_collect-keeps :
      (next : List ObjectReference → W → W × Fallible (List ObjectReference))
      → ((references : List ObjectReference) (world : W) → P world → P (next references world).0)
      → (r : W × Fallible (List ObjectReference)) → P r.0
      → P (and_collect services next r).0
  and_collect-keeps next k (world, inl e) p = p
  and_collect-keeps next k (world, inr references) p = k references world p

  collect_references-keeps :
      (kinds : List WorkloadKind) (namespace : String) (references : List ObjectReference)
      (world : W)
      → P world
      → P (collect_references services kinds namespace references world).0
  unfolding collect_references
  collect_references-keeps [] namespace references world p = p
  collect_references-keeps (kind ∷ kinds) namespace references world p =
      and_collect-keeps (collect_references services kinds namespace)
        (collect_references-keeps kinds namespace)
        (appended services kind references
          (services.cluster.list_workloads kind namespace autotraced world))
        (appended-keeps kind references
          (services.cluster.list_workloads kind namespace autotraced world)
          (kept.cluster_kept.listing kind namespace autotraced world p))

  update_filled-keeps :
      (event : DanglingEvent) (world : W) (filled : Fallible ObjectReference)
      → P world
      → P (update_filled services event world filled)
  update_filled-keeps event world (inl e) p = p
  update_filled-keeps event world (inr reference) p = kept.event_updated _ world p

  rebind_events-keeps :
      (events : List DanglingEvent) (world : W) → P world → P (rebind_events services events world)
  unfolding rebind_events rebind_lumigo_event
  rebind_events-keeps [] world p = p
  rebind_events-keeps (event ∷ events) world p =
      rebind_events-keeps events (rebind_lumigo_event services event world) (
        update_filled-keeps event world (fill_out_reference services event.involved_object world) p)

  rebind_listed-keeps :
      (world : W) (listed : Fallible (List DanglingEvent))
      → P world
      → P (rebind_listed services world listed)
  rebind_listed-keeps world (inl e) p = p
  rebind_listed-keeps world (inr events) p = rebind_events-keeps events world p

  with_collected-keeps :
      (lumigo : Lumigo) (r : W × Fallible (List ObjectReference))
      → P r.0
      → P (with_collected services config path now (clear_error_condition lumigo now) r).0
  with_collected-keeps lumigo (world, inl e) p = p
  with_collected-keeps lumigo (world, inr references) p =
      write_status-keeps (with_references (clear_error_condition lumigo now) references) world
        (collected_consistent lumigo now references) p

  activate-keeps :
      (lumigo : Lumigo) (world : W) → P world → P (activate services config path now lumigo world).0
  unfolding activate get_instrumented_object_references
  activate-keeps lumigo world p =
      with_collected-keeps (set_active_condition lumigo now true) _
        (collect_references-keeps _ lumigo.meta.namespace [] world p)

  update_monitoring-keeps :
      (lumigo : Lumigo) (uid token : String) (world : W)
      → P world
      → P (update_monitoring services config path now lumigo uid token world)
  unfolding update_monitoring upsert_telemetry_proxy_monitoring_of_namespace
      remove_telemetry_proxy_monitoring_of_namespace
  update_monitoring-keeps lumigo uid token world p =
      elim (Bool-cases (
        is_truthy lumigo.spec.infrastructure.enabled true
        && is_truthy lumigo.spec.infrastructure.kube_events.enabled true)) [
          | inl on ↦ rw on (update_file-keeps services.files path kept.file_written _ world p)
          | inr off ↦ rw off (update_file-keeps services.files path kept.file_written _ world p)
        ]

  pub finish-keeps :
      (lumigo : Lumigo) (uid token : String) (world : W)
      → P world
      → P (finish services config path now lumigo uid token world).0
  unfolding finish rebind_dangling
  finish-keeps lumigo uid token world p =
      activate-keeps lumigo _
        (rebind_listed-keeps _ _ (update_monitoring-keeps lumigo uid token world p))
