-- ===== src/Controllers/Reconciler/Statuses.antt =====
-- What a reconciliation writes to the status of instances, as a whole
-- (controllers/lumigo_controller.go:146-353).
use lumigo_kubernetes_operat.Prelude.{
  ℕ, String, Bool, true, false, ◌&&◌, Option, none, some, List, inl, inr, Fallible, Error,
  Bool-cases,
}
use lumigo_kubernetes_operat.K8s.{ApiResult, found, not_found, failed}
use lumigo_kubernetes_operat.Api.{Lumigo}
use lumigo_kubernetes_operat.Conditions.{is_active, set_active_condition_with_message}
use lumigo_kubernetes_operat.Mutation.Mutator.{OperatorConfig}
use lumigo_kubernetes_operat.Controllers.Cluster.{Verdict, completed, erred, crashed, IsTryDo}
use lumigo_kubernetes_operat.Controllers.NamespaceConfigs.{
  remove_telemetry_proxy_monitoring_of_namespace,
}
use lumigo_kubernetes_operat.Controllers.Removing.{removal_writes_only_removals}
use lumigo_kubernetes_operat.Controllers.Injecting.{injection_writes_only_injections}
use lumigo_kubernetes_operat.Controllers.Requests.{is_truthy}
use lumigo_kubernetes_operat.Controllers.Reconciler.{Services}
use lumigo_kubernetes_operat.Controllers.Reconciler.Steps.{
  is_just_created, with_token, with_listed, by_deletion, with_instance, with_namespace, finish,
  after_injection, inject_if_new, reconcile_first, reconcile_live, retire, drop_finalizer,
  after_removal, reconcile_deleted, after_finalizer, reconcile_found, reconcile_named, reconcile,
}
use lumigo_kubernetes_operat.Controllers.Reconciler.Consistency.{
  cleared_consistent, narrowed, update_file-keeps, IsKeptByConsistent,
}
use lumigo_kubernetes_operat.Controllers.Resources.{event_trigger, inject_lumigo_into_resources}
use lumigo_kubernetes_operat.Controllers.Reconciler.Keeping.{
  write_status-keeps, write_failure-keeps, finish-keeps,
}
use lumigo_kubernetes_operat.Controllers.Reconciler.{is_superseded, is_empty_spec, Answer}

module _ {W : Type 0} (services : Services W) (config : OperatorConfig) (path : String) (now : ℕ)
    (is_try_do : IsTryDo services.cluster) {P : W → Type 0}
    (kept : IsKeptByConsistent services P) where
  after_injection-keeps :
      (next : W → W × Answer)
      → ((world : W) → P world → P (next world).0)
      → (r : W × Verdict) → P r.0
      → P (after_injection services config path now next r).0
  after_injection-keeps next k (world, completed) p = k world p
  after_injection-keeps next k (world, erred e) p = k world p
  after_injection-keeps next k (world, crashed) p = p

  inject_if_new-keeps :
      (is_just_created : Bool) (lumigo : Lumigo) (next : W → W × Answer)
      → ((world : W) → P world → P (next world).0)
      → (world : W) → P world
      → P (inject_if_new services config path now is_just_created lumigo next world).0
  unfolding inject_if_new
  inject_if_new-keeps is_just_created lumigo next k world p =
      elim (Bool-cases (
        is_just_created
        && is_truthy lumigo.spec.tracing.injection.enabled true
        && is_truthy lumigo.spec.tracing.injection.inject_lumigo_into_existing_resources_on_creation
            true)) [
              | inl on ↦ rw on (
                  after_injection-keeps next k
                    (inject_lumigo_into_resources services.cluster config lumigo world)
                    (injection_writes_only_injections services.cluster config P is_try_do lumigo
                      world (narrowed _ kept) p))
              | inr off ↦ rw off (k world p)
            ]

  with_token-keeps :
      (just_created : Bool) (uid : String) (lumigo : Lumigo) (world : W) (token : Fallible String)
      → P world
      → P (with_token services config path now just_created uid lumigo world token).0
  with_token-keeps just_created uid lumigo world (inl e) p =
      write_failure-keeps services config path now is_try_do kept lumigo _ world p
  with_token-keeps just_created uid lumigo world (inr token) p =
      inject_if_new-keeps just_created lumigo (finish services config path now lumigo uid token)
        (finish-keeps services config path now is_try_do kept lumigo uid token) world p

  reconcile_first-keeps :
      (just_created : Bool) (namespace uid : String) (lumigo : Lumigo) (world : W)
      → P world
      → P (reconcile_first services config path now just_created namespace uid lumigo world).0
  unfolding reconcile_first
  reconcile_first-keeps just_created namespace uid lumigo world p =
      elim (Bool-cases (is_empty_spec lumigo.spec)) [
        | inl empty ↦ rw empty p
        | inr some_spec ↦ rw some_spec (with_token-keeps just_created uid lumigo world _ p)
      ]

  with_listed-keeps :
      (just_created : Bool) (namespace uid : String) (lumigo : Lumigo) (world : W)
      (listed : Fallible (List Lumigo))
      → P world
      → P (with_listed services config path now just_created namespace uid lumigo world listed).0
  with_listed-keeps just_created namespace uid lumigo world (inl e) p = p
  with_listed-keeps just_created namespace uid lumigo world (inr lumigoes) p =
      elim (Bool-cases (is_superseded services.sort_lumigoes lumigo lumigoes)) [
        | inl second ↦
            rw second (write_failure-keeps services config path now is_try_do kept lumigo _ world p)
        | inr first ↦ rw first (reconcile_first-keeps just_created namespace uid lumigo world p)
      ]

  reconcile_live-keeps :
      (just_created : Bool) (namespace uid : String) (lumigo : Lumigo) (world : W)
      → P world
      → P (reconcile_live services config path now just_created namespace uid lumigo world).0
  unfolding reconcile_live
  reconcile_live-keeps just_created namespace uid lumigo world p =
      with_listed-keeps just_created namespace uid lumigo world _ p

  retire-keeps :
      (r : (W × Lumigo) × Option Error) → P r.0.0 → P (retire services config path now r).0
  unfolding remove_telemetry_proxy_monitoring_of_namespace
  retire-keeps ((world, lumigo), some e) p = p
  retire-keeps ((world, lumigo), none) p =
      write_status-keeps services config path now is_try_do kept _ _
        (cleared_consistent
          (set_active_condition_with_message lumigo now false
            "This Lumigo instance is being deleted")
          now)
        (update_file-keeps services.files path kept.file_written _ world p)

  drop_finalizer-keeps :
      (lumigo : Lumigo) (world : W)
      → P world
      → P (drop_finalizer services config path now lumigo world).0
  unfolding drop_finalizer
  drop_finalizer-keeps lumigo world p = retire-keeps _ (kept.lumigo_updated _ world p)

  after_removal-keeps :
      (lumigo : Lumigo) (r : W × Verdict)
      → P r.0
      → P (after_removal services config path now lumigo r).0
  after_removal-keeps lumigo (world, completed) p = drop_finalizer-keeps lumigo world p
  after_removal-keeps lumigo (world, erred e) p = p
  after_removal-keeps lumigo (world, crashed) p = p

  reconcile_deleted-keeps :
      (lumigo : Lumigo) (world : W)
      → P world
      → P (reconcile_deleted services config path now lumigo world).0
  unfolding reconcile_deleted
  reconcile_deleted-keeps lumigo world p =
      elim (Bool-cases (
        is_active lumigo
        && is_truthy lumigo.spec.tracing.injection.enabled true
        && is_truthy lumigo.spec.tracing.injection.remove_lumigo_from_resources_on_deletion true)) [
          | inl on ↦ rw on (
              after_removal-keeps lumigo _ (
                removal_writes_only_removals services.cluster is_try_do (narrowed _ kept)
                  lumigo.meta.namespace (event_trigger lumigo) world p))
          | inr off ↦ rw off (drop_finalizer-keeps lumigo world p)
        ]

  after_finalizer-keeps :
      (next : Lumigo → W → W × Answer)
      → ((lumigo : Lumigo) (world : W) → P world → P (next lumigo world).0)
      → (r : (W × Lumigo) × Option Error) → P r.0.0
      → P (after_finalizer services config path now next r).0
  after_finalizer-keeps next k ((world, lumigo), none) p = k lumigo world p
  after_finalizer-keeps next k ((world, lumigo), some e) p = p

  by_deletion-keeps :
      (namespace uid : String) (lumigo : Lumigo) (world : W) (deleted : Option ℕ) (has : Bool)
      → P world
      → P (by_deletion services config path now namespace uid lumigo world deleted has).0
  by_deletion-keeps namespace uid lumigo world none true p =
      reconcile_live-keeps _ namespace uid lumigo world p
  by_deletion-keeps namespace uid lumigo world none false p =
      after_finalizer-keeps
        (reconcile_live services config path now (is_just_created services config path now lumigo)
          namespace uid)
        (reconcile_live-keeps (is_just_created services config path now lumigo) namespace uid) _
        (kept.lumigo_updated _ world p)
  by_deletion-keeps namespace uid lumigo world (some t) true p =
      reconcile_deleted-keeps lumigo world p
  by_deletion-keeps namespace uid lumigo world (some t) false p =
      reconcile_live-keeps _ namespace uid lumigo world p

  with_instance-keeps :
      (namespace uid : String) (world : W) (r : ApiResult Lumigo)
      → P world
      → P (with_instance services config path now namespace uid world r).0
  unfolding reconcile_found
  with_instance-keeps namespace uid world (found lumigo) p =
      by_deletion-keeps namespace uid lumigo world _ _ p
  with_instance-keeps namespace uid world (not_found e) p = p
  with_instance-keeps namespace uid world (failed e) p = p

  with_namespace-keeps :
      (namespace name : String) (world : W) (r : ApiResult String)
      → P world
      → P (with_namespace services config path now namespace name world r).0
  unfolding reconcile_named
  with_namespace-keeps namespace name world (found uid) p =
      with_instance-keeps namespace uid world _ p
  with_namespace-keeps namespace name world (not_found e) p =
      with_instance-keeps namespace "" world _ p
  with_namespace-keeps namespace name world (failed e) p = p

  -- Where `try.Do` behaves as documented, a property of the world that everything keeps which a
  -- reconciliation may do, with statuses written only of instances that show no error while they are
  -- active, holds after every reconciliation, however it ends: no other status is written.
  pub reconcile_writes_consistent_statuses :
      (namespace name : String) (world : W)
      → P world
      → P (reconcile services config path now namespace name world).0
  unfolding reconcile
  reconcile_writes_consistent_statuses namespace name world p =
      with_namespace-keeps namespace name world _ p
