-- ===== src/Controllers/Injecting.antt =====
-- What the injection into the objects of a namespace writes
-- (controllers/lumigo_controller.go:526-720).
use lumigo_kubernetes_operat.Prelude.{
  String, Bool, true, false, Option, none, some, ◌≡◌, ◌≢◌, refl, Error, Outcome, ok, err, panicked,
}
use lumigo_kubernetes_operat.K8s.{
  Workload, WorkloadKind, daemon_set, deployment, replica_set, stateful_set, cron_job, job, object,
}
use lumigo_kubernetes_operat.Api.{Lumigo}
use lumigo_kubernetes_operat.Api.Events.{cannot_add_instrumentation_event}
use lumigo_kubernetes_operat.Mutation.Mutator.{
  InjectingMutator, OperatorConfig, new_injecting_mutator_from_spec,
}
use lumigo_kubernetes_operat.Mutation.Workloads.{inject_lumigo_into_kind}
use lumigo_kubernetes_operat.Controllers.Cluster.{Verdict, not_autotraced, Cluster, IsTryDo}
use lumigo_kubernetes_operat.Controllers.Resources.{
  event_trigger, write_injected, inject_attempt, settle_injection, inject_existing, inject_kinds,
  inject_lumigo_into_resources, retry_mutation, immutable_job, if_required,
}
use lumigo_kubernetes_operat.Controllers.Writes.{
  IsKept, IsInjection, injected, update_object-keeps, retry_mutation-keeps, settle_injection-keeps,
  in_sequence-keeps, keeps_and, keeps_none, with_listed-keeps, report_jobs-keeps, after_get-keeps,
}

module _ {W : Type 0} (cluster : Cluster W) (is_try_do : IsTryDo cluster) (m : InjectingMutator)
    {P : W → Type 0} (kept : IsKept cluster (IsInjection cluster.libs m) P) where
  write_injected-keeps :
      (kind : WorkloadKind) (s : W × Workload) (o : Workload) (r : Workload × Outcome Bool)
      → kind ≢ job
      → inject_lumigo_into_kind cluster.libs m kind o ≡ r
      → P s.0
      → P (write_injected cluster kind s r).0.0
  unfolding write_injected
  write_injected-keeps kind s o (w, ok true) d h p =
      update_object-keeps cluster is_try_do kept kind w s (injected o d h) p
  write_injected-keeps kind s o (w, ok false) d h p = p
  write_injected-keeps kind s o (w, err e) d h p = p
  write_injected-keeps kind s o (w, panicked) d h p = p

  inject_attempt-keeps :
      (kind : WorkloadKind)
      → kind ≢ job
      → (s : W × Workload) → P s.0
      → P (inject_attempt cluster m kind s).0.0
  unfolding inject_attempt
  inject_attempt-keeps kind d (world, o) p =
      after_get-keeps cluster is_try_do kept kind
        (λ s. write_injected cluster kind s (inject_lumigo_into_kind cluster.libs m kind s.1))
        (λ s q.
          write_injected-keeps kind s s.1 (inject_lumigo_into_kind cluster.libs m kind s.1) d refl
            q)
        (cluster.get kind o.meta.namespace o.meta.name (world, o))
        (kept.getting kind o.meta.namespace o.meta.name (world, o) p)

  inject_existing-keeps :
      (kind : WorkloadKind)
      → kind ≢ job
      → (namespace trigger : String) (world : W) → P world
      → P (inject_existing cluster m kind namespace trigger world).0
  unfolding inject_existing
  inject_existing-keeps kind d namespace trigger world p =
      with_listed-keeps cluster is_try_do kept _
        (λ o world'.
          settle_injection cluster kind trigger
            (retry_mutation cluster (inject_attempt cluster m kind) (world', o)))
        (λ o world' q.
          settle_injection-keeps cluster is_try_do kept kind trigger
            (retry_mutation cluster (inject_attempt cluster m kind) (world', o))
            (retry_mutation-keeps cluster is_try_do kept (inject_attempt cluster m kind)
              (inject_attempt-keeps kind d) (world', o) q))
        (cluster.list_workloads kind namespace not_autotraced world)
        (kept.listing kind namespace not_autotraced world p)

  inject_kinds-keeps :
      (namespace trigger : String) (world : W)
      → P world
      → P (inject_kinds cluster m namespace trigger world).0
  unfolding inject_kinds
  inject_kinds-keeps namespace trigger world p =
      in_sequence-keeps cluster is_try_do kept _
        (keeps_and (inject_existing-keeps daemon_set (λ e. cc e) namespace trigger) (
          keeps_and (inject_existing-keeps deployment (λ e. cc e) namespace trigger) (
            keeps_and (inject_existing-keeps replica_set (λ e. cc e) namespace trigger) (
              keeps_and (inject_existing-keeps stateful_set (λ e. cc e) namespace trigger) (
                keeps_and (inject_existing-keeps cron_job (λ e. cc e) namespace trigger) (
                  keeps_and
                    (report_jobs-keeps cluster is_try_do kept
                      (λ o. cannot_add_instrumentation_event (object job o) trigger immutable_job)
                      not_autotraced namespace)
                    keeps_none))))))
        world p

module _ {W : Type 0} (cluster : Cluster W) (config : OperatorConfig) (P : W → Type 0) where
  if_required-keeps :
      (required : Option Error) (next : W × Verdict) (world : W)
      → P world
      → P next.0
      → P (if_required cluster config required next world).0
  if_required-keeps none next world p q = q
  if_required-keeps (some e) next world p q = p

  -- Where `try.Do` behaves as documented, a property of the cluster that reads, events and the
  -- updates with an injection by the mutator of the instance keep holds after the injection into the
  -- objects of its namespace, however that ends: nothing else is written.
  pub injection_writes_only_injections :
      IsTryDo cluster
      → (lumigo : Lumigo) (world : W)
      → IsKept cluster
          (IsInjection cluster.libs (new_injecting_mutator_from_spec config (some lumigo.spec)))
          P
      → P world
      → P (inject_lumigo_into_resources cluster config lumigo world).0
  unfolding inject_lumigo_into_resources
  injection_writes_only_injections is_try_do lumigo world kept p = if_required-keeps _ _ world p (
      inject_kinds-keeps cluster is_try_do
        (new_injecting_mutator_from_spec config (some lumigo.spec)) kept lumigo.meta.namespace
        (event_trigger lumigo) world p)
