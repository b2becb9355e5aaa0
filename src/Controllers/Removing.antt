-- ===== src/Controllers/Removing.antt =====
-- What the removal from the objects of a namespace writes
-- (controllers/lumigo_resource_manager.go).
use lumigo_kubernetes_operat.Prelude.{
  String, Bool, true, false, Option, none, some, List, [], ◌∷◌, ◌≡◌, ◌≢◌, refl, inl, inr, Fallible,
  Outcome, ok, err, panicked,
}
use lumigo_kubernetes_operat.K8s.{
  Workload, WorkloadKind, daemon_set, deployment, replica_set, stateful_set, cron_job, job, object,
}
use lumigo_kubernetes_operat.Api.Events.{cannot_remove_instrumentation_event}
use lumigo_kubernetes_operat.Mutation.Workloads.{remove_lumigo_from_kind}
use lumigo_kubernetes_operat.Controllers.Cluster.{
  Verdict, completed, erred, crashed, autotraced, Cluster, IsTryDo,
}
use lumigo_kubernetes_operat.Controllers.Resources.{
  add_auto_trace_skip_next_injector_label, write_marked, write_removed, remove_attempt,
  settle_removal, remove_existing, remove_lumigo_from_resources, despite_error,
  remove_lumigo_from_namespaces, with_namespaces, remove_lumigo_from_all_namespaces, retry_mutation,
  immutable_job,
}
use lumigo_kubernetes_operat.Controllers.Writes.{
  IsKept, IsRemoval, removed, update_object-keeps, retry_mutation-keeps, settle_removal-keeps,
  in_sequence-keeps, keeps_and, keeps_none, with_listed-keeps, report_jobs-keeps, after_get-keeps,
}

module _ {W : Type 0} (cluster : Cluster W) (is_try_do : IsTryDo cluster) {P : W → Type 0}
    (kept : IsKept cluster (IsRemoval cluster.libs) P) where
  write_marked-keeps :
      (kind : WorkloadKind) (s : W × Workload) (o w : Workload) (marked : Option Workload)
      → kind ≢ job
      → remove_lumigo_from_kind cluster.libs kind o ≡ (w, ok true)
      → add_auto_trace_skip_next_injector_label w ≡ marked
      → P s.0
      → P (write_marked cluster kind s marked).0.0
  write_marked-keeps kind s o w none d h e p = p
  write_marked-keeps kind s o w (some w') d h e p =
      update_object-keeps cluster is_try_do kept kind w' s (removed o w d h e) p

  write_removed-keeps :
      (kind : WorkloadKind) (s : W × Workload) (o : Workload) (r : Workload × Outcome Bool)
      → kind ≢ job
      → remove_lumigo_from_kind cluster.libs kind o ≡ r
      → P s.0
      → P (write_removed cluster kind s r).0.0
  unfolding write_removed
  write_removed-keeps kind s o (w, ok true) d h p =
      write_marked-keeps kind s o w (add_auto_trace_skip_next_injector_label w) d h refl p
  write_removed-keeps kind s o (w, ok false) d h p = p
  write_removed-keeps kind s o (w, err e) d h p = p
  write_removed-keeps kind s o (w, panicked) d h p = p

  remove_attempt-keeps :
      (kind : WorkloadKind)
      → kind ≢ job
      → (s : W × Workload) → P s.0
      → P (remove_attempt cluster kind s).0.0
  unfolding remove_attempt
  remove_attempt-keeps kind d (world, o) p =
      after_get-keeps cluster is_try_do kept kind
        (λ s. write_removed cluster kind s (remove_lumigo_from_kind cluster.libs kind s.1))
        (λ s q.
          write_removed-keeps kind s s.1 (remove_lumigo_from_kind cluster.libs kind s.1) d refl q)
        (cluster.get kind o.meta.namespace o.meta.name (world, o))
        (kept.getting kind o.meta.namespace o.meta.name (world, o) p)

  remove_existing-keeps :
      (kind : WorkloadKind)
      → kind ≢ job
      → (namespace trigger : String) (world : W) → P world
      → P (remove_existing cluster kind namespace trigger world).0
  unfolding remove_existing
  remove_existing-keeps kind d namespace trigger world p =
      with_listed-keeps cluster is_try_do kept _
        (λ o world'.
          settle_removal cluster kind trigger
            (retry_mutation cluster (remove_attempt cluster kind) (world', o)))
        (λ o world' q.
          settle_removal-keeps cluster is_try_do kept kind trigger
            (retry_mutation cluster (remove_attempt cluster kind) (world', o))
            (retry_mutation-keeps cluster is_try_do kept (remove_attempt cluster kind)
              (remove_attempt-keeps kind d) (world', o) q))
        (cluster.list_workloads kind namespace autotraced world)
        (kept.listing kind namespace autotraced world p)

  -- Where `try.Do` behaves as documented, a property of the cluster that reads, events and the
  -- updates with a removal keep holds after the removal from the objects of a namespace, however
  -- that ends: nothing else is written.
  pub removal_writes_only_removals :
      (namespace trigger : String) (world : W)
      → P world
      → P (remove_lumigo_from_resources cluster namespace trigger world).0
  unfolding remove_lumigo_from_resources
  removal_writes_only_removals namespace trigger world p =
      in_sequence-keeps cluster is_try_do kept _
        (keeps_and (remove_existing-keeps daemon_set (λ e. cc e) namespace trigger) (
          keeps_and (remove_existing-keeps deployment (λ e. cc e) namespace trigger) (
            keeps_and (remove_existing-keeps replica_set (λ e. cc e) namespace trigger) (
              keeps_and (remove_existing-keeps stateful_set (λ e. cc e) namespace trigger) (
                keeps_and (remove_existing-keeps cron_job (λ e. cc e) namespace trigger) (
                  keeps_and
                    (report_jobs-keeps cluster is_try_do kept
                      (λ o.
                        cannot_remove_instrumentation_event (object job o) trigger immutable_job)
                      autotraced namespace)
                    keeps_none))))))
        world p

  despite_error-keeps :
      (r : W × Verdict) (next : W → W × Verdict)
      → P r.0
      → ((world : W) → P world → P (next world).0)
      → P (despite_error cluster r next).0
  despite_error-keeps (world, completed) next p k = k world p
  despite_error-keeps (world, erred e) next p k = k world p
  despite_error-keeps (world, crashed) next p k = p

  remove_lumigo_from_namespaces-keeps :
      (namespaces : List String) (trigger : String) (world : W)
      → P world
      → P (remove_lumigo_from_namespaces cluster namespaces trigger world).0
  unfolding remove_lumigo_from_namespaces
  remove_lumigo_from_namespaces-keeps [] trigger world p = p
  remove_lumigo_from_namespaces-keeps (namespace ∷ namespaces) trigger world p =
      despite_error-keeps (remove_lumigo_from_resources cluster namespace trigger world)
        (remove_lumigo_from_namespaces cluster namespaces trigger)
        (removal_writes_only_removals namespace trigger world p)
        (remove_lumigo_from_namespaces-keeps namespaces trigger)

  with_namespaces-keeps :
      (trigger : String) (r : W × Fallible (List String))
      → P r.0
      → P (with_namespaces cluster trigger r).0
  with_namespaces-keeps trigger (world, inl e) p = p
  with_namespaces-keeps trigger (world, inr namespaces) p =
      remove_lumigo_from_namespaces-keeps namespaces trigger world p

  -- Where `try.Do` behaves as documented, the removal from all namespaces, too, writes nothing but
  -- removals, however it ends.
  pub removal_from_all_namespaces_writes_only_removals :
      (trigger : String) (world : W)
      → P world
      → P (remove_lumigo_from_all_namespaces cluster trigger world).0
  unfolding remove_lumigo_from_all_namespaces
  removal_from_all_namespaces_writes_only_removals trigger world p =
      with_namespaces-keeps trigger (cluster.list_namespaces world)
        (kept.listing_namespaces world p)
