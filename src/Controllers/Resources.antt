-- ===== src/Controllers/Resources.antt =====
-- Injection into and removal from the workloads that a namespace already holds
-- (controllers/lumigo_controller.go:526-722, controllers/lumigo_resource_manager.go). The program
-- spells the loop out for each kind; here it is one function of the kind. Logging is left out.
use Prim.Native.String.{◌++◌ as ◌⧺◌}
use lumigo_kubernetes_operat.Prelude.{
  String, Bool, true, false, Option, none, some, List, [], ◌∷◌, inl, inr, Fallible, Error, errorf,
  wrapf, Outcome, ok, err, panicked, Labels, assign_label,
}
use lumigo_kubernetes_operat.K8s.{
  Workload, WorkloadKind, daemon_set, deployment, replica_set, stateful_set, cron_job, job, object,
}
use lumigo_kubernetes_operat.Api.{Lumigo}
use lumigo_kubernetes_operat.Api.Events.{
  Event, added_instrumentation_event, removed_instrumentation_event,
  cannot_add_instrumentation_event, cannot_remove_instrumentation_event,
}
use lumigo_kubernetes_operat.Mutation.Names.{auto_trace_label_key, label_skip_next_injector_value}
use lumigo_kubernetes_operat.Mutation.Mutator.{
  InjectingMutator, OperatorConfig, new_injecting_mutator_from_spec,
}
use lumigo_kubernetes_operat.Mutation.Workloads.{inject_lumigo_into_kind, remove_lumigo_from_kind}
use lumigo_kubernetes_operat.Controllers.Cluster.{
  Verdict, completed, erred, crashed, Selector, not_autotraced, autotraced, Cluster,
}
use lumigo_kubernetes_operat.Controllers.Retry.{
  retry, max_mutation_retry_attempts, retry_on_mutation_error_matcher,
}

-- The kind in messages.
abbrev pub kind_word : WorkloadKind → String
kind_word daemon_set = "daemonset"
kind_word deployment = "deployment"
kind_word replica_set = "replicaset"
kind_word stateful_set = "statefulset"
kind_word cron_job = "cronjob"
kind_word job = "job"

unfoldable pub event_trigger : Lumigo → String
event_trigger lumigo =
    ◌⧺◌ "controller, acting on behalf of the '"
      (◌⧺◌ lumigo.meta.namespace (◌⧺◌ "/" (◌⧺◌ lumigo.meta.name "' Lumigo resource")))

abbrev pub with_labels : Workload → Labels → Workload
with_labels w labels = record w { meta = record w.meta { labels = labels } }

-- `none` is the panic of a write to a nil map.
unfoldable pub add_auto_trace_skip_next_injector_label : Workload → Option Workload
add_auto_trace_skip_next_injector_label w =
    elim (assign_label w.meta.labels auto_trace_label_key label_skip_next_injector_value) [
      | none ↦ none
      | some labels ↦ some (with_labels w labels)
    ]

abbrev pub immutable_job : Error
immutable_job =
    errorf "the PodSpec of batchv1.Job resources is immutable once the job has been created" []

abbrev verdict_of : Option Error → Verdict
verdict_of none = completed
verdict_of (some e) = erred e

-- The next statement, where the ones before it return no error.
abbrev pub and_then : {W : Type 0} → W × Verdict → (W → W × Verdict) → W × Verdict
and_then (world, completed) next = next world
and_then (world, erred e) next = (world, erred e)
and_then (world, crashed) next = (world, crashed)

-- Statements one after the other, left at the first error.
unfoldable pub in_sequence : {W : Type 0} → List (W → W × Verdict) → W → W × Verdict
in_sequence [] world = (world, completed)
in_sequence (step ∷ steps) world = and_then (step world) (in_sequence steps)

module _ {W : Type 0} (cluster : Cluster W) where
  unfoldable pub update_object : WorkloadKind → Workload → W × Workload → (W × Workload) × Verdict
  update_object kind w (world, o) =
      let (world', e) = cluster.update kind w world in ((world', o), verdict_of e)

  -- What follows `Client.Get` in the function that is retried; the object in the world's second
  -- part is the loop's variable, which `Client.Get` overwrites.
  unfoldable pub write_injected :
      WorkloadKind → W × Workload → Workload × Outcome Bool → (W × Workload) × Verdict
  write_injected kind (world, o) (w, ok true) = update_object kind w (world, o)
  write_injected kind (world, o) (w, ok false) = ((world, o), completed)
  write_injected kind (world, o) (w, err e) = (
    (world, o),
    erred (wrapf "cannot prepare mutation of %s '%s': %w" (kind_word kind ∷ o.meta.name ∷ []) e),
  )
  write_injected kind (world, o) (w, panicked) = ((world, o), crashed)

  abbrev pub write_marked : WorkloadKind → W × Workload → Option Workload → (W × Workload) × Verdict
  write_marked kind s none = (s, crashed)
  write_marked kind s (some w) = update_object kind w s

  unfoldable pub write_removed :
      WorkloadKind → W × Workload → Workload × Outcome Bool → (W × Workload) × Verdict
  write_removed kind s (w, ok true) =
      write_marked kind s (add_auto_trace_skip_next_injector_label w)
  write_removed kind s (w, ok false) = (s, completed)
  write_removed kind s (w, err e) = (
    s,
    erred (wrapf "cannot prepare mutation of %s '%s': %w" (kind_word kind ∷ w.meta.name ∷ []) e),
  )
  write_removed kind s (w, panicked) = (s, crashed)

  abbrev pub after_get :
      WorkloadKind
      → (W × Workload → (W × Workload) × Verdict)
      → (W × Workload) × Option Error
      → (W × Workload) × Verdict
  after_get kind write (s, none) = write s
  after_get kind write ((world, o), some e) = (
    (world, o),
    erred (wrapf "cannot retrieve details of %s '%s': %w" (kind_word kind ∷ o.meta.name ∷ []) e),
  )

  unfoldable pub inject_attempt :
      InjectingMutator → WorkloadKind → W × Workload → (W × Workload) × Verdict
  inject_attempt mutator kind (world, o) =
      after_get kind
        (λ s. write_injected kind s (inject_lumigo_into_kind cluster.libs mutator kind s.1))
        (cluster.get kind o.meta.namespace o.meta.name (world, o))

  unfoldable pub remove_attempt : WorkloadKind → W × Workload → (W × Workload) × Verdict
  remove_attempt kind (world, o) =
      after_get kind (λ s. write_removed kind s (remove_lumigo_from_kind cluster.libs kind s.1))
        (cluster.get kind o.meta.namespace o.meta.name (world, o))

  abbrev pub retry_mutation :
      (W × Workload → (W × Workload) × Verdict) → W × Workload → (W × Workload) × Verdict
  retry_mutation attempt s =
      retry cluster attempt max_mutation_retry_attempts retry_on_mutation_error_matcher s

  -- What follows the retries of one object: its event and, after an error, the return.
  unfoldable pub settle_injection : WorkloadKind → String → (W × Workload) × Verdict → W × Verdict
  settle_injection kind trigger ((world, o), completed) =
      (cluster.record_event (added_instrumentation_event (object kind o) trigger) world, completed)
  settle_injection kind trigger ((world, o), erred e) = (
    cluster.record_event (cannot_add_instrumentation_event (object kind o) trigger e) world,
    erred (wrapf "cannot add instrumentation to %s '%s': %w" (kind_word kind ∷ o.meta.name ∷ []) e),
  )
  settle_injection kind trigger ((world, o), crashed) = (world, crashed)

  unfoldable pub settle_removal : WorkloadKind → String → (W × Workload) × Verdict → W × Verdict
  settle_removal kind trigger ((world, o), completed) = (
    cluster.record_event (removed_instrumentation_event (object kind o) trigger) world,
    completed,
  )
  settle_removal kind trigger ((world, o), erred e) = (
    cluster.record_event (cannot_remove_instrumentation_event (object kind o) trigger e) world,
    erred (
        wrapf "cannot remove instrumentation from %s '%s': %w" (kind_word kind ∷ o.meta.name ∷ [])
          e),
  )
  settle_removal kind trigger ((world, o), crashed) = (world, crashed)

  -- `for _, object := range objects { … }`, left at the first error.
  unfoldable pub for_each : (Workload → W → W × Verdict) → List Workload → W → W × Verdict
  for_each body [] world = (world, completed)
  for_each body (o ∷ os) world = and_then (body o world) (for_each body os)

  abbrev pub with_listed :
      (Error → Error)
      → (List Workload → W → W × Verdict)
      → W × Fallible (List Workload)
      → W × Verdict
  with_listed wrap next (world, inl e) = (world, erred (wrap e))
  with_listed wrap next (world, inr objects) = next objects world

  unfoldable pub inject_existing :
      InjectingMutator → WorkloadKind → String → String → W → W × Verdict
  inject_existing mutator kind namespace trigger world =
      with_listed (wrapf "cannot list non-autotraced %ss: %w" (kind_word kind ∷ []))
        (for_each (λ o world'.
          settle_injection kind trigger (retry_mutation (inject_attempt mutator kind) (world', o))))
        (cluster.list_workloads kind namespace not_autotraced world)

  unfoldable pub remove_existing : WorkloadKind → String → String → W → W × Verdict
  remove_existing kind namespace trigger world =
      with_listed (wrapf "cannot list autotraced %ss: %w" (kind_word kind ∷ []))
        (for_each (λ o world'.
          settle_removal kind trigger (retry_mutation (remove_attempt kind) (world', o))))
        (cluster.list_workloads kind namespace autotraced world)

  -- Existing jobs are immutable: an event is all they get.
  unfoldable pub report_jobs : (Workload → Event) → Selector → String → W → W × Verdict
  report_jobs event selector namespace world =
      with_listed (wrapf "cannot list autotraced %ss: %w" ("job" ∷ []))
        (for_each (λ o world'. (cluster.record_event (event o) world', completed)))
        (cluster.list_workloads job namespace selector world)

  unfoldable pub inject_kinds : InjectingMutator → String → String → W → W × Verdict
  inject_kinds mutator namespace trigger = in_sequence (
      inject_existing mutator daemon_set namespace trigger
      ∷ inject_existing mutator deployment namespace trigger
      ∷ inject_existing mutator replica_set namespace trigger
      ∷ inject_existing mutator stateful_set namespace trigger
      ∷ inject_existing mutator cron_job namespace trigger
      ∷ report_jobs (λ o. cannot_add_instrumentation_event (object job o) trigger immutable_job)
          not_autotraced namespace
      ∷ [])

  -- `RemoveLumigoFromResources`
  unfoldable pub remove_lumigo_from_resources : String → String → W → W × Verdict
  remove_lumigo_from_resources namespace trigger = in_sequence (
      remove_existing daemon_set namespace trigger
      ∷ remove_existing deployment namespace trigger
      ∷ remove_existing replica_set namespace trigger
      ∷ remove_existing stateful_set namespace trigger
      ∷ remove_existing cron_job namespace trigger
      ∷ report_jobs (λ o. cannot_remove_instrumentation_event (object job o) trigger immutable_job)
          autotraced namespace
      ∷ [])

  -- An error in one namespace is logged, and the next namespace follows; a panic is not caught.
  abbrev pub despite_error : W × Verdict → (W → W × Verdict) → W × Verdict
  despite_error (world, completed) next = next world
  despite_error (world, erred e) next = next world
  despite_error (world, crashed) next = (world, crashed)

  unfoldable pub remove_lumigo_from_namespaces : List String → String → W → W × Verdict
  remove_lumigo_from_namespaces [] trigger world = (world, completed)
  remove_lumigo_from_namespaces (namespace ∷ namespaces) trigger world =
      despite_error (remove_lumigo_from_resources namespace trigger world)
        (remove_lumigo_from_namespaces namespaces trigger)

  abbrev pub with_namespaces : String → W × Fallible (List String) → W × Verdict
  with_namespaces trigger (world, inl e) =
      (world, erred (wrapf "failed to list namespaces: %w" [] e))
  with_namespaces trigger (world, inr namespaces) =
      remove_lumigo_from_namespaces namespaces trigger world

  unfoldable pub remove_lumigo_from_all_namespaces : String → W → W × Verdict
  remove_lumigo_from_all_namespaces trigger world =
      with_namespaces trigger (cluster.list_namespaces world)

module _ {W : Type 0} (cluster : Cluster W) (config : OperatorConfig) where
  abbrev pub if_required : Option Error → W × Verdict → W → W × Verdict
  if_required none next world = next
  if_required (some e) next world =
      (world, erred (wrapf "cannot create label selector for non-autotraced objects: %w" [] e))

  -- `injectLumigoIntoResources`
  unfoldable pub inject_lumigo_into_resources : Lumigo → W → W × Verdict
  inject_lumigo_into_resources lumigo world =
      let mutator = new_injecting_mutator_from_spec config (some lumigo.spec) in
      if_required
        (cluster.new_requirement auto_trace_label_key
          ("false" ∷ mutator.autotrace_label_value ∷ []))
        (inject_kinds cluster mutator lumigo.meta.namespace (event_trigger lumigo) world) world
