-- ===== src/Controllers/Writes.antt =====
-- What the controller writes to the workloads of a namespace
-- (controllers/lumigo_controller.go:526-722, controllers/lumigo_resource_manager.go).
use lumigo_kubernetes_operat.Prelude.{
  ℕ, zero, suc, String, true, Option, none, some, List, [], ◌∷◌, ◌≡◌, ◌≢◌, inl, inr, Fallible,
  Error, wrapf, ok,
}
use lumigo_kubernetes_operat.K8s.{Workload, WorkloadKind, job, Libs}
use lumigo_kubernetes_operat.Api.Events.{Event}
use lumigo_kubernetes_operat.Mutation.Mutator.{InjectingMutator}
use lumigo_kubernetes_operat.Mutation.Workloads.{inject_lumigo_into_kind, remove_lumigo_from_kind}
use lumigo_kubernetes_operat.Controllers.Cluster.{
  Verdict, completed, erred, crashed, Selector, Cluster, IsTryDo,
}
use lumigo_kubernetes_operat.Controllers.Retry.{up_to_times, unless_done, retry_lem}
use lumigo_kubernetes_operat.Controllers.Resources.{
  add_auto_trace_skip_next_injector_label, update_object, after_get, settle_injection,
  settle_removal, for_each, with_listed, in_sequence, and_then, report_jobs, retry_mutation,
}

-- A property of the world that reading, recording events and the writes in question keep.
pub record IsKept {W : Type 0} (cluster : Cluster W) (IsWrite : WorkloadKind → Workload → Type 0)
    (P : W → Type 0) : Type 0 where
  pub listing :
      (kind : WorkloadKind) (namespace : String) (selector : Selector) (world : W)
      → P world
      → P (cluster.list_workloads kind namespace selector world).0
  pub getting :
      (kind : WorkloadKind) (namespace name : String) (s : W × Workload)
      → P s.0
      → P (cluster.get kind namespace name s).0.0
  pub updating :
      (kind : WorkloadKind) (w : Workload) (world : W)
      → IsWrite kind w
      → P world
      → P (cluster.update kind w world).0
  pub recording : (event : Event) (world : W) → P world → P (cluster.record_event event world)
  pub listing_namespaces : (world : W) → P world → P (cluster.list_namespaces world).0

-- What a removal may write: an object whose instrumentation the mutator removed, marked for the
-- injector webhook to skip, and never a job.
pub data IsRemoval (libs : Libs) : WorkloadKind → Workload → Type 0 where
  removed :
      {kind : WorkloadKind} {w' : Workload} (o w : Workload)
      → kind ≢ job
      → remove_lumigo_from_kind libs kind o ≡ (w, ok true)
      → add_auto_trace_skip_next_injector_label w ≡ some w'
      → IsRemoval libs kind w'

-- What an injection may write: an object into which the mutator injected, and never a job.
pub data IsInjection (libs : Libs) (m : InjectingMutator) : WorkloadKind → Workload → Type 0 where
  injected :
      {kind : WorkloadKind} {w : Workload} (o : Workload)
      → kind ≢ job
      → inject_lumigo_into_kind libs m kind o ≡ (w, ok true)
      → IsInjection libs m kind w

-- Every one of the steps keeps the property.
pub data IsEachKeeping {W : Type 0} (P : W → Type 0) : List (W → W × Verdict) → Type 0 where
  keeps_none : IsEachKeeping P []
  keeps_and :
      {step : W → W × Verdict} {steps : List (W → W × Verdict)}
      → ((world : W) → P world → P (step world).0)
      → IsEachKeeping P steps
      → IsEachKeeping P (step ∷ steps)

module _ {W : Type 0} (cluster : Cluster W) (is_try_do : IsTryDo cluster) {P : W → Type 0} where
  module _ {IsWrite : WorkloadKind → Workload → Type 0} (kept : IsKept cluster IsWrite P) where
    pub update_object-keeps :
        (kind : WorkloadKind) (w : Workload) (s : W × Workload)
        → IsWrite kind w
        → P s.0
        → P (update_object cluster kind w s).0.0
    unfolding update_object
    update_object-keeps kind w s is p = kept.updating kind w s.0 is p

    unless_done-keeps :
        (again : W × Workload → (W × Workload) × Verdict)
        → ((s : W × Workload) → P s.0 → P (again s).0.0)
        → (r : (W × Workload) × Verdict) → P r.0.0
        → P (unless_done again r).0.0
    unless_done-keeps again k (t, completed) q = q
    unless_done-keeps again k (t, crashed) q = q
    unless_done-keeps again k (t, erred e) q = k t q

    up_to_times-keeps :
        (n : ℕ) (f : W × Workload → (W × Workload) × Verdict)
        → ((s : W × Workload) → P s.0 → P (f s).0.0)
        → (s : W × Workload) → P s.0
        → P (up_to_times n f s).0.0
    unfolding up_to_times
    up_to_times-keeps zero f k s p = k s p
    up_to_times-keeps (suc n) f k s p =
        unless_done-keeps (up_to_times n f) (up_to_times-keeps n f k) (f s) (k s p)

    pub retry_mutation-keeps :
        (f : W × Workload → (W × Workload) × Verdict)
        → ((s : W × Workload) → P s.0 → P (f s).0.0)
        → (s : W × Workload) → P s.0
        → P (retry_mutation cluster f s).0.0
    retry_mutation-keeps f k s p =
        rw (retry_lem cluster is_try_do f s) (up_to_times-keeps 4 f k s p)

    pub settle_injection-keeps :
        (kind : WorkloadKind) (trigger : String) (r : (W × Workload) × Verdict)
        → P r.0.0
        → P (settle_injection cluster kind trigger r).0
    unfolding settle_injection
    settle_injection-keeps kind trigger (s, completed) p = kept.recording _ s.0 p
    settle_injection-keeps kind trigger (s, erred e) p = kept.recording _ s.0 p
    settle_injection-keeps kind trigger (s, crashed) p = p

    pub settle_removal-keeps :
        (kind : WorkloadKind) (trigger : String) (r : (W × Workload) × Verdict)
        → P r.0.0
        → P (settle_removal cluster kind trigger r).0
    unfolding settle_removal
    settle_removal-keeps kind trigger (s, completed) p = kept.recording _ s.0 p
    settle_removal-keeps kind trigger (s, erred e) p = kept.recording _ s.0 p
    settle_removal-keeps kind trigger (s, crashed) p = p

    and_then-keeps :
        (r : W × Verdict) (next : W → W × Verdict)
        → P r.0
        → ((world : W) → P world → P (next world).0)
        → P (and_then r next).0
    and_then-keeps (world, completed) next p k = k world p
    and_then-keeps (world, erred e) next p k = p
    and_then-keeps (world, crashed) next p k = p

    pub in_sequence-keeps :
        (steps : List (W → W × Verdict))
        → IsEachKeeping P steps
        → (world : W) → P world
        → P (in_sequence steps world).0
    unfolding in_sequence
    in_sequence-keeps [] k world p = p
    in_sequence-keeps (step ∷ steps) (keeps_and k ks) world p =
        and_then-keeps (step world) (in_sequence steps) (k world p) (in_sequence-keeps steps ks)

    for_each-keeps :
        (body : Workload → W → W × Verdict)
        → ((o : Workload) (world : W) → P world → P (body o world).0)
        → (os : List Workload) (world : W) → P world
        → P (for_each cluster body os world).0
    unfolding for_each
    for_each-keeps body k [] world p = p
    for_each-keeps body k (o ∷ os) world p =
        and_then-keeps (body o world) (for_each cluster body os) (k o world p)
          (for_each-keeps body k os)

    pub with_listed-keeps :
        (wrap : Error → Error) (body : Workload → W → W × Verdict)
        → ((o : Workload) (world : W) → P world → P (body o world).0)
        → (r : W × Fallible (List Workload)) → P r.0
        → P (with_listed cluster wrap (for_each cluster body) r).0
    with_listed-keeps wrap body k (world, inl e) p = p
    with_listed-keeps wrap body k (world, inr objects) p = for_each-keeps body k objects world p

    pub report_jobs-keeps :
        (event : Workload → Event) (selector : Selector) (namespace : String) (world : W)
        → P world
        → P (report_jobs cluster event selector namespace world).0
    unfolding report_jobs
    report_jobs-keeps event selector namespace world p =
        with_listed-keeps (wrapf "cannot list autotraced %ss: %w" ("job" ∷ []))
          (λ o world'. (cluster.record_event (event o) world', completed))
          (λ o world' q. kept.recording (event o) world' q)
          (cluster.list_workloads job namespace selector world)
          (kept.listing job namespace selector world p)

    pub after_get-keeps :
        (kind : WorkloadKind) (write : W × Workload → (W × Workload) × Verdict)
        → ((s : W × Workload) → P s.0 → P (write s).0.0)
        → (r : (W × Workload) × Option Error) → P r.0.0
        → P (after_get cluster kind write r).0.0
    after_get-keeps kind write k (s, none) p = k s p
    after_get-keeps kind write k (s, some e) p = p
