-- ===== src/Injector/Gates.antt =====
-- Which requests the injector webhook answers how (webhooks/injector/injector_webhook.go).
use lumigo_kubernetes_operat.Prelude.{
  String, true, false, Option, none, some, List, [], ◌∷◌, ◌≡◌, ◌≢◌, inl, inr, refl, arith, Fallible,
  lower_is, label_or_empty,
}
use lumigo_kubernetes_operat.K8s.{Workload, WorkloadKind, ApiResult, found, not_found, failed}
use lumigo_kubernetes_operat.Api.{Lumigo}
use lumigo_kubernetes_operat.Api.Events.{Event}
use lumigo_kubernetes_operat.Conditions.{is_active}
use lumigo_kubernetes_operat.Mutation.Names.{auto_trace_label_key}
use lumigo_kubernetes_operat.Mutation.Mutator.{OperatorConfig}
use lumigo_kubernetes_operat.Admission.{delete, GroupVersionKind, Request, allowed, patched}
use lumigo_kubernetes_operat.Injector.{
  Services, answered, create_auto_trace_settings, s_gvk, gvk_text, adapted_kind,
  new_resource_adapter, inject_by_labels, inject_by_lumigo, inject_adapted, handle, is_disabled,
}

abbrev pub daemon_set_gvk : GroupVersionKind
daemon_set_gvk = record { group = "apps"; version = "v1"; kind = "DaemonSet" }

adapted_daemon_set :
    (services : Services) (gvk : GroupVersionKind) (raw : String)
    → gvk ≡ daemon_set_gvk
    → (new_resource_adapter services gvk raw ≡ inr none)
      × (gvk_text gvk ≡ "apps/v1, Kind=DaemonSet")
unfolding new_resource_adapter adapted_kind s_gvk gvk_text
adapted_daemon_set services gvk raw e = (rw e, rw e)

module _ (services : Services) (config : OperatorConfig) where
  -- Whatever the object and the state of its namespace, a request for a resource of the kind
  -- apps/v1 DaemonSet is allowed without a patch and without an event, as one of a kind that the
  -- webhook does not mutate.
  pub daemon_sets_never_injected :
      (request : Request)
      → request.kind ≡ daemon_set_gvk
      → request.operation ≢ delete
      → handle services config request
        ≡ answered
            (allowed "The Lumigo Injector webhook does not mutate resources of type %s"
              ("apps/v1, Kind=DaemonSet" ∷ []))
            []
  unfolding handle
  daemon_sets_never_injected request k d =
      ground (arith, adapted_daemon_set services request.kind request.raw k)

  -- The injection is asked for: by an active Lumigo instance that does not disable it, the first
  -- that is listed, or, where there is no instance, by the label of the object.
  pub data IsMandated (w : Workload) : Type 0 where
    by_lumigo :
        (lumigo : Lumigo) (others : List Lumigo)
        → services.list w.meta.namespace ≡ found (lumigo ∷ others)
        → is_disabled lumigo.spec.tracing.injection.enabled ≡ false
        → is_active lumigo ≡ true
        → IsMandated w
    by_label :
        services.list w.meta.namespace ≡ found []
        → lower_is (label_or_empty w.meta.labels auto_trace_label_key) "true" ≡ true
        → IsMandated w

  inject_by_labels_patched :
      (kind : WorkloadKind) (w : Workload) (request : Request) (raw out : String)
      (events : List Event)
      → services.list w.meta.namespace ≡ found []
      → inject_by_labels services config kind w request ≡ answered (patched raw out) events
      → IsMandated w
  unfolding inject_by_labels create_auto_trace_settings
  inject_by_labels_patched kind w request raw out events l h = by_label l (ground arith)

  inject_by_lumigo_patched :
      (lumigo : Lumigo) (others : List Lumigo) (kind : WorkloadKind) (w : Workload)
      (request : Request) (raw out : String) (events : List Event)
      → services.list w.meta.namespace ≡ found (lumigo ∷ others)
      → inject_by_lumigo services config lumigo kind w request ≡ answered (patched raw out) events
      → IsMandated w
  unfolding inject_by_lumigo
  inject_by_lumigo_patched lumigo others kind w request raw out events l h =
      by_lumigo lumigo others l (ground arith) (ground arith)

  inject_adapted_patched :
      (kind : WorkloadKind) (w : Workload) (request : Request) (raw out : String)
      (events : List Event) (listed : ApiResult (List Lumigo))
      → services.list w.meta.namespace ≡ listed
      → inject_adapted services config kind w request ≡ answered (patched raw out) events
      → IsMandated w
  unfolding inject_adapted
  inject_adapted_patched kind w request raw out events (found []) l h =
      inject_by_labels_patched kind w request raw out events l (ground (arith, l, h))
  inject_adapted_patched kind w request raw out events (found (lumigo ∷ others)) l h =
      inject_by_lumigo_patched lumigo others kind w request raw out events l (ground (arith, l, h))
  inject_adapted_patched kind w request raw out events (not_found e) l h = ground (arith, l, h)
  inject_adapted_patched kind w request raw out events (failed e) l h = ground (arith, l, h)

  handle-decoded :
      (request : Request) (raw out : String) (events : List Event)
      (adapted : Fallible (Option (WorkloadKind × Workload)))
      → new_resource_adapter services request.kind request.raw ≡ adapted
      → handle services config request ≡ answered (patched raw out) events
      → (kind : WorkloadKind) × (w : Workload) × (adapted ≡ inr (some (kind, w)))
        × (inject_adapted services config kind w request ≡ answered (patched raw out) events)
  unfolding handle
  handle-decoded request raw out events (inl e) a h = ground (arith, a, h)
  handle-decoded request raw out events (inr none) a h = ground (arith, a, h)
  handle-decoded request raw out events (inr (some (kind, w))) a h =
      (kind, w, refl, ground (arith, a, h))

  -- A patch is answered only for an object that was decoded as one of the six kinds, and whose
  -- injection is asked for.
  pub patched_only_if_IsMandated :
      (request : Request) (raw out : String) (events : List Event)
      → handle services config request ≡ answered (patched raw out) events
      → (kind : WorkloadKind) × (w : Workload) × (new_resource_adapter services request.kind
            request.raw
          ≡ inr (some (kind, w)))
        × IsMandated w
  patched_only_if_IsMandated request raw out events h =
      let (kind, w, adapted, r) =
        handle-decoded request raw out events
          (new_resource_adapter services request.kind request.raw) refl h in
      (
        kind,
        w,
        adapted,
        inject_adapted_patched kind w request raw out events (services.list w.meta.namespace) refl
            r,
      )
