-- ===== src/Controllers/Skipping.antt =====
-- How the controller's removal and the injector webhook fit: an update with a removal passes through
-- the webhook, which is not to inject again.
use lumigo_kubernetes_operat.Prelude.{
  String, Bool, true, false, not, Option, none, some, List, [], ◌∷◌, ◌≡◌, ◌≢◌, inl, inr, refl,
  arith, Fallible, Error, eq_iff, if◌then◌else◌, Labels, label, label_or_empty, assign_label,
  find_entry-put_entry, label-delete_label,
}
use text.Mathlib.TextPositions.{eq_refl}
use lumigo_kubernetes_operat.K8s.{
  Workload, WorkloadKind, Libs, object, ApiResult, found, not_found, failed,
}
use lumigo_kubernetes_operat.Api.{Lumigo}
use lumigo_kubernetes_operat.Conditions.{is_active}
use lumigo_kubernetes_operat.Mutation.Names.{auto_trace_label_key, label_skip_next_injector_value}
use lumigo_kubernetes_operat.Mutation.Mutator.{InjectingMutator, OperatorConfig}
use lumigo_kubernetes_operat.Admission.{
  Request, Operation, create, update, delete, connect, allowed, allowed_error, errored, patched,
}
use lumigo_kubernetes_operat.Injector.{
  create_auto_trace_settings, Services, Reaction, answered, process_resource_injection, respond,
  without_label, is_disabled, inject_by_labels, inject_by_lumigo, inject_adapted,
  new_resource_adapter, handle,
}
use lumigo_kubernetes_operat.Controllers.Resources.{
  with_labels, add_auto_trace_skip_next_injector_label,
}
use lumigo_kubernetes_operat.Controllers.Writes.{IsRemoval, removed}

label-assign_label :
    (l : Labels) (k v : String) (l' : Labels)
    → assign_label l k v ≡ some l'
    → label_or_empty l' k ≡ v
unfolding assign_label label_or_empty label
label-assign_label none k v l' h = cc h
label-assign_label (some l) k v l' h = ground (arith, find_entry-put_entry k k v l, eq_refl k)

marked_with :
    (w w' : Workload) (labels : Option Labels)
    → assign_label w.meta.labels auto_trace_label_key label_skip_next_injector_value ≡ labels
    → (elim labels [ none ↦ none | some l ↦ some (with_labels w l) ]) ≡ some w'
    → label_or_empty w'.meta.labels auto_trace_label_key ≡ label_skip_next_injector_value
marked_with w w' none e h = cc h
marked_with w w' (some l) e h = grind (
  arith,
  h,
  label-assign_label w.meta.labels auto_trace_label_key label_skip_next_injector_value l e,
)

marked_label :
    (w w' : Workload)
    → add_auto_trace_skip_next_injector_label w ≡ some w'
    → label_or_empty w'.meta.labels auto_trace_label_key ≡ label_skip_next_injector_value
unfolding add_auto_trace_skip_next_injector_label
marked_label w w' h =
    marked_with w w'
      (assign_label w.meta.labels auto_trace_label_key label_skip_next_injector_value) refl h

-- The object without its marking label, and with everything else as it was.
pub record IsUnmarked (w w' : Workload) : Type 0 where
  pub mark_gone : label w'.meta.labels auto_trace_label_key ≡ none
  pub labels_kept :
      (key : String)
      → key ≢ auto_trace_label_key
      → label w'.meta.labels key ≡ label w.meta.labels key
  pub rest_kept : record w' { meta = record w'.meta { labels = w.meta.labels } } ≡ w

without_label-IsUnmarked : (w : Workload) → IsUnmarked w (without_label w)
without_label-IsUnmarked w = record {
  mark_gone = rw (label-delete_label auto_trace_label_key auto_trace_label_key w.meta.labels);
  labels_kept = λ key n. ground (
    arith,
    label-delete_label auto_trace_label_key key w.meta.labels,
    eq_iff auto_trace_label_key key,
  );
  rest_kept = refl;
}

module _ (services : Services) (request : Request) where
  -- The answer injects nothing: it is without events, and without a patch or with the patch to the
  -- object without its mark.
  pub data IsPassedOn (kind : WorkloadKind) (w : Workload) : Reaction → Type 0 where
    unmarked :
        {w' : Workload} {out : String}
        → IsUnmarked w w'
        → services.marshal (object kind w') ≡ inr out
        → IsPassedOn kind w (answered (patched request.raw out) [])
    let_through :
        {message : String} {arguments : List String}
        → IsPassedOn kind w (answered (allowed message arguments) [])
    let_through_failing : {e : Error} → IsPassedOn kind w (answered (allowed_error e) [])
    refused : {e : Error} → IsPassedOn kind w (answered (errored e) [])

  respond-IsPassedOn :
      (kind : WorkloadKind) (w : Workload) (marshalled : Fallible String)
      → services.marshal (object kind (without_label w)) ≡ marshalled
      → IsPassedOn kind w (respond services request kind (without_label w) [])
  unfolding respond
  respond-IsPassedOn kind w (inl e) h = rw (respond, h) let_through_failing
  respond-IsPassedOn kind w (inr out) h = rw (respond, h) (unmarked (without_label-IsUnmarked w) h)

  module _ (kind : WorkloadKind) (w : Workload)
      (marked : label_or_empty w.meta.labels auto_trace_label_key
        ≡ label_skip_next_injector_value) where
    process-marked :
        (m : InjectingMutator) (trigger : String)
        → process_resource_injection services kind w m trigger request
          ≡ respond services request kind (without_label w) []
    unfolding process_resource_injection
    process-marked m trigger = rw marked refl

    process-IsPassedOn :
        (m : InjectingMutator) (trigger : String)
        → IsPassedOn kind w (process_resource_injection services kind w m trigger request)
    process-IsPassedOn m trigger = rw (process-marked m trigger) (respond-IsPassedOn kind w _ refl)

    if-IsPassedOn :
        (b : Bool) {x y : Reaction}
        → IsPassedOn kind w x
        → IsPassedOn kind w y
        → IsPassedOn kind w (if b then x else y)
    if-IsPassedOn true p q = p
    if-IsPassedOn false p q = q

    module _ (config : OperatorConfig) where
      by_lumigo-IsPassedOn :
          (lumigo : Lumigo)
          → IsPassedOn kind w (inject_by_lumigo services config lumigo kind w request)
      unfolding inject_by_lumigo
      by_lumigo-IsPassedOn lumigo =
          if-IsPassedOn (is_disabled lumigo.spec.tracing.injection.enabled) let_through
            (if-IsPassedOn (not (is_active lumigo)) let_through (process-IsPassedOn _ _))

      by_labels-IsPassedOn : IsPassedOn kind w (inject_by_labels services config kind w request)
      unfolding inject_by_labels
      by_labels-IsPassedOn =
          if-IsPassedOn (create_auto_trace_settings w.meta.labels).is_auto_traced
            (process-IsPassedOn _ _) let_through

      adapted-IsPassedOn :
          (listed : ApiResult (List Lumigo))
          → services.list w.meta.namespace ≡ listed
          → IsPassedOn kind w (inject_adapted services config kind w request)
      unfolding inject_adapted
      adapted-IsPassedOn (found []) l = rw (inject_adapted, l) by_labels-IsPassedOn
      adapted-IsPassedOn (found (lumigo ∷ others)) l =
          rw (inject_adapted, l) (by_lumigo-IsPassedOn lumigo)
      adapted-IsPassedOn (not_found e) l = rw (inject_adapted, l) let_through
      adapted-IsPassedOn (failed e) l = rw (inject_adapted, l) refused

      adapted-unmarked :
          (lumigo : Lumigo) (others : List Lumigo)
          → services.list w.meta.namespace ≡ found (lumigo ∷ others)
          → is_disabled lumigo.spec.tracing.injection.enabled ≡ false
          → is_active lumigo ≡ true
          → inject_adapted services config kind w request
            ≡ respond services request kind (without_label w) []
      unfolding inject_adapted inject_by_lumigo
      adapted-unmarked lumigo others l d a = rw (inject_adapted, l) (rw (d, a) (process-marked _ _))

  handle-adapted :
      (config : OperatorConfig) (kind : WorkloadKind) (w : Workload) (o : Operation)
      → request.operation ≡ o
      → o ≢ delete
      → new_resource_adapter services request.kind request.raw ≡ inr (some (kind, w))
      → handle services config request ≡ inject_adapted services config kind w request
  unfolding handle
  handle-adapted config kind w create c n a = ground (arith, c, a)
  handle-adapted config kind w update c n a = ground (arith, c, a)
  handle-adapted config kind w delete c n a = absurd (n refl)
  handle-adapted config kind w connect c n a = ground (arith, c, a)

-- An object that the controller writes when it removes instrumentation, in a request that the
-- webhook adapts as an object of that kind, and that is not a deletion: the webhook injects nothing
-- and records no event, and where it answers with a patch, this one only takes the marking label
-- off. It does so if the first instance that is listed is active and does not disable the injection,
-- and the object without its mark can be encoded.
pub removal_is_not_reinjected :
    (services : Services) (request : Request) (libs : Libs) (config : OperatorConfig)
    (kind : WorkloadKind) (w : Workload)
    → IsRemoval libs kind w
    → request.operation ≢ delete
    → new_resource_adapter services request.kind request.raw ≡ inr (some (kind, w))
    → IsPassedOn services request kind w (handle services config request)
      × ((lumigo : Lumigo) (others : List Lumigo) (out : String)
          → services.list w.meta.namespace ≡ found (lumigo ∷ others)
          → is_disabled lumigo.spec.tracing.injection.enabled ≡ false
          → is_active lumigo ≡ true
          → services.marshal (object kind (without_label w)) ≡ inr out
          → handle services config request ≡ answered (patched request.raw out) [])
unfolding respond
removal_is_not_reinjected services request libs config kind w (removed o w1 d h e) n a =
    let marked = marked_label w1 w e in
    let adapted = handle-adapted services request config kind w request.operation refl n a in
    (
      rw adapted (adapted-IsPassedOn services request kind w marked config _ refl),
      λ lumigo others out l d' t m.
          rw
            (
              adapted,
              adapted-unmarked services request kind w marked config lumigo others l d' t,
              respond,
              m,
            )
            refl,
    )
