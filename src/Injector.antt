-- ===== src/Injector.antt =====
-- The webhook that injects workloads as they are created or updated
-- (controller/src/webhooks/injector/injector_webhook.go). The decoder, the JSON encoder and the
-- listing of a namespace are parameters; logging is left out. A handler answers with a response and
-- the events that it records, or crashes where the injection panics. The constructors of mutators
-- return no error, so the two branches for such an error are not there.
pub mod Gates
use Prim.Native.String.{◌++◌ as ◌⧺◌}
use text.Mathlib.Text.{starts_with}
use lumigo_kubernetes_operat.Prelude.{
  String, Bool, true, false, not, Option, none, some, List, [], ◌∷◌, inl, inr, Fallible, Error,
  wrapf, Labels, Outcome, ok, err, panicked, ◌==◌, if◌then◌else◌, lower_is, label, label_or_empty,
  delete_label,
}
use mathlib.Core.Option
use lumigo_kubernetes_operat.K8s.{
  Workload, WorkloadKind, daemon_set, deployment, replica_set, stateful_set, cron_job, job,
  Resource, object, ApiResult, found, not_found, failed, Libs,
}
use lumigo_kubernetes_operat.Api.{Lumigo, AutoTraceSettings}
use lumigo_kubernetes_operat.Api.Events.{
  Event, added_instrumentation_event, updated_instrumentation_event,
  cannot_add_instrumentation_event, cannot_update_instrumentation_event,
}
use lumigo_kubernetes_operat.Conditions.{is_active}
use lumigo_kubernetes_operat.Mutation.Names.{
  auto_trace_label_key, traces_enabled_label_key, logs_enabled_label_key, token_secret_name_key,
  token_secret_key_key, label_version_prefix_value, label_skip_next_injector_value,
}
use lumigo_kubernetes_operat.Mutation.Mutator.{
  InjectingMutator, OperatorConfig, new_injecting_mutator_from_spec,
  new_mutator_from_auto_trace_settings,
}
use lumigo_kubernetes_operat.Mutation.Workloads.{inject_lumigo_into_kind}
use lumigo_kubernetes_operat.Admission.{
  is_delete, GroupVersionKind, Request, Response, allowed, allowed_error, errored, patched,
}

pub record Services : Type 0 where
  pub libs : Libs
  pub decode : WorkloadKind → String → Fallible Workload
  pub marshal : Resource → Fallible String
  pub list : String → ApiResult (List Lumigo)

pub data Reaction : Type 0 where
  answered : Response → List Event → Reaction
  crashed : Reaction

abbrev default_secret_name : String
default_secret_name = "lumigo-credentials"

abbrev default_secret_key : String
default_secret_key = "token"

unfoldable pub create_auto_trace_settings : Labels → AutoTraceSettings
create_auto_trace_settings labels = record {
  is_auto_traced = lower_is (label_or_empty labels auto_trace_label_key) "true";
  traces_enabled = not (lower_is (label_or_empty labels traces_enabled_label_key) "false");
  logs_enabled = lower_is (label_or_empty labels logs_enabled_label_key) "true";
  secret_name = Option.get_or (label labels token_secret_name_key) default_secret_name;
  secret_key = Option.get_or (label labels token_secret_key_key) default_secret_key;
}

-- `fmt.Sprintf("%s/%s.%s", gvk.Group, gvk.Version, gvk.Kind)`
unfoldable pub s_gvk : GroupVersionKind → String
s_gvk gvk = ◌⧺◌ gvk.group (◌⧺◌ "/" (◌⧺◌ gvk.version (◌⧺◌ "." gvk.kind)))

-- `fmt.Sprintf("%s", gvk)`, by the `String` method of metav1.GroupVersionKind
unfoldable pub gvk_text : GroupVersionKind → String
gvk_text gvk = ◌⧺◌ gvk.group (◌⧺◌ "/" (◌⧺◌ gvk.version (◌⧺◌ ", Kind=" gvk.kind)))

-- The cases of the switch in `newResourceAdapter`.
unfoldable pub adapted_kind : String → Option WorkloadKind
adapted_kind s =
    if s == "apps/v1.Daemonset"
    then some daemon_set
    else if s == "apps/v1.Deployment"
    then some deployment
    else if s == "apps/v1.ReplicaSet"
    then some replica_set
    else if s == "apps/v1.StatefulSet"
    then some stateful_set
    else if s == "batch/v1.CronJob"
    then some cron_job
    else if s == "batch/v1.Job"
    then some job
    else none

abbrev namespaced_name : String → String → String
namespaced_name namespace name = ◌⧺◌ namespace (◌⧺◌ "/" name)

abbrev on_behalf_of : String → String
on_behalf_of trigger =
    ◌⧺◌ "injector webhook, acting on behalf of the '" (◌⧺◌ trigger "' Lumigo resource")

abbrev not_mutated : String → Response
not_mutated namespace =
    allowed "No Lumigo configuration for the '%s' namespace; resource will not be mutated"
      (namespace ∷ [])

abbrev skips_injection : Workload → Bool
skips_injection w =
    label_or_empty w.meta.labels auto_trace_label_key == label_skip_next_injector_value

abbrev pub without_label : Workload → Workload
without_label w = record w {
  meta = record w.meta { labels = delete_label w.meta.labels auto_trace_label_key };
}

abbrev pub is_disabled : Option Bool → Bool
is_disabled none = false
is_disabled (some b) = not b

unfoldable pub had_already_instrumentation : Workload → Bool
had_already_instrumentation w =
    starts_with (label_or_empty w.meta.labels auto_trace_label_key) label_version_prefix_value

module _ (services : Services) where
  -- The adapter of a resource is its kind and its decoded value; `none` is a nil adapter.
  unfoldable pub new_resource_adapter :
      GroupVersionKind → String → Fallible (Option (WorkloadKind × Workload))
  new_resource_adapter gvk raw = elim (adapted_kind (s_gvk gvk)) [
    | none ↦ inr none
    | some kind ↦ elim (services.decode kind raw) [
      | inl e ↦ inl (wrapf "cannot parse resource into a %s: %w" (s_gvk gvk ∷ []) e)
      | inr w ↦ inr (some (kind, w))
    ]
  ]

  -- The marshalling and the patch, with the events to record before it.
  unfoldable pub respond : Request → WorkloadKind → Workload → List Event → Reaction
  respond request kind w events = elim (services.marshal (object kind w)) [
    | inl e ↦ answered (allowed_error (wrapf "cannot marshal object %w" [] e)) []
    | inr marshalled ↦ answered (patched request.raw marshalled) events
  ]

  -- What follows the call of the mutator, by the call's result.
  unfoldable pub after_injection :
      WorkloadKind → String → Request → Bool → Workload × Outcome Bool → Reaction
  after_injection kind trigger request had (w, ok true) = respond request kind w (
      (if had
        then updated_instrumentation_event (object kind w) (on_behalf_of trigger)
        else added_instrumentation_event (object kind w) (on_behalf_of trigger))
      ∷ [])
  after_injection kind trigger request had (w, ok false) = respond request kind w []
  after_injection kind trigger request had (w, err e) =
      answered (allowed_error (wrapf "cannot inject Lumigo tracing in the pod spec %w" [] e)) (
        (if had
          then cannot_update_instrumentation_event (object kind w) (on_behalf_of trigger) e
          else cannot_add_instrumentation_event (object kind w)
              (◌⧺◌ "injector webhook, acting on behalf of the '" (◌⧺◌ trigger "'")) e)
        ∷ [])
  after_injection kind trigger request had (w, panicked) = crashed

  unfoldable pub process_resource_injection :
      WorkloadKind → Workload → InjectingMutator → String → Request → Reaction
  process_resource_injection kind w mutator trigger request =
      if skips_injection w
      then respond request kind (without_label w) []
      else after_injection kind trigger request (had_already_instrumentation w)
          (inject_lumigo_into_kind services.libs mutator kind w)

module _ (services : Services) (config : OperatorConfig) where
  -- No Lumigo instance in the namespace: the labels of the resource decide.
  unfoldable pub inject_by_labels : WorkloadKind → Workload → Request → Reaction
  inject_by_labels kind w request =
      let settings = create_auto_trace_settings w.meta.labels in
      if settings.is_auto_traced
      then process_resource_injection services kind w
          (new_mutator_from_auto_trace_settings config settings)
          (namespaced_name w.meta.namespace w.meta.name) request
      else answered (not_mutated w.meta.namespace) []

  unfoldable pub inject_by_lumigo : Lumigo → WorkloadKind → Workload → Request → Reaction
  inject_by_lumigo lumigo kind w request =
      if is_disabled lumigo.spec.tracing.injection.enabled
      then answered
          (allowed
            "Tracing injection is disabled in the '%s' namespace; resource will not be mutated"
            (w.meta.namespace ∷ []))
          []
      else if not (is_active lumigo)
      then answered
          (allowed
            "The Lumigo object in the '%s' namespace is not active; resource will not be mutated"
            (w.meta.namespace ∷ []))
          []
      else process_resource_injection services kind w
          (new_injecting_mutator_from_spec config (some lumigo.spec))
          (namespaced_name lumigo.meta.namespace lumigo.meta.name) request

  unfoldable pub inject_adapted : WorkloadKind → Workload → Request → Reaction
  inject_adapted kind w request = elim (services.list w.meta.namespace) [
    | not_found e ↦ answered (not_mutated w.meta.namespace) []
    | failed e ↦
        answered
          (errored (
            wrapf "cannot retrieve Lumigo instances in namespace %s: %w" (w.meta.namespace ∷ []) e))
          []
    | found [] ↦ inject_by_labels kind w request
    | found (lumigo ∷ others) ↦ inject_by_lumigo lumigo kind w request
  ]

  unfoldable pub handle : Request → Reaction
  handle request =
      if is_delete request.operation
      then answered (allowed "Mutating webhooks have nothing to do on deletions" []) []
      else elim (new_resource_adapter services request.kind request.raw) [
        | inl e ↦ answered (errored (wrapf "error while parsing the resource: %w" [] e)) []
        | inr none ↦
            answered
              (allowed "The Lumigo Injector webhook does not mutate resources of type %s"
                (gvk_text request.kind ∷ []))
              []
        | inr (some (kind, w)) ↦ inject_adapted kind w request
      ]
