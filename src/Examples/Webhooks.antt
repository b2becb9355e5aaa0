-- ===== src/Examples/Webhooks.antt =====
-- The theorems on the conditions and the webhooks at concrete requests.
use lumigo_kubernetes_operat.Prelude.{
  ◌≢◌, String, false, none, some, [], ◌∷◌, ◌≡◌, ◌↔◌, refl, inr, Error, errorf, label_or_empty,
}
use lumigo_kubernetes_operat.K8s.{Workload, WorkloadKind, found}
use lumigo_kubernetes_operat.Api.{LumigoConditionType, Lumigo, active, status_false}
use lumigo_kubernetes_operat.Conditions.{
  same_type, find_condition, get_lumigo_condition_by_type, update_conditions, set_active_condition,
  set_active_condition_with_message, clear_error_condition, set_error_and_active_conditions,
  set_active_and_error_conditions, is_active, is_true_status,
}
use lumigo_kubernetes_operat.Conditions.Meaning.{
  IsUpdated, update_conditions-IsUpdated, failure_keeps_just_created,
}
use lumigo_kubernetes_operat.Conditions.Uniqueness.{
  HasUniqueConditions, setters-HasUniqueConditions,
}
use lumigo_kubernetes_operat.Admission.{Request, update, create, allowed, patched}
use lumigo_kubernetes_operat.Mutation.Mutator.{new_injecting_mutator_from_spec}
use lumigo_kubernetes_operat.Defaulter.{is_lumigo_gvk, apply_defaults}
use lumigo_kubernetes_operat.Defaulter
use lumigo_kubernetes_operat.Defaulter.Laws.{
  IsComplete, apply_defaults_iff, new_injecting_mutator-apply_defaults, Accepts,
  handle_patched_only,
}
use lumigo_kubernetes_operat.Defaulter.Denials.{IsDenial, IsDenied, Asks, handle-IsDenial_iff}
use lumigo_kubernetes_operat.Injector
use lumigo_kubernetes_operat.Injector.{
  Reaction, answered, adapted_kind, s_gvk, new_resource_adapter, respond,
  process_resource_injection, inject_adapted, inject_by_lumigo,
}
use lumigo_kubernetes_operat.Injector.Gates.{
  daemon_set_gvk, daemon_sets_never_injected, IsMandated, patched_only_if_IsMandated,
}
use lumigo_kubernetes_operat.Examples.{
  libs, config, spec, web, meta, new_lumigo, active_lumigo, active_condition,
}

-- Renders every error alike.
abbrev text : Error → String
text e = "an error"

abbrev failure : Error
failure = errorf "no Kubernetes secret reference provided" []

update_conditions-IsUpdated_example :
    IsUpdated active 2 status_false "off" (find_condition active (active_condition ∷ [])) (
      find_condition active (update_conditions active 2 status_false "off" (active_condition ∷ [])))
    × ((u : LumigoConditionType)
        → u ≢ active
        → find_condition u (update_conditions active 2 status_false "off" (active_condition ∷ []))
          ≡ find_condition u (active_condition ∷ []))
update_conditions-IsUpdated_example =
    update_conditions-IsUpdated active 2 status_false "off" (active_condition ∷ [])

not_yet_active : get_lumigo_condition_by_type new_lumigo active ≡ none
unfolding get_lumigo_condition_by_type find_condition
not_yet_active = refl

failure_keeps_just_created_example :
    get_lumigo_condition_by_type (set_error_and_active_conditions text new_lumigo 2 failure) active
    ≡ none
failure_keeps_just_created_example =
    failure_keeps_just_created text new_lumigo 2 failure not_yet_active

already_active : get_lumigo_condition_by_type active_lumigo active ≡ some active_condition
unfolding get_lumigo_condition_by_type find_condition same_type
already_active = refl

active_lumigo_unique : HasUniqueConditions active_lumigo
unfolding find_condition
active_lumigo_unique = (refl, tt)

setters-HasUniqueConditions_example :
    HasUniqueConditions (set_active_condition_with_message active_lumigo 2 false "off")
    × HasUniqueConditions (set_active_condition active_lumigo 2 false)
    × HasUniqueConditions (clear_error_condition active_lumigo 2)
    × HasUniqueConditions (set_error_and_active_conditions text active_lumigo 2 failure)
    × HasUniqueConditions (set_active_and_error_conditions text active_lumigo 2 (some failure))
setters-HasUniqueConditions_example =
    setters-HasUniqueConditions text active_lumigo 2 false "off" failure (some failure)
      active_lumigo_unique

apply_defaults_iff_example :
    IsComplete (apply_defaults spec) × ((apply_defaults spec ≡ spec) ↔ IsComplete spec)
apply_defaults_iff_example = apply_defaults_iff spec

new_injecting_mutator-apply_defaults_example :
    new_injecting_mutator_from_spec config (some (apply_defaults spec))
    ≡ new_injecting_mutator_from_spec config (some spec)
new_injecting_mutator-apply_defaults_example = new_injecting_mutator-apply_defaults config spec

abbrev defaulting : Defaulter.Services
defaulting = record {
  decode = λ raw. inr new_lumigo;
  marshal = λ lumigo. inr "completed";
  list = λ namespace. inr [];
}

abbrev creation : Request
creation = record {
  operation = create;
  kind = record { group = "operator.lumigo.io"; version = "v1alpha1"; kind = "Lumigo" };
  raw = "sent";
}

creation_patched : Defaulter.handle defaulting creation ≡ patched "sent" "completed"
unfolding Defaulter.handle Defaulter.decode_and_validate Defaulter.by_operation
    Defaulter.validate_creation Defaulter.complete is_lumigo_gvk
creation_patched = refl

-- a namespace that has an instance already
abbrev occupied_services : Defaulter.Services
occupied_services = record defaulting { list = λ namespace. inr (active_lumigo ∷ []) }

handle-IsDenial_iff_example : IsDenial (Defaulter.handle occupied_services creation) ↔ (
    (lumigo : Lumigo) × Asks occupied_services creation lumigo
    × IsDenied occupied_services creation lumigo)
handle-IsDenial_iff_example = handle-IsDenial_iff occupied_services creation

handle_patched_only_example :
    (lumigo : Lumigo) × Accepts defaulting creation lumigo "completed"
    × (creation.raw ≡ creation.raw)
handle_patched_only_example =
    handle_patched_only defaulting creation "sent" "completed" creation_patched

abbrev skipped_web : Workload
skipped_web = record web {
  meta = record meta { labels = some (("lumigo.auto-trace", "skip-next-injector") ∷ []) };
}

abbrev injecting : Injector.Services
injecting = record {
  libs = libs;
  decode = λ kind raw. inr skipped_web;
  marshal = λ resource. inr "patched";
  list = λ namespace. found (active_lumigo ∷ []);
}

abbrev daemon_set_update : Request
daemon_set_update = record { operation = update; kind = daemon_set_gvk; raw = "sent" }

daemon_sets_never_injected_example :
    Injector.handle injecting config daemon_set_update
    ≡ answered
        (allowed "The Lumigo Injector webhook does not mutate resources of type %s"
          ("apps/v1, Kind=DaemonSet" ∷ []))
        []
daemon_sets_never_injected_example =
    daemon_sets_never_injected injecting config daemon_set_update refl (λ e. cc e)

abbrev deployment_update : Request
deployment_update = record {
  operation = update;
  kind = record { group = "apps"; version = "v1"; kind = "Deployment" };
  raw = "sent";
}

deployment_patched :
    Injector.handle injecting config deployment_update ≡ answered (patched "sent" "patched") []
unfolding Injector.handle new_resource_adapter adapted_kind s_gvk inject_adapted inject_by_lumigo
    process_resource_injection respond is_active get_lumigo_condition_by_type find_condition
    same_type is_true_status label_or_empty
deployment_patched = refl

patched_only_if_IsMandated_example :
    (kind : WorkloadKind) × (w : Workload) × (new_resource_adapter injecting deployment_update.kind
        "sent"
      ≡ inr (some (kind, w)))
    × IsMandated injecting config w
patched_only_if_IsMandated_example =
    patched_only_if_IsMandated injecting config deployment_update "sent" "patched" []
      deployment_patched
