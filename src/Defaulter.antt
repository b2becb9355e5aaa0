-- ===== src/Defaulter.antt =====
-- The webhook that validates and completes Lumigo instances
-- (controller/src/webhooks/defaulter/defaulter_webhook.go). The decoder, the JSON encoder and the
-- listing of a namespace are parameters.
pub mod Laws
pub mod Denials
use lumigo_kubernetes_operat.Prelude.{
  String, Bool, true, false, ◌&&◌, Option, none, some, List, [], ◌∷◌, inl, inr, Fallible, Error,
  wrapf, ◌==◌, if◌then◌else◌,
}
use lumigo_kubernetes_operat.Api.{Lumigo, LumigoSpec}
use lumigo_kubernetes_operat.Admission.{
  Operation, is_delete, create, update, delete, connect, GroupVersionKind, Request, Response,
  allowed, denied, errored, patched,
}

pub record Services : Type 0 where
  pub decode : String → Fallible Lumigo
  pub marshal : Lumigo → Fallible String
  pub list : String → Fallible (List Lumigo)

unfoldable pub is_lumigo_gvk : GroupVersionKind → Bool
is_lumigo_gvk gvk =
    gvk.group == "operator.lumigo.io" && gvk.version == "v1alpha1" && gvk.kind == "Lumigo"

-- `if field == nil { field = &value }`
unfoldable pub default_to : Bool → Option Bool → Option Bool
default_to value none = some value
default_to value (some b) = some b

unfoldable pub apply_defaults : LumigoSpec → LumigoSpec
unfolding default_to
apply_defaults spec = record {
  lumigo_token = spec.lumigo_token;
  tracing = record {
    enabled = spec.tracing.enabled;
    injection = record {
      enabled = default_to true spec.tracing.injection.enabled;
      inject_lumigo_into_existing_resources_on_creation =
          default_to true spec.tracing.injection.inject_lumigo_into_existing_resources_on_creation;
      remove_lumigo_from_resources_on_deletion =
          default_to true spec.tracing.injection.remove_lumigo_from_resources_on_deletion;
    };
  };
  logging = record { enabled = default_to false spec.logging.enabled };
  infrastructure = record {
    enabled = default_to true spec.infrastructure.enabled;
    kube_events = record { enabled = default_to true spec.infrastructure.kube_events.enabled };
  };
}

module _ (services : Services) where
  -- From the validation of the token reference on.
  unfoldable pub complete : Request → Lumigo → Response
  complete request lumigo =
      if lumigo.spec.lumigo_token.secret_ref.name == ""
      then denied "no reference to a Lumigo token ('.Spec.LumigoToken.SecretRef.Name' is blank)" []
      else if lumigo.spec.lumigo_token.secret_ref.key == ""
      then denied "invalid reference to a Lumigo token ('.Spec.LumigoToken.SecretRef.Key' is blank)"
          []
      else elim (services.marshal (record lumigo { spec = apply_defaults lumigo.spec })) [
        | inl e ↦ errored (wrapf "cannot marshal object %w" [] e)
        | inr marshalled ↦ patched request.raw marshalled
      ]

  -- A creation is denied where the namespace has an instance already.
  unfoldable pub validate_creation : Request → Lumigo → Response
  unfolding complete
  validate_creation request lumigo = elim (services.list lumigo.meta.namespace) [
    | inl e ↦ errored (
        wrapf "cannot retrieve Lumigo instances in namespace %s: %w" (lumigo.meta.namespace ∷ []) e)
    | inr [] ↦ complete request lumigo
    | inr (other ∷ others) ↦
        denied
          "There is already an instance of operator.lumigo.io/v1alpha1.Lumigo in the '%s' namespace"
          (lumigo.meta.namespace ∷ [])
  ]

  unfoldable pub by_operation : Operation → Request → Lumigo → Response
  by_operation create request lumigo = validate_creation request lumigo
  by_operation update request lumigo = complete request lumigo
  by_operation delete request lumigo = complete request lumigo
  by_operation connect request lumigo = complete request lumigo

  unfoldable pub decode_and_validate : Request → Response
  decode_and_validate request =
      if is_lumigo_gvk request.kind
      then elim (services.decode request.raw) [
        | inl e ↦ errored (wrapf "cannot parse resource: %w" [] e)
        | inr lumigo ↦ by_operation request.operation request lumigo
      ]
      else allowed "Not a operator.lumigo.io/v1alpha1.Lumigo resource, nothing to validate" []

  unfoldable pub handle : Request → Response
  handle request =
      if is_delete request.operation
      then allowed "Mutating webhooks have nothing to do on deletions" []
      else decode_and_validate request
