-- ===== src/Defaulter/Laws.antt =====
-- What the defaulter accepts, and what it fills in (webhooks/defaulter/defaulter_webhook.go).
use lumigo_kubernetes_operat.Prelude.{
  String, Bool, true, false, Option, none, some, [], ◌≡◌, ◌≢◌, ◌↔◌, inl, inr, refl, arith, Fallible,
  eq_iff,
}
use lumigo_kubernetes_operat.Api.{Lumigo, LumigoSpec}
use lumigo_kubernetes_operat.Admission.{create, delete, Request, patched}
use lumigo_kubernetes_operat.Mutation.Mutator.{OperatorConfig, new_injecting_mutator_from_spec}
use lumigo_kubernetes_operat.Defaulter.{
  Services, is_lumigo_gvk, default_to, apply_defaults, complete, validate_creation, by_operation,
  decode_and_validate, handle,
}

-- Every switch that the defaulter looks after is set.
pub record IsComplete (spec : LumigoSpec) : Type 0 where
  pub injection_set : spec.tracing.injection.enabled ≢ none
  pub on_creation_set :
      spec.tracing.injection.inject_lumigo_into_existing_resources_on_creation ≢ none
  pub on_deletion_set : spec.tracing.injection.remove_lumigo_from_resources_on_deletion ≢ none
  pub logging_set : spec.logging.enabled ≢ none
  pub infrastructure_set : spec.infrastructure.enabled ≢ none
  pub kube_events_set : spec.infrastructure.kube_events.enabled ≢ none

default_to-ne-none : (b : Bool) (o : Option Bool) → default_to b o ≢ none
unfolding default_to
default_to-ne-none b none e = cc
default_to-ne-none b (some c) e = cc

default_to_set : (b : Bool) (o : Option Bool) → o ≢ none → default_to b o ≡ o
unfolding default_to
default_to_set b none h = absurd (h refl)
default_to_set b (some c) h = refl

apply_defaults-IsComplete : (spec : LumigoSpec) → IsComplete (apply_defaults spec)
unfolding apply_defaults
apply_defaults-IsComplete spec = record {
  injection_set = default_to-ne-none _ _;
  on_creation_set = default_to-ne-none _ _;
  on_deletion_set = default_to-ne-none _ _;
  logging_set = default_to-ne-none _ _;
  infrastructure_set = default_to-ne-none _ _;
  kube_events_set = default_to-ne-none _ _;
}

apply_defaults-eq_of_IsComplete : (spec : LumigoSpec) → IsComplete spec → apply_defaults spec ≡ spec
unfolding apply_defaults
apply_defaults-eq_of_IsComplete spec h = cc (
  default_to_set true spec.tracing.injection.enabled h.injection_set,
  default_to_set true spec.tracing.injection.inject_lumigo_into_existing_resources_on_creation
      h.on_creation_set,
  default_to_set true spec.tracing.injection.remove_lumigo_from_resources_on_deletion
      h.on_deletion_set,
  default_to_set false spec.logging.enabled h.logging_set,
  default_to_set true spec.infrastructure.enabled h.infrastructure_set,
  default_to_set true spec.infrastructure.kube_events.enabled h.kube_events_set,
)

-- The defaulting sets every switch that it looks after, and changes a spec only where one of them
-- is not set; so doing it again changes nothing.
pub apply_defaults_iff :
    (spec : LumigoSpec)
    → IsComplete (apply_defaults spec) × ((apply_defaults spec ≡ spec) ↔ IsComplete spec)
apply_defaults_iff spec = (
  apply_defaults-IsComplete spec,
  (λ e. rw e at (apply_defaults-IsComplete spec), apply_defaults-eq_of_IsComplete spec),
)

-- The mutator made from a completed spec is the one made from the spec itself: the defaults of the
-- webhook are those that the mutator falls back to.
pub new_injecting_mutator-apply_defaults :
    (config : OperatorConfig) (spec : LumigoSpec)
    → new_injecting_mutator_from_spec config (some (apply_defaults spec))
      ≡ new_injecting_mutator_from_spec config (some spec)
unfolding new_injecting_mutator_from_spec apply_defaults
new_injecting_mutator-apply_defaults config spec = ground arith

-- The instance `lumigo` of the request passes every check, and is encoded as `out` once completed.
pub record Accepts (services : Services) (request : Request) (lumigo : Lumigo) (out : String)
    : Type 0 where
  pub not_deleted : request.operation ≢ delete
  pub is_lumigo : is_lumigo_gvk request.kind ≡ true
  pub decoded : services.decode request.raw ≡ inr lumigo
  is_first : request.operation ≡ create → services.list lumigo.meta.namespace ≡ inr []
  has_secret_name : lumigo.spec.lumigo_token.secret_ref.name ≢ ""
  has_secret_key : lumigo.spec.lumigo_token.secret_ref.key ≢ ""
  pub encoded : services.marshal (record lumigo { spec = apply_defaults lumigo.spec }) ≡ inr out

module _ (services : Services) where
  complete_patched :
      (request : Request) (lumigo : Lumigo) (raw out : String)
      → complete services request lumigo ≡ patched raw out
      → (raw ≡ request.raw)
        × (lumigo.spec.lumigo_token.secret_ref.name ≢ "")
        × (lumigo.spec.lumigo_token.secret_ref.key ≢ "")
        × (services.marshal (record lumigo { spec = apply_defaults lumigo.spec }) ≡ inr out)
  unfolding complete
  complete_patched request lumigo raw out h = (
    ground arith,
    λ e. ground (arith, eq_iff lumigo.spec.lumigo_token.secret_ref.name ""),
    λ e. ground (arith, eq_iff lumigo.spec.lumigo_token.secret_ref.key ""),
    ground arith,
  )

  by_operation_patched :
      (request : Request) (lumigo : Lumigo) (raw out : String)
      → by_operation services request.operation request lumigo ≡ patched raw out
      → (complete services request lumigo ≡ patched raw out)
        × (request.operation ≡ create → services.list lumigo.meta.namespace ≡ inr [])
  unfolding by_operation validate_creation
  by_operation_patched request lumigo raw out h = (ground arith, λ e. ground arith)

  handle_patched :
      (request : Request) (raw out : String)
      → handle services request ≡ patched raw out
      → decode_and_validate services request ≡ patched raw out
  unfolding handle
  handle_patched request raw out h = ground arith

  not_deleted_of_patched :
      (request : Request) (raw out : String)
      → handle services request ≡ patched raw out
      → request.operation ≢ delete
  unfolding handle
  not_deleted_of_patched request raw out h e = ground arith

  decoded_of_patched :
      (request : Request) (raw out : String) (o : Fallible Lumigo)
      → services.decode request.raw ≡ o
      → decode_and_validate services request ≡ patched raw out
      → (lumigo : Lumigo) × (o ≡ inr lumigo)
        × (is_lumigo_gvk request.kind ≡ true)
        × (by_operation services request.operation request lumigo ≡ patched raw out)
  unfolding decode_and_validate
  decoded_of_patched request raw out (inl e) d h = ground (arith, d, h)
  decoded_of_patched request raw out (inr lumigo) d h =
      (lumigo, refl, ground (arith, d, h), ground (arith, d, h))

  -- A patch is answered to no other request: the response is the patch from `raw` to `out` only
  -- where an accepted instance was sent as `raw`, and its completed form is encoded as `out`.
  pub handle_patched_only :
      (request : Request) (raw out : String)
      → handle services request ≡ patched raw out
      → (lumigo : Lumigo) × Accepts services request lumigo out × (raw ≡ request.raw)
  handle_patched_only request raw out h =
      let (lumigo, decoded, gvk, r) =
        decoded_of_patched request raw out (services.decode request.raw) refl
          (handle_patched request raw out h) in
      let (completed, first) = by_operation_patched request lumigo raw out r in
      let (same_raw, n, k, encoded) = complete_patched request lumigo raw out completed in
      (
        lumigo,
        record {
          not_deleted = not_deleted_of_patched request raw out h;
          is_lumigo = gvk;
          decoded = decoded;
          is_first = first;
          has_secret_name = n;
          has_secret_key = k;
          encoded = encoded;
        },
        same_raw,
      )
