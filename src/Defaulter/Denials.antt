-- ===== src/Defaulter/Denials.antt =====
-- When the defaulter denies a request (webhooks/defaulter/defaulter_webhook.go).
use lumigo_kubernetes_operat.Prelude.{
  String, true, List, [], ◌∷◌, ◌≡◌, ◌≢◌, ◌↔◌, ◌⊎◌, inl, inr, refl, Fallible, eq_iff, Bool-cases,
  ◌==◌, wrapf,
}
use lumigo_kubernetes_operat.Api.{Lumigo}
use lumigo_kubernetes_operat.Admission.{
  Operation, create, update, delete, connect, Request, Response, patched, errored, denied,
}
use lumigo_kubernetes_operat.Defaulter.{
  Services, is_lumigo_gvk, complete, validate_creation, by_operation, decode_and_validate, handle,
}

-- Why an instance that was decoded is denied: it would be a second one in its namespace, or its
-- reference to the token names no secret or no key.
pub data IsDenied (services : Services) (request : Request) (lumigo : Lumigo) : Type 0 where
  occupied :
      (other : Lumigo) (others : List Lumigo)
      → request.operation ≡ create
      → services.list lumigo.meta.namespace ≡ inr (other ∷ others)
      → IsDenied services request lumigo
  unreferenced :
      (request.operation ≡ create → services.list lumigo.meta.namespace ≡ inr [])
      → (lumigo.spec.lumigo_token.secret_ref.name ≡ "")
        ⊎ (lumigo.spec.lumigo_token.secret_ref.key ≡ "")
      → IsDenied services request lumigo

-- The instance is what a request that is not a deletion asks to validate.
pub record Asks (services : Services) (request : Request) (lumigo : Lumigo) : Type 0 where
  pub not_deleted : request.operation ≢ delete
  pub is_lumigo : is_lumigo_gvk request.kind ≡ true
  pub decoded : services.decode request.raw ≡ inr lumigo

-- The response is a denial, with any message.
pub data IsDenial : Response → Type 0 where
  denial : {message : String} {arguments : List String} → IsDenial (denied message arguments)

never_denied :
    (request : Request) (o : Fallible String)
    → IsDenial (elim o [
      | inl e ↦ errored (wrapf "cannot marshal object %w" [] e)
      | inr marshalled ↦ patched request.raw marshalled
    ])
    → ⊥
never_denied request (inl e) h = elim h [ ]
never_denied request (inr x) h = elim h [ ]

module _ (services : Services) (request : Request) where
  IsDenied-by_complete :
      (lumigo : Lumigo)
      → IsDenial (complete services request lumigo)
      → (lumigo.spec.lumigo_token.secret_ref.name ≡ "")
        ⊎ (lumigo.spec.lumigo_token.secret_ref.key ≡ "")
  unfolding complete
  IsDenied-by_complete lumigo h =
      let ref = lumigo.spec.lumigo_token.secret_ref in
      elim (Bool-cases (ref.name == "")) [
        | inl n ↦ inl ((eq_iff ref.name "").0 n)
        | inr n ↦ elim (Bool-cases (ref.key == "")) [
          | inl k ↦ inr ((eq_iff ref.key "").0 k)
          | inr k ↦ absurd (never_denied request _ (rw (n, k) at h))
        ]
      ]

  complete_denies :
      (lumigo : Lumigo)
      → (lumigo.spec.lumigo_token.secret_ref.name ≡ "")
        ⊎ (lumigo.spec.lumigo_token.secret_ref.key ≡ "")
      → IsDenial (complete services request lumigo)
  unfolding complete
  complete_denies lumigo (inl n) =
      rw ((eq_iff lumigo.spec.lumigo_token.secret_ref.name "").1 n) denial
  complete_denies lumigo (inr k) =
      elim (Bool-cases (lumigo.spec.lumigo_token.secret_ref.name == "")) [
        | inl n ↦ rw n denial
        | inr n ↦ rw (n, (eq_iff lumigo.spec.lumigo_token.secret_ref.key "").1 k) denial
      ]

  IsDenied-by_creation :
      (lumigo : Lumigo) (listed : Fallible (List Lumigo))
      → services.list lumigo.meta.namespace ≡ listed
      → request.operation ≡ create
      → IsDenial (validate_creation services request lumigo)
      → IsDenied services request lumigo
  unfolding validate_creation
  IsDenied-by_creation lumigo (inl e) l c h = elim (rw (validate_creation, l) at h) [ ]
  IsDenied-by_creation lumigo (inr []) l c h =
      unreferenced (λ d. l) (IsDenied-by_complete lumigo (rw (validate_creation, l) at h))
  IsDenied-by_creation lumigo (inr (other ∷ others)) l c h = occupied other others c l

  IsDenied-by_operation :
      (lumigo : Lumigo) (o : Operation)
      → request.operation ≡ o
      → IsDenial (by_operation services o request lumigo)
      → IsDenied services request lumigo
  unfolding by_operation
  IsDenied-by_operation lumigo create c h = IsDenied-by_creation lumigo _ refl c h
  IsDenied-by_operation lumigo update c h =
      unreferenced (λ d. absurd (cc (c, d))) (IsDenied-by_complete lumigo h)
  IsDenied-by_operation lumigo delete c h =
      unreferenced (λ d. absurd (cc (c, d))) (IsDenied-by_complete lumigo h)
  IsDenied-by_operation lumigo connect c h =
      unreferenced (λ d. absurd (cc (c, d))) (IsDenied-by_complete lumigo h)

  IsDenied-by_decoded :
      (decoded : Fallible Lumigo)
      → services.decode request.raw ≡ decoded
      → request.operation ≢ delete
      → is_lumigo_gvk request.kind ≡ true
      → IsDenial (decode_and_validate services request)
      → (lumigo : Lumigo) × Asks services request lumigo × IsDenied services request lumigo
  unfolding decode_and_validate
  IsDenied-by_decoded (inl e) d n g h = elim (rw (decode_and_validate, g, d) at h) [ ]
  IsDenied-by_decoded (inr lumigo) d n g h = (
    lumigo,
    record { not_deleted = n; is_lumigo = g; decoded = d },
    IsDenied-by_operation lumigo request.operation refl (rw (decode_and_validate, g, d) at h),
  )

  IsDenied-by_kind :
      request.operation ≢ delete
      → IsDenial (decode_and_validate services request)
      → (lumigo : Lumigo) × Asks services request lumigo × IsDenied services request lumigo
  unfolding decode_and_validate
  IsDenied-by_kind n h = elim (Bool-cases (is_lumigo_gvk request.kind)) [
    | inl g ↦ IsDenied-by_decoded _ refl n g h
    | inr g ↦ elim (rw (decode_and_validate, g) at h) [ ]
  ]

  IsDenied-by_handle :
      (o : Operation)
      → request.operation ≡ o
      → IsDenial (handle services request)
      → (lumigo : Lumigo) × Asks services request lumigo × IsDenied services request lumigo
  unfolding handle decode_and_validate
  IsDenied-by_handle create c h = IsDenied-by_kind (λ d. cc (c, d)) (rw (handle, c) at h)
  IsDenied-by_handle update c h = IsDenied-by_kind (λ d. cc (c, d)) (rw (handle, c) at h)
  IsDenied-by_handle delete c h = elim (rw (handle, c) at h) [ ]
  IsDenied-by_handle connect c h = IsDenied-by_kind (λ d. cc (c, d)) (rw (handle, c) at h)

  operation_denies :
      (lumigo : Lumigo) (o : Operation)
      → request.operation ≡ o
      → IsDenied services request lumigo
      → IsDenial (by_operation services o request lumigo)
  unfolding by_operation validate_creation
  operation_denies lumigo create c (occupied other others d l) = rw (validate_creation, l) denial
  operation_denies lumigo create c (unreferenced first r) =
      rw (validate_creation, first c) (complete_denies lumigo r)
  operation_denies lumigo update c (occupied other others d l) = absurd (cc (c, d))
  operation_denies lumigo update c (unreferenced first r) = complete_denies lumigo r
  operation_denies lumigo delete c (occupied other others d l) = absurd (cc (c, d))
  operation_denies lumigo delete c (unreferenced first r) = complete_denies lumigo r
  operation_denies lumigo connect c (occupied other others d l) = absurd (cc (c, d))
  operation_denies lumigo connect c (unreferenced first r) = complete_denies lumigo r

  decode_and_validate_denies :
      (lumigo : Lumigo)
      → Asks services request lumigo
      → IsDenied services request lumigo
      → IsDenial (decode_and_validate services request)
  unfolding decode_and_validate
  decode_and_validate_denies lumigo a d =
      rw (a.is_lumigo, a.decoded) (operation_denies lumigo request.operation refl d)

  handle_denies :
      (o : Operation)
      → request.operation ≡ o
      → o ≢ delete
      → IsDenial (decode_and_validate services request)
      → IsDenial (handle services request)
  unfolding handle decode_and_validate
  handle_denies create c n d = rw (handle, c) d
  handle_denies update c n d = rw (handle, c) d
  handle_denies delete c n d = absurd (n refl)
  handle_denies connect c n d = rw (handle, c) d

  -- A request is denied exactly if it is not a deletion, sends an instance of Lumigo that can be
  -- decoded, and either creates it in a namespace that has an instance already, or the name or the
  -- key of its token's secret is blank, where a creation must also find the namespace to be empty.
  pub handle-IsDenial_iff :
      IsDenial (handle services request)
      ↔ ((lumigo : Lumigo) × Asks services request lumigo × IsDenied services request lumigo)
  handle-IsDenial_iff = (
    IsDenied-by_handle request.operation refl,
    λ (lumigo, a, d).
        handle_denies request.operation refl a.not_deleted (decode_and_validate_denies lumigo a d),
  )
