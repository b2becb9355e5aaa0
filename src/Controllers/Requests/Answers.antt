-- ===== src/Controllers/Requests/Answers.antt =====
-- What a reconciliation's reads and answers mean (controllers/lumigo_controller.go:390-524).
use lumigo_kubernetes_operat.Prelude.{
  String, true, false, Option, none, some, List, [], ◌∷◌, ◌++◌, ◌≡◌, ◌≢◌, ◌↔◌, ◌⊎◌, refl, sym, ◌∙◌,
  Bool-cases, inl, inr, arith, Fallible, Error, errorf, eq_iff,
}
use mathlib.Core.List.{append_assoc, append-nil}
use lumigo_kubernetes_operat.K8s.{ObjectMeta}
use lumigo_kubernetes_operat.Api.{Lumigo, Credentials, KubernetesSecretRef}
use lumigo_kubernetes_operat.Conditions.{has_error}
use lumigo_kubernetes_operat.Controllers.Requests.{
  Reads, NamespacedName, is_empty_ref, blank_request, request_of, append_requests,
  references_secret, check_token, check_secret, validate_credentials, append_listed,
  enqueue_if_secret_referenced_by_lumigo, with_resources, update_status_if_needed,
}

module _ (reads : Reads) where
  check_token-inr :
      (namespace name key t token : String)
      → check_token reads namespace name key t ≡ inr token
      → (reads.matches_token t ≡ inr true) × (t ≡ token)
  unfolding check_token
  check_token-inr namespace name key t token h = ground arith

  check_value :
      (namespace : String) (ref : KubernetesSecretRef) (token : String)
      (data_of : String → Option String) (value : Option String)
      → data_of ref.key ≡ value
      → (elim value [
        | none ↦ inl (
            errorf "the secret '%s/%s' does not have the key '%s'"
              (namespace ∷ ref.name ∷ ref.key ∷ []))
        | some t ↦ check_token reads namespace ref.name ref.key t
      ])
        ≡ inr token
      → (data_of ref.key ≡ some token) × (reads.matches_token token ≡ inr true)
  check_value namespace ref token data_of none v h = ground arith
  check_value namespace ref token data_of (some t) v h =
      let (m, e) = check_token-inr namespace ref.name ref.key t token h in (cc (v, e), cc (m, e))

  check_secret_at :
      (namespace : String) (ref : KubernetesSecretRef) (token : String)
      (secret : Fallible (String → Option String))
      → reads.get_secret namespace ref.name ≡ secret
      → check_secret reads namespace ref ≡ inr token
      → (data_of : String → Option String) × (secret ≡ inr data_of)
        × (data_of ref.key ≡ some token)
        × (reads.matches_token token ≡ inr true)
  unfolding check_secret
  check_secret_at namespace ref token (inl e) g h = ground (arith, g, h)
  check_secret_at namespace ref token (inr data_of) g h =
      let (k, t) =
        check_value namespace ref token data_of (data_of ref.key) refl
          (rw (check_secret, g) at h) in
      (data_of, refl, k, t)

  credentials_named :
      (namespace : String) (credentials : Credentials) (token : String)
      → validate_credentials reads namespace credentials ≡ inr token
      → check_secret reads namespace credentials.secret_ref ≡ inr token
  unfolding validate_credentials
  credentials_named namespace credentials token h = ground arith

  secret_found :
      (namespace : String) (ref : KubernetesSecretRef) (token : String)
      (data_of : String → Option String)
      → reads.get_secret namespace ref.name ≡ inr data_of
      → data_of ref.key ≡ some token
      → reads.matches_token token ≡ inr true
      → check_secret reads namespace ref ≡ inr token
  unfolding check_secret check_token
  secret_found namespace ref token data_of g v m = rw (check_secret, g) (rw v (rw (check_token, m)))

  credentials_found :
      (namespace : String) (credentials : Credentials) (token : String)
      (data_of : String → Option String)
      → credentials.secret_ref.name ≢ ""
      → credentials.secret_ref.key ≢ ""
      → reads.get_secret namespace credentials.secret_ref.name ≡ inr data_of
      → data_of credentials.secret_ref.key ≡ some token
      → reads.matches_token token ≡ inr true
      → validate_credentials reads namespace credentials ≡ inr token
  unfolding validate_credentials is_empty_ref
  credentials_found namespace credentials token data_of n k g v m = ground (
    arith,
    eq_iff credentials.secret_ref.name "",
    eq_iff credentials.secret_ref.key "",
    secret_found namespace credentials.secret_ref token data_of g v m,
  )

  -- The credentials are valid, with a token, exactly where the reference names a secret and a key,
  -- the secret can be retrieved, has the key, and the token is its value and has the shape of a
  -- token.
  pub validate_credentials_iff :
      (namespace : String) (credentials : Credentials) (token : String)
      → (validate_credentials reads namespace credentials ≡ inr token) ↔ (
          (credentials.secret_ref.name ≢ "")
          × (credentials.secret_ref.key ≢ "")
          × ((data_of : String → Option String) × (reads.get_secret namespace
                  credentials.secret_ref.name
                ≡ inr data_of)
              × (data_of credentials.secret_ref.key ≡ some token)
              × (reads.matches_token token ≡ inr true)))
  unfolding validate_credentials
  validate_credentials_iff namespace credentials token = (
    λ h. (
      ground (arith, eq_iff credentials.secret_ref.name ""),
      ground (arith, eq_iff credentials.secret_ref.key ""),
      check_secret_at namespace credentials.secret_ref token
          (reads.get_secret namespace credentials.secret_ref.name) refl
          (credentials_named namespace credentials token h),
    ),
    λ (n, k, (data_of, g, v, m)). credentials_found namespace credentials token data_of n k g v m,
  )

-- The instance refers to a secret of that name: its reference has the name, and is not empty.
abbrev RefersTo : String → Lumigo → Type 0
RefersTo name lumigo =
    (lumigo.spec.lumigo_token.secret_ref.name ≡ name)
    × ((name ≢ "") ⊎ (lumigo.spec.lumigo_token.secret_ref.key ≢ ""))

-- One request for every instance that refers to the secret, in the order of the instances.
pub data AreRequestsFor (secret : String) : List Lumigo → List NamespacedName → Type 0 where
  all_requested : AreRequestsFor secret [] []
  requested :
      {lumigo : Lumigo} {lumigoes : List Lumigo} {requests : List NamespacedName}
      → RefersTo secret lumigo
      → AreRequestsFor secret lumigoes requests
      → AreRequestsFor secret
          (lumigo ∷ lumigoes)
          (record { namespace = lumigo.meta.namespace; name = lumigo.meta.name } ∷ requests)
  passed_over :
      {lumigo : Lumigo} {lumigoes : List Lumigo} {requests : List NamespacedName}
      → ¬ RefersTo secret lumigo
      → AreRequestsFor secret lumigoes requests
      → AreRequestsFor secret (lumigo ∷ lumigoes) requests

references_secret-RefersTo :
    (name : String) (lumigo : Lumigo) → references_secret name lumigo ≡ true → RefersTo name lumigo
unfolding references_secret is_empty_ref
references_secret-RefersTo name lumigo h = ground (
  arith,
  eq_iff lumigo.spec.lumigo_token.secret_ref.name name,
  eq_iff lumigo.spec.lumigo_token.secret_ref.name "",
  eq_iff lumigo.spec.lumigo_token.secret_ref.key "",
)

references_secret-not_RefersTo :
    (name : String) (lumigo : Lumigo)
    → references_secret name lumigo ≡ false
    → ¬ RefersTo name lumigo
unfolding references_secret is_empty_ref
references_secret-not_RefersTo name lumigo h r = ground (
  arith,
  eq_iff lumigo.spec.lumigo_token.secret_ref.name name,
  eq_iff lumigo.spec.lumigo_token.secret_ref.name "",
  eq_iff lumigo.spec.lumigo_token.secret_ref.key "",
)

-- The requests that the loop appends for the instances that are listed.
append_requests-AreRequestsFor :
    (secret : String) (requests : List NamespacedName) (lumigoes : List Lumigo)
    → (rest : List NamespacedName) × (append_requests (references_secret secret) requests lumigoes
        ≡ requests ++ rest)
      × AreRequestsFor secret lumigoes rest
unfolding append_requests
append_requests-AreRequestsFor secret requests [] = ([], sym (append-nil requests), all_requested)
append_requests-AreRequestsFor secret requests (lumigo ∷ lumigoes) =
    elim (Bool-cases (references_secret secret lumigo)) [
      | inl t ↦
          let (rest, e, a) =
            append_requests-AreRequestsFor secret (requests ++ request_of lumigo ∷ []) lumigoes in
          (
            request_of lumigo ∷ rest,
            rw t (e ∙ append_assoc requests (request_of lumigo ∷ []) rest),
            requested (references_secret-RefersTo secret lumigo t) a,
          )
      | inr f ↦
          let (rest, e, a) = append_requests-AreRequestsFor secret requests lumigoes in
          (rest, rw f e, passed_over (references_secret-not_RefersTo secret lumigo f) a)
    ]

module _ (reads : Reads) where
  listed_requests :
      (secret : String) (listed : Fallible (List Lumigo))
      → (rest : List NamespacedName) × (append_listed reads
            (references_secret secret)
            (blank_request ∷ [])
            listed
          ≡ blank_request ∷ rest)
        × (((lumigoes : List Lumigo) × (listed ≡ inr lumigoes)
              × AreRequestsFor secret lumigoes rest)
            ⊎ ((e : Error) × (listed ≡ inl e) × (rest ≡ [])))
  listed_requests secret (inl e) = ([], refl, inr (e, refl, refl))
  listed_requests secret (inr lumigoes) =
      let (rest, e, a) = append_requests-AreRequestsFor secret (blank_request ∷ []) lumigoes in
      (rest, e, inl (lumigoes, refl, a))

  -- A changed secret causes first a request without name and namespace, and then, if the instances
  -- of its namespace can be listed, one for each of them whose reference to a token is not empty and
  -- has the name of the secret, in their order. If they cannot be listed, it causes no other request.
  pub enqueue_if_secret_referenced_by_lumigo_lem :
      (secret : ObjectMeta)
      → (rest : List NamespacedName) × (enqueue_if_secret_referenced_by_lumigo reads secret
          ≡ record { namespace = ""; name = "" } ∷ rest)
        × (((lumigoes : List Lumigo) × (reads.list_lumigoes secret.namespace ≡ inr lumigoes)
              × AreRequestsFor secret.name lumigoes rest)
            ⊎ ((e : Error) × (reads.list_lumigoes secret.namespace ≡ inl e) × (rest ≡ [])))
  unfolding enqueue_if_secret_referenced_by_lumigo
  enqueue_if_secret_referenced_by_lumigo_lem secret =
      listed_requests secret.name (reads.list_lumigoes secret.namespace)

module _ {W : Type 0} (update_status : Lumigo → W → (W × Lumigo) × Option Error) where
  -- The next reconciliation is ten seconds away exactly where the status could be written and the
  -- instance, as the API server has it then, shows no error; otherwise it is one second away.
  pub update_status_if_needed_iff :
      (lumigo : Lumigo) (world : W)
      → (((update_status_if_needed update_status lumigo world).1 ≡ 10) ↔ (
          ((update_status (with_resources lumigo) world).1 ≡ none)
          × ((has_error (update_status (with_resources lumigo) world).0.1).0 ≡ false)))
        × (((update_status_if_needed update_status lumigo world).1 ≡ 10)
            ⊎ ((update_status_if_needed update_status lumigo world).1 ≡ 1))
  unfolding update_status_if_needed
  update_status_if_needed_iff lumigo world = ground arith
