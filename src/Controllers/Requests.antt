-- ===== src/Controllers/Requests.antt =====
-- What a reconciliation reads and answers (controllers/lumigo_controller.go:390-524, 852-860): the
-- token of an instance, the requests that changes of other objects cause, and the status with the
-- time of the next reconciliation. The reads of the cluster and the test of the token's shape are
-- parameters; logging is left out. The child says what they answer.
pub mod Answers
use lumigo_kubernetes_operat.Prelude.{
  ℕ, String, Bool, true, false, ◌&&◌, Option, none, some, List, [], ◌∷◌, ◌++◌, inl, inr, Fallible,
  Error, errorf, ◌==◌, if◌then◌else◌, Labels, label, Slice,
}
use lumigo_kubernetes_operat.K8s.{ObjectMeta}
use lumigo_kubernetes_operat.Api.{
  Lumigo, LumigoStatus, Credentials, KubernetesSecretRef, ObjectReference,
}
use lumigo_kubernetes_operat.Conditions.{is_active, has_error}
use lumigo_kubernetes_operat.Mutation.Names.{auto_trace_label_key}

pub record Reads : Type 0 where
  -- `Client.Get` of a secret by namespace and name: its data
  pub get_secret : String → String → Fallible (String → Option String)
  -- `Client.List` of the Lumigo instances of a namespace
  pub list_lumigoes : String → Fallible (List Lumigo)
  -- `regexp.MatchString` with the pattern t_[[:xdigit:]]{21}
  pub matches_token : String → Fallible Bool

-- ctrl.Request and reconcile.Request
pub record NamespacedName : Type 0 where
  pub namespace : String
  pub name : String

unfoldable pub is_truthy : Option Bool → Bool → Bool
is_truthy none default_if_nil = default_if_nil
is_truthy (some value) default_if_nil = value

-- `ref == (operatorv1alpha1.KubernetesSecretRef{})`
unfoldable pub is_empty_ref : KubernetesSecretRef → Bool
is_empty_ref ref = ref.name == "" && ref.key == ""

abbrev pub blank_request : NamespacedName
blank_request = record { namespace = ""; name = "" }

abbrev pub request_of : Lumigo → NamespacedName
request_of lumigo = record { namespace = lumigo.meta.namespace; name = lumigo.meta.name }

-- The loops that append a request for every instance that passes a test.
unfoldable pub append_requests :
    (Lumigo → Bool) → List NamespacedName → List Lumigo → List NamespacedName
append_requests test requests [] = requests
append_requests test requests (lumigo ∷ lumigoes) =
    append_requests test (if test lumigo then requests ++ request_of lumigo ∷ [] else requests)
      lumigoes

-- Credentials are empty exactly where their reference is.
unfoldable pub references_secret : String → Lumigo → Bool
references_secret name lumigo =
    if is_empty_ref lumigo.spec.lumigo_token.secret_ref
    then false
    else lumigo.spec.lumigo_token.secret_ref.name == name

module _ (reads : Reads) where
  -- From the shape of the token on.
  unfoldable pub check_token : String → String → String → String → Fallible String
  check_token namespace name key token = elim (reads.matches_token token) [
    | inl e ↦ inl (
        errorf
          "cannot match the value the field '%s' of the secret '%s/%s' against the expected structure of Lumigo tokens"
          (key ∷ namespace ∷ name ∷ []))
    | inr matched ↦
        if matched
        then inr token
        else inl (
            errorf
              "the value of the field '%s' of the secret '%s/%s' does not match the expected structure of Lumigo tokens: it should be `t_` followed by 21 alphanumeric characters; see https://docs.lumigo.io/docs/lumigo-tokens for instructions on how to retrieve your Lumigo token"
              (key ∷ namespace ∷ name ∷ []))
  ]

  unfoldable pub check_secret : String → KubernetesSecretRef → Fallible String
  check_secret namespace ref = elim (reads.get_secret namespace ref.name) [
    | inl e ↦ inl (errorf "cannot retrieve secret '%s/%s'" (namespace ∷ ref.name ∷ []))
    | inr secret ↦ elim (secret ref.key) [
      | none ↦ inl (
          errorf "the secret '%s/%s' does not have the key '%s'"
            (namespace ∷ ref.name ∷ ref.key ∷ []))
      | some token ↦ check_token namespace ref.name ref.key token
    ]
  ]

  unfoldable pub validate_credentials : String → Credentials → Fallible String
  validate_credentials namespace credentials =
      if is_empty_ref credentials.secret_ref
      then inl (errorf "no Kubernetes secret reference provided" [])
      else if credentials.secret_ref.name == ""
      then inl (errorf "cannot the secret name is not specified" [])
      else if credentials.secret_ref.key == ""
      then inl (
          errorf "no key is specified for the secret '%s/%s'"
            (namespace ∷ credentials.secret_ref.name ∷ []))
      else check_secret namespace credentials.secret_ref

  -- The listing of the instances is left out where it fails.
  abbrev pub append_listed :
      (Lumigo → Bool) → List NamespacedName → Fallible (List Lumigo) → List NamespacedName
  append_listed test requests (inl e) = requests
  append_listed test requests (inr lumigoes) = append_requests test requests lumigoes

  unfoldable pub enqueue_if_secret_referenced_by_lumigo : ObjectMeta → List NamespacedName
  enqueue_if_secret_referenced_by_lumigo secret =
      append_listed (references_secret secret.name) (blank_request ∷ [])
        (reads.list_lumigoes secret.namespace)

  unfoldable enqueue_if_has_lumigo_autotrace_label : ObjectMeta → List NamespacedName
  enqueue_if_has_lumigo_autotrace_label meta = elim (label meta.labels auto_trace_label_key) [
    | none ↦ blank_request ∷ []
    | some value ↦ append_listed is_active (blank_request ∷ []) (reads.list_lumigoes meta.namespace)
  ]

abbrev default_requeue_period : ℕ
default_requeue_period = 10

abbrev pub default_err_requeue_period : ℕ
default_err_requeue_period = 1

abbrev or_empty_slice {ℓ} : {A : Type ℓ} → Slice A → Slice A
or_empty_slice none = some []
or_empty_slice (some xs) = some xs

abbrev pub with_resources : Lumigo → Lumigo
with_resources lumigo = record lumigo {
  status = record {
    conditions = lumigo.status.conditions;
    instrumented_resources = or_empty_slice lumigo.status.instrumented_resources;
  };
}

module _ {W : Type 0} (update_status : Lumigo → W → (W × Lumigo) × Option Error) where
  -- `Status().Update` overwrites the instance with the answer of the API server. The result is the
  -- number of seconds after which to reconcile again; the returned error is always nil.
  unfoldable pub update_status_if_needed : Lumigo → W → W × ℕ
  update_status_if_needed lumigo world =
      let ((world', updated), e) = update_status (with_resources lumigo) world in
      (
        world',
        elim e [
          | some e' ↦ default_err_requeue_period
          | none ↦
              if (has_error updated).0 then default_err_requeue_period else default_requeue_period
        ],
      )
