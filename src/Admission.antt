-- ===== src/Admission.antt =====
-- The requests and responses of admission webhooks (k8s.io/api/admission/v1 and controller-runtime's
-- webhook/admission), as the two webhooks use them. A patch response is the pair of raw objects that
-- it is computed from; a message is a format with its arguments.
use lumigo_kubernetes_operat.Prelude.{String, Bool, true, false, List, Error}

pub data Operation : Type 0 where
  create update delete connect : Operation

abbrev pub is_delete : Operation → Bool
is_delete delete = true
is_delete _ = false

pub record GroupVersionKind : Type 0 where
  pub group : String
  pub version : String
  pub kind : String

pub record Request : Type 0 where
  pub operation : Operation
  pub kind : GroupVersionKind
  pub raw : String

pub data Response : Type 0 where
  allowed : String → List String → Response
  allowed_error : Error → Response
  denied : String → List String → Response
  errored : Error → Response
  patched : String → String → Response
