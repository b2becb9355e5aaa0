-- ===== src/Enricher/Logs.antt =====
-- The log records of Kubernetes events: processKubernetesEventScopeLogs and what it calls in
-- processor.go. The search for a root owner runs on fuel; a result `none` says that it was used up.
use lumigo_kubernetes_operat.Prelude.{
  ℕ, String, true, Option, none, some, List, [], ◌∷◌, ◌++◌, ◌==◌, if◌then◌else◌, Fallible, inl, inr,
  Error, errorf, wrapf,
}
use lumigo_kubernetes_operat.Enricher.Objects.{
  GroupVersionKind, same_gvk, v1_event, v1_namespace, kind_of_gvk, Kind, KubeObject, Namespace,
  ObjectReference,
}
use lumigo_kubernetes_operat.Enricher.Raw.{Raw, opaque, nested, Fields, find_field, put_field}
use lumigo_kubernetes_operat.Enricher.External.{Libraries, Cluster}
use lumigo_kubernetes_operat.Enricher.Client.{KubeClient, register, register_namespace}
use lumigo_kubernetes_operat.Enricher.Owners.{
  get_root_owner_reference, ensure_object_reference_is_known,
}
use lumigo_kubernetes_operat.Enricher.Watching.{Addr}
use lumigo_kubernetes_operat.Enricher.Attributes.{
  Attributes, truth, put_attribute, add_resource_attributes,
}
pub mod Scopes

-- The body of a log record: a map, or anything else.
pub data Body : Type 0 where
  map_body : Fields → Body
  other_body : String → Body

pub record LogRecord : Type 0 where
  pub attributes : Attributes
  pub body : Body

pub record ScopeLogs : Type 0 where
  pub name : String
  pub records : List LogRecord

pub record ResourceLogs : Type 0 where
  pub attributes : Attributes
  pub scope_logs : List ScopeLogs

-- Where the event of a log record is: in the body itself, or in its field "object".
pub data EventPlace : Type 0 where
  in_body : Fields → EventPlace
  in_object : Fields → EventPlace
  nowhere : EventPlace

abbrev object_place : Option Raw → EventPlace
object_place none = nowhere
object_place (some (opaque s)) = nowhere
object_place (some (nested fields)) = in_object fields

-- `rootOwnerReferenceParent["rootOwnerReference"] = rootOwnerReference`, which writes through to the
-- body.
unfoldable pub put_root : Fields → EventPlace → Fields → Fields
put_root root (in_body fields) body = put_field "rootOwnerReference" (nested root) body
put_root root (in_object fields) body =
    put_field "object" (nested (put_field "rootOwnerReference" (nested root) fields)) body
put_root root nowhere body = body

module _ (libs : Libraries) {W : Type 0} (cluster : Cluster W) where
  abbrev State : Type 0
  State = W × KubeClient libs

  unfoldable pub event_place : Fields → EventPlace
  event_place body =
      let gvk = libs.unstructured_gvk body in
      if same_gvk gvk v1_event
      then in_body body
      else if gvk.kind == ""
      then object_place (find_field "object" body)
      else nowhere

  -- The event at the place, as far as it is looked at: its involved object.
  unfoldable pub event_at : EventPlace → Fallible ObjectReference
  event_at nowhere = inl (
      errorf
        "the log record seems to be containing neither a v1.Event, nor a watch event for a v1.Event"
        [])
  event_at (in_body fields) = elim (libs.involved_object_from_unstructured fields) [
    | inl e ↦ inl (wrapf "cannot parse log-record body as v1.Event: %w" [] e)
    | inr r ↦ inr r
  ]
  event_at (in_object fields) = elim (libs.involved_object_from_unstructured fields) [
    | inl e ↦
        inl (wrapf "cannot parse log-record body as watch event containing a v1.Event: %w" [] e)
    | inr r ↦ inr r
  ]

  module _ (fuel : ℕ) where
    abbrev Processed : Type 0 → Type 0
    Processed A = Option (State × A)

    abbrev after_ensure : LogRecord → State × Option Error → Processed (LogRecord × Option Error)
    after_ensure r (s, e) = some (s, (r, e))

    -- the rest of processKubernetesEventLogRecord after GetRootOwnerReference
    abbrev pub after_root :
        LogRecord
        → Fields
        → EventPlace
        → ObjectReference
        → State × Option (Fallible Fields)
        → Processed (LogRecord × Option Error)
    after_root r body place involved (s, none) = none
    after_root r body place involved (s, some (inl e)) =
        some (s, (r, some (wrapf "cannot retrieve root-owner reference: %w" [] e)))
    after_root r body place involved (s, some (inr root)) =
        after_ensure (record r { body = map_body (put_root root place body) })
          (ensure_object_reference_is_known libs cluster involved s)

    abbrev pub with_event :
        LogRecord
        → Fields
        → EventPlace
        → Fallible ObjectReference
        → State
        → Processed (LogRecord × Option Error)
    with_event r body place (inl e) s = some (s, (r, some e))
    with_event r body place (inr involved) s =
        after_root r body place involved (get_root_owner_reference libs cluster fuel involved s)

    abbrev pub process_event_body : LogRecord → Body → State → Processed (LogRecord × Option Error)
    process_event_body r (other_body text) s =
        some (s, (r, some (errorf "cannot access log record body as map" [])))
    process_event_body r (map_body body) s =
        with_event r body (event_place body) (event_at (event_place body)) s

    -- The record afterwards, and the error, which is logged.
    unfoldable pub process_kubernetes_event_log_record :
        LogRecord → State → Processed (LogRecord × Option Error)
    process_kubernetes_event_log_record r s = process_event_body r r.body s

    abbrev pub then_records :
        (State → Processed (List LogRecord))
        → Processed (LogRecord × Option Error)
        → Processed (List LogRecord)
    then_records rest none = none
    then_records rest (some (s, (r, e))) = elim (rest s) [
      | none ↦ none
      | some result ↦ some (result.0, r ∷ result.1)
    ]

    unfoldable pub process_kubernetes_event_scope_logs :
        List LogRecord → State → Processed (List LogRecord)
    process_kubernetes_event_scope_logs [] s = some (s, [])
    process_kubernetes_event_scope_logs (r ∷ rest) s =
        then_records (process_kubernetes_event_scope_logs rest)
          (process_kubernetes_event_log_record r s)
