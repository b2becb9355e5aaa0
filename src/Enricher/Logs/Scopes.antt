-- ===== src/Enricher/Logs/Scopes.antt =====
-- The scopes of the logs of a resource, and the resources: processKubernetesObjectScopeLogs,
-- processResourceLogs and processLogs of processor.go.
use lumigo_kubernetes_operat.Prelude.{
  ℕ, String, true, Option, none, some, List, [], ◌∷◌, ◌++◌, ◌==◌, if◌then◌else◌, Fallible, inl, inr,
  Error, errorf,
}
use lumigo_kubernetes_operat.Enricher.Objects.{
  GroupVersionKind, same_gvk, v1_namespace, kind_of_gvk, Kind, KubeObject, Namespace,
}
use lumigo_kubernetes_operat.Enricher.Raw.{Fields}
use lumigo_kubernetes_operat.Enricher.External.{Libraries, Cluster}
use lumigo_kubernetes_operat.Enricher.Client.{KubeClient, register, register_namespace}
use lumigo_kubernetes_operat.Enricher.Watching.{Addr}
use lumigo_kubernetes_operat.Enricher.Attributes.{
  Attributes, truth, put_attribute, add_resource_attributes,
}
use lumigo_kubernetes_operat.Enricher.Logs.{
  Body, map_body, other_body, LogRecord, ScopeLogs, ResourceLogs,
  process_kubernetes_event_scope_logs,
}

-- How the loop over the scopes ends: with all scopes, or at a heartbeat.
pub data Scanned : Type 0 where
  scanned stopped : List ScopeLogs → Scanned

abbrev scanned_after : ScopeLogs → Scanned → Scanned
scanned_after sl (scanned rest) = scanned (sl ∷ rest)
scanned_after sl (stopped rest) = stopped (sl ∷ rest)

module _ (libs : Libraries) {W : Type 0} (cluster : Cluster W) where
  abbrev State : Type 0
  State = W × KubeClient libs

  abbrev pub register_parsed : Kind → Fallible KubeObject → State → State × Option Error
  register_parsed kind (inl e) s = (s, some e)
  register_parsed kind (inr o) (w, c) = ((w, register libs kind o c), none)

  abbrev pub register_parsed_namespace : Fallible Namespace → State → State × Option Error
  register_parsed_namespace (inl e) s = (s, some e)
  register_parsed_namespace (inr n) (w, c) = ((w, register_namespace libs n c), none)

  -- the switch of processKubernetesObjectLogRecord
  abbrev pub register_of_kind :
      GroupVersionKind → Option Kind → Fields → State → State × Option Error
  register_of_kind gvk (some kind) body s =
      register_parsed kind (libs.object_from_unstructured kind body) s
  register_of_kind gvk none body s =
      if same_gvk gvk v1_namespace
      then register_parsed_namespace (libs.namespace_from_unstructured body) s
      else (s, none)

  abbrev pub register_body : Body → State → State × Option Error
  register_body (other_body text) s =
      (s, some (errorf "cannot access log record body as map: %v" (text ∷ [])))
  register_body (map_body body) s =
      register_of_kind (libs.unstructured_gvk body) (kind_of_gvk (libs.unstructured_gvk body)) body
        s

  unfoldable pub process_kubernetes_object_log_record : LogRecord → State → State × Option Error
  process_kubernetes_object_log_record r s = register_body r.body s

  unfoldable pub process_kubernetes_object_scope_logs : List LogRecord → State → State
  process_kubernetes_object_scope_logs [] s = s
  process_kubernetes_object_scope_logs (r ∷ rest) s =
      process_kubernetes_object_scope_logs rest (process_kubernetes_object_log_record r s).0

  -- the records that are emitted for new objects; those that cannot be converted are left out
  unfoldable pub emitted_records : List KubeObject → List LogRecord
  emitted_records [] = []
  emitted_records (o ∷ rest) =
      let later = emitted_records rest in
      elim (libs.object_to_unstructured o) [
        | inl e ↦ later
        | inr fields ↦
            record {
              attributes = put_attribute "emitted-by-enricher" (truth true) [];
              body = map_body fields;
            }
            ∷ later
      ]

  abbrev pub with_emitted : List KubeObject → List ScopeLogs → List ScopeLogs
  with_emitted [] scopes = scopes
  with_emitted (o ∷ rest) scopes =
      scopes
      ++ (record { name = "lumigo-operator.k8s-objects"; records = emitted_records (o ∷ rest) }
          ∷ [])

  -- the end of processResourceLogs
  unfoldable pub piggyback : List ScopeLogs → State → State × List ScopeLogs
  piggyback scopes (w, c) =
      let (received, remaining) = libs.receive c.object_resource_versions in
      ((w, record c { object_resource_versions = remaining }), with_emitted received scopes)

  module _ (fuel : ℕ) where
    abbrev pub scan_after : ScopeLogs → Option (State × Scanned) → Option (State × Scanned)
    scan_after sl none = none
    scan_after sl (some (s, rest)) = some (s, scanned_after sl rest)

    abbrev pub scan_on :
        (State → Option (State × Scanned))
        → String
        → Option (State × List LogRecord)
        → Option (State × Scanned)
    scan_on rest name none = none
    scan_on rest name (some (s, records)) =
        scan_after (record { name = name; records = records }) (rest s)

    -- the loop of processResourceLogs
    unfoldable pub scan_scopes : List ScopeLogs → State → Option (State × Scanned)
    scan_scopes [] s = some (s, scanned [])
    scan_scopes (sl ∷ rest) s =
        if sl.name == "lumigo-operator.heartbeat"
        then some (s, stopped (sl ∷ rest))
        else if sl.name == "lumigo-operator.k8s-events"
        then scan_on (scan_scopes rest) sl.name
            (process_kubernetes_event_scope_logs libs cluster fuel sl.records s)
        else if sl.name == "lumigo-operator.k8s-objects"
        then scan_on (scan_scopes rest) sl.name
            (some (process_kubernetes_object_scope_logs sl.records s, sl.records))
        else scan_on (scan_scopes rest) sl.name (some (s, sl.records))

    abbrev pub after_scan : Option (State × Scanned) → Option (State × List ScopeLogs)
    after_scan none = none
    after_scan (some (s, stopped scopes)) = some (s, scopes)
    after_scan (some (s, scanned scopes)) = some (piggyback scopes s)

    unfoldable pub process_resource_logs : List ScopeLogs → State → Option (State × List ScopeLogs)
    process_resource_logs scopes s = after_scan (scan_scopes scopes s)

    abbrev pub logs_of :
        Attributes → Option (State × List ScopeLogs) → Option (State × ResourceLogs)
    logs_of attributes none = none
    logs_of attributes (some (s, scopes)) =
        some (s, record { attributes = attributes; scope_logs = scopes })

    unfoldable pub process_one_resource :
        String → Option Addr → ResourceLogs → State → Option (State × ResourceLogs)
    process_one_resource cluster_uid addr rl s =
        let (s', attributes) =
          add_resource_attributes libs cluster cluster_uid addr rl.attributes s in
        logs_of attributes (process_resource_logs rl.scope_logs s')

    abbrev pub then_resources :
        (State → Option (State × List ResourceLogs))
        → Option (State × ResourceLogs)
        → Option (State × List ResourceLogs)
    then_resources rest none = none
    then_resources rest (some (s, rl)) = elim (rest s) [
      | none ↦ none
      | some result ↦ some (result.0, rl ∷ result.1)
    ]

    unfoldable pub process_logs :
        String → Option Addr → List ResourceLogs → State → Option (State × List ResourceLogs)
    process_logs cluster_uid addr [] s = some (s, [])
    process_logs cluster_uid addr (rl ∷ rest) s =
        then_resources (process_logs cluster_uid addr rest)
          (process_one_resource cluster_uid addr rl s)
