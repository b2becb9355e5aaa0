-- ===== src/Enricher/Watching.antt =====
-- How objects reach the client of internal/kube.go by themselves: Start, the handlers of the
-- informers, and pods looked up by the address of a connection.
use Prim.Native.String.{◌++◌ as ◌⧺◌}
use lumigo_kubernetes_operat.Prelude.{
  String, true, Option, none, some, List, [], ◌∷◌, Fallible, inl, inr, Error, errorf, wrapf, ◌==◌,
  if◌then◌else◌,
}
use lumigo_kubernetes_operat.K8s.{ApiResult, found, not_found, failed}
use lumigo_kubernetes_operat.Enricher.Objects.{Kind, pod, KubeObject}
use lumigo_kubernetes_operat.Enricher.External.{Libraries, Cluster}
use lumigo_kubernetes_operat.Enricher.Retry.{retry}
use lumigo_kubernetes_operat.Enricher.Caches.{Untyped, add_untyped, assert_kind}
use lumigo_kubernetes_operat.Enricher.Client.{
  KubeClient, with_sending, sending_of, add_pod_uid, register_pod,
}

-- `net.Addr`: the types that connectionIP knows, with their address as `IP.String()` gives it, and any
-- other, with its `String()`.
pub data Addr : Type 0 where
  udp_addr tcp_addr ip_addr other_addr : String → Addr

-- `s[:strings.LastIndex(s, ":")]`, if there is a ":"
unfoldable before_last_colon : String → Option String
before_last_colon String.[] = none
before_last_colon (String.◌∷◌ c s) = elim (before_last_colon s) [
  | some t ↦ some (String.◌∷◌ c t)
  | none ↦ if String.◌∷◌ c String.[] == ":" then some String.[] else none
]

-- A notification of an informer; of an update only the new object is looked at.
pub data Notice : Type 0 where
  on_add on_update on_delete : Untyped → Notice

module _ (libs : Libraries) where
  abbrev or_text : String → Option String → String
  or_text text none = text
  or_text text (some ip) = ip

  abbrev ip_of_text : String → Option String → String
  ip_of_text text none = text
  ip_of_text text (some head) = or_text text (libs.parse_ip head)

  unfoldable pub connection_ip : Option Addr → String
  unfolding before_last_colon
  connection_ip none = ""
  connection_ip (some (udp_addr ip)) = ip
  connection_ip (some (tcp_addr ip)) = ip
  connection_ip (some (ip_addr ip)) = ip
  connection_ip (some (other_addr text)) = ip_of_text text (before_last_colon text)

  -- `AddUntyped` of the cache of the kind
  unfoldable pub add_watched : Kind → Untyped → KubeClient libs → KubeClient libs
  add_watched kind u c =
      with_sending libs kind (add_untyped libs kind u (sending_of libs kind c)).0 c

  -- The handlers of cachedEventHandler, which log errors.
  unfoldable pub cached_event_handler : Kind → Notice → KubeClient libs → KubeClient libs
  cached_event_handler kind (on_add u) c = add_watched kind u c
  cached_event_handler kind (on_update u) c = add_watched kind u c
  cached_event_handler kind (on_delete u) c = c

  abbrev pub add_asserted : Fallible KubeObject → KubeClient libs → KubeClient libs
  add_asserted (inl e) c = c
  add_asserted (inr o) c = add_pod_uid libs o c

  -- The second handler of the pod informer.
  unfoldable pub pod_uid_handler : Notice → KubeClient libs → KubeClient libs
  pod_uid_handler (on_add u) c = add_asserted (assert_kind libs pod u) c
  pod_uid_handler (on_update u) c = add_asserted (assert_kind libs pod u) c
  pod_uid_handler (on_delete u) c = c

  module _ {W : Type 0} (cluster : Cluster W) where
    -- the informers in the order in which Start adds their handlers
    abbrev pub informers : List String
    informers =
        "namespace" ∷ "pod" ∷ "pod" ∷ "daemonset" ∷ "deployment" ∷ "replicaset" ∷ "statefulset"
        ∷ "cronjob" ∷ "job" ∷ []

    abbrev add_next : (W → W × Option Error) → String → W × Option Error → W × Option Error
    add_next rest informer (w, none) = rest w
    add_next rest informer (w, some e) =
        (w, some (wrapf ("cannot register event handler for " ⧺ (informer ⧺ " informer: %w")) [] e))

    abbrev add_event_handlers : List String → W → W × Option Error
    add_event_handlers [] w = (w, none)
    add_event_handlers (informer ∷ rest) w =
        add_next (add_event_handlers rest) informer (cluster.add_event_handler informer w)

    abbrev pub started : KubeClient libs → W × Option Error → (W × KubeClient libs) × Option Error
    started c (w, some e) = ((w, c), some e)
    started c (w, none) = ((w, record c { is_started = true }), none)

    abbrev pub with_provider_id :
        KubeClient libs → W × ApiResult String → (W × KubeClient libs) × Option Error
    with_provider_id c (w, found provider_id) =
        started (record c { provider_id = provider_id }) (add_event_handlers informers w)
    with_provider_id c (w, not_found e) = (
      (w, c),
      some (wrapf "cannot look up the provider identifier of the node running this pod: %w" [] e),
    )
    with_provider_id c (w, failed e) = (
      (w, c),
      some (wrapf "cannot look up the provider identifier of the node running this pod: %w" [] e),
    )

    abbrev pub start_on_node :
        Option String → W × KubeClient libs → (W × KubeClient libs) × Option Error
    start_on_node none s = (
      s,
      some (
          errorf
            "the LUMIGO_OPERATOR_NODE_NAME env var is not set, cannot look up the EC2 identifier of the node running this pod"
            []),
    )
    start_on_node (some node) (w, c) = with_provider_id c (cluster.get_provider_id node w)

    unfoldable pub start_client : W × KubeClient libs → (W × KubeClient libs) × Option Error
    start_client (w, c) =
        if c.is_started
        then ((w, c), none)
        else start_on_node (cluster.lookup_env "LUMIGO_OPERATOR_NODE_NAME") (w, c)

    -- The function that GetPodByNetworkConnection retries.
    abbrev pub first_pod : W × ApiResult (List KubeObject) → W × ApiResult KubeObject
    first_pod (w, found []) = (w, failed (errorf "Unexpected length of podlist: %v" ("[]" ∷ [])))
    first_pod (w, found (o ∷ rest)) = (w, found o)
    first_pod (w, not_found e) = (w, not_found e)
    first_pod (w, failed e) = (w, failed e)

    abbrev pub pod_field_selector : String → String
    pod_field_selector ip = "status.podIP=" ⧺ ip

    abbrev pub after_first_pod :
        KubeClient libs → W × ApiResult KubeObject → (W × KubeClient libs) × Option KubeObject
    after_first_pod c (w, found o) = ((w, register_pod libs o c), some o)
    after_first_pod c (w, not_found e) = ((w, c), none)
    after_first_pod c (w, failed e) = ((w, c), none)

    unfoldable pub get_pod_by_network_connection :
        Option Addr → W × KubeClient libs → (W × KubeClient libs) × Option KubeObject
    get_pod_by_network_connection addr (w, c) = after_first_pod c (
        retry cluster.sleep
          (λ v. first_pod (cluster.list_pods (pod_field_selector (connection_ip addr)) v)) w)
