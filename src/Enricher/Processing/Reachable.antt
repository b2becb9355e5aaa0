-- ===== src/Enricher/Processing/Reachable.antt =====
-- The states that the enricher reaches: from New, by its start, the notices of the informers and the
-- telemetry that it processes, in any order.
use lumigo_kubernetes_operat.Prelude.{ℕ, String, List, ◌≡◌, inr, some, Option, ok}
use lumigo_kubernetes_operat.Enricher.Objects.{Kind, KubeObject}
use lumigo_kubernetes_operat.Enricher.External.{Libraries, Cluster}
use lumigo_kubernetes_operat.Enricher.Client.{KubeClient}
use lumigo_kubernetes_operat.Enricher.Creation.{new_kube_client}
use lumigo_kubernetes_operat.Enricher.Watching.{Addr, Notice, cached_event_handler, pod_uid_handler}
use lumigo_kubernetes_operat.Enricher.Attributes.{Attributes, start_processor, process_traces}
use lumigo_kubernetes_operat.Enricher.Metrics.{ResourceMetrics, process_metrics}
use lumigo_kubernetes_operat.Enricher.Logs.{ResourceLogs}
use lumigo_kubernetes_operat.Enricher.Logs.Scopes.{process_logs}
use lumigo_kubernetes_operat.Enricher.Processing.Notices.{IsReported}

module _ (libs : Libraries) {W : Type 0} (cluster : Cluster W) (Seen : KubeObject → Type 0)
    (fuel : ℕ) where
  -- The states of the world and the client. The world may move at any time.
  pub data IsReachable : W × KubeClient libs → Type 0 where
    at_first : {w : W} {c : KubeClient libs} → new_kube_client libs ≡ inr c → IsReachable (w, c)
    elsewhere : {w w' : W} {c : KubeClient libs} → IsReachable (w, c) → IsReachable (w', c)
    when_started :
        (s : W × KubeClient libs) → IsReachable s → IsReachable (start_processor libs cluster s).0
    when_noticed :
        (w : W) (c : KubeClient libs) (kind : Kind) (n : Notice)
        → IsReported Seen n
        → IsReachable (w, c)
        → IsReachable (w, cached_event_handler libs kind n c)
    when_pod_noticed :
        (w : W) (c : KubeClient libs) (n : Notice)
        → IsReported Seen n
        → IsReachable (w, c)
        → IsReachable (w, pod_uid_handler libs n c)
    when_traced :
        (s : W × KubeClient libs) (cluster_uid : String) (addr : Option Addr)
        (traces : List Attributes)
        → IsReachable s
        → IsReachable (process_traces libs cluster cluster_uid addr traces s).0
    when_measured :
        (s s' : W × KubeClient libs) (cluster_uid : String)
        (metrics metrics' : List ResourceMetrics)
        → process_metrics libs cluster cluster_uid metrics s ≡ ok (s', metrics')
        → IsReachable s
        → IsReachable s'
    when_logged :
        (s s' : W × KubeClient libs) (cluster_uid : String) (addr : Option Addr)
        (logs logs' : List ResourceLogs)
        → process_logs libs cluster fuel cluster_uid addr logs s ≡ some (s', logs')
        → IsReachable s
        → IsReachable s'
