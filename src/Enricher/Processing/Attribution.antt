-- ===== src/Enricher/Processing/Attribution.antt =====
-- Which pod telemetry is attributed to (getPod of processor.go).
use lumigo_kubernetes_operat.Prelude.{List, [], ◌∷◌, ◌≡◌, refl, some, none, Option}
use lumigo_kubernetes_operat.K8s.{ApiResult, found, not_found, failed}
use lumigo_kubernetes_operat.Enricher.Objects.{KubeObject}
use lumigo_kubernetes_operat.Enricher.External.{Libraries, Cluster}
use lumigo_kubernetes_operat.Enricher.Client.{KubeClient, get_pod_by_uid}
use lumigo_kubernetes_operat.Enricher.Retry.{give_up, retry_answer}
use lumigo_kubernetes_operat.Enricher.Watching.{
  Addr, connection_ip, first_pod, pod_field_selector, after_first_pod,
  get_pod_by_network_connection,
}
use lumigo_kubernetes_operat.Enricher.Attributes.{
  Value, as_string, Attributes, get_attribute, pod_uid_key, or_by_connection, by_uid_or_connection,
  find_pod,
}
use lumigo_kubernetes_operat.Enricher.Faithful.{IsFaithful, IsPodEntry}

module _ (libs : Libraries) {W : Type 0} (cluster : Cluster W) (Seen : KubeObject → Type 0) where
  -- Why telemetry with these attributes and this address is a pod's.
  pub data IsAttributed (addr : Option Addr) (attributes : Attributes) (o : KubeObject)
      : Type 0 where
    by_uid :
        {v : Value}
        → get_attribute pod_uid_key attributes ≡ some v
        → IsPodEntry Seen (as_string v) o
        → IsAttributed addr attributes o
    by_address :
        {v : W} {rest : List KubeObject}
        → (cluster.list_pods (pod_field_selector libs cluster (connection_ip libs addr)) v).1
          ≡ found (o ∷ rest)
        → IsAttributed addr attributes o

  listed_first :
      (r : W × ApiResult (List KubeObject)) (o : KubeObject)
      → (first_pod libs cluster r).1 ≡ found o
      → (rest : List KubeObject) × (r.1 ≡ found (o ∷ rest))
  listed_first (w, found []) o h = absurd (cc h)
  listed_first (w, not_found e) o h = absurd (cc h)
  listed_first (w, failed e) o h = absurd (cc h)
  listed_first (w, found (p ∷ rest)) o h = let same : p ≡ o = cc h in (rest, rw same refl)

  found_after :
      (c : KubeClient libs) (u : W) (r : ApiResult KubeObject) (o : KubeObject)
      → (after_first_pod libs cluster c (give_up (u, r))).1 ≡ some o
      → r ≡ found o
  found_after c u (found p) o h = let same : p ≡ o = cc h in rw same refl
  found_after c u (not_found e) o h = absurd (cc h)
  found_after c u (failed e) o h = absurd (cc h)

  IsAttributed-connection :
      (addr : Option Addr) (attributes : Attributes) (s : W × KubeClient libs) (o : KubeObject)
      → (get_pod_by_network_connection libs cluster addr s).1 ≡ some o
      → IsAttributed addr attributes o
  unfolding get_pod_by_network_connection
  IsAttributed-connection addr attributes (w, c) o h =
      let selector = pod_field_selector libs cluster (connection_ip libs addr) in
      let (u, vre) =
        retry_answer cluster.sleep (λ v. first_pod libs cluster (cluster.list_pods selector v)) w in
      let (v, re) = vre in
      let (r, e) = re in
      let answered : r ≡ found o = found_after c u r o (rw (← e.1) h) in
      let (rest, listed) = listed_first (cluster.list_pods selector v) o (rw (← answered) (e.0)) in
      by_address {v = v} {rest = rest} listed

  IsAttributed-or_by_connection :
      (addr : Option Addr) (attributes : Attributes) (v : Value) (o : KubeObject)
      (r : (W × KubeClient libs) × Option KubeObject)
      → get_attribute pod_uid_key attributes ≡ some v
      → ((p : KubeObject) → r.1 ≡ some p → IsPodEntry Seen (as_string v) p)
      → (or_by_connection libs cluster addr r).1 ≡ some o
      → IsAttributed addr attributes o
  IsAttributed-or_by_connection addr attributes v o (s, some p) g f h =
      let same : p ≡ o = cc h in by_uid g (rw (← same) (f p refl))
  IsAttributed-or_by_connection addr attributes v o (s, none) g f h =
      IsAttributed-connection addr attributes s o h

  IsAttributed-by_uid_or_connection :
      (addr : Option Addr) (attributes : Attributes) (uid : Option Value) (s : W × KubeClient libs)
      (o : KubeObject)
      → get_attribute pod_uid_key attributes ≡ uid
      → IsFaithful libs Seen s.1
      → (by_uid_or_connection libs cluster addr uid s).1 ≡ some o
      → IsAttributed addr attributes o
  unfolding get_pod_by_uid
  IsAttributed-by_uid_or_connection addr attributes none s o g f h =
      IsAttributed-connection addr attributes s o h
  IsAttributed-by_uid_or_connection addr attributes (some v) (w, c) o g f h =
      IsAttributed-or_by_connection addr attributes v o
        (get_pod_by_uid libs cluster (as_string v) (w, c)) g (f.pods (as_string v)) h

  -- Where the caches hold what was seen, telemetry is attributed to a pod only if the pod was seen with
  -- the uid that the telemetry names, or the cluster listed it first for the address of the connection.
  pub find_pod-IsAttributed :
      (addr : Option Addr) (attributes : Attributes) (s : W × KubeClient libs) (o : KubeObject)
      → IsFaithful libs Seen s.1
      → (find_pod libs cluster addr attributes s).1 ≡ some o
      → IsAttributed addr attributes o
  unfolding find_pod
  find_pod-IsAttributed addr attributes s o f h =
      IsAttributed-by_uid_or_connection addr attributes (get_attribute pod_uid_key attributes) s o
        refl f h
