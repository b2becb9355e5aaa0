-- ===== src/Enricher/Faithful/Keeping/Pods.antt =====
-- The lookups of pods by uid and by address keep the client faithful.
use lumigo_kubernetes_operat.Prelude.{String, List, [], ◌∷◌, ◌≡◌, refl, Option}
use lumigo_kubernetes_operat.K8s.{ApiResult, found, not_found, failed}
use lumigo_kubernetes_operat.Enricher.Objects.{
  Kind, pod, daemon_set, deployment, replica_set, stateful_set, cron_job, job, KubeObject,
}
use lumigo_kubernetes_operat.Enricher.External.{Libraries, Cluster, IsCache}
use lumigo_kubernetes_operat.Enricher.Client.{KubeClient, cache_of, get_pod_by_uid}
use lumigo_kubernetes_operat.Enricher.Retry.{give_up, retry_answer}
use lumigo_kubernetes_operat.Enricher.Watching.{
  Addr, connection_ip, first_pod, pod_field_selector, after_first_pod,
  get_pod_by_network_connection,
}
use lumigo_kubernetes_operat.Enricher.Faithful.{IsFaithful, IsHonest}
use lumigo_kubernetes_operat.Enricher.Faithful.Caches.{register-IsFaithful}

module _ (libs : Libraries) {W : Type 0} (cluster : Cluster W) (Seen : KubeObject → Type 0)
    (is_cache : IsCache libs) (honest : IsHonest Seen cluster) where
  -- the client of a state is faithful
  abbrev pub Keeps : W × KubeClient libs → Type 0
  Keeps s = IsFaithful libs Seen s.1

  cache_of-with_uids :
      (k : Kind) (cache : libs.Cache) (c : KubeClient libs)
      → cache_of libs k (record c { pod_uid_cache = cache }) ≡ cache_of libs k c
  cache_of-with_uids pod cache c = refl
  cache_of-with_uids daemon_set cache c = refl
  cache_of-with_uids deployment cache c = refl
  cache_of-with_uids replica_set cache c = refl
  cache_of-with_uids stateful_set cache c = refl
  cache_of-with_uids cron_job cache c = refl
  cache_of-with_uids job cache c = refl

  pub Keeps-get_pod_by_uid :
      (uid : String) (s : W × KubeClient libs)
      → Keeps s
      → Keeps (get_pod_by_uid libs cluster uid s).0
  unfolding get_pod_by_uid
  Keeps-get_pod_by_uid uid (w, c) f = record {
    caches = λ k. rw (cache_of-with_uids k (libs.get uid c.pod_uid_cache).0 c) (f.caches k);
    pods = λ key o e. f.pods key o (is_cache.get-get key uid o c.pod_uid_cache e);
    sent = f.sent;
  }

  Keeps-after_first_pod :
      (c : KubeClient libs) (u : W) (r : W × ApiResult (List KubeObject)) (a : ApiResult KubeObject)
      → ((o : KubeObject) (rest : List KubeObject)
          → r.1 ≡ found (o ∷ rest)
          → Seen o × (o.kind ≡ pod))
      → (first_pod libs cluster r).1 ≡ a
      → IsFaithful libs Seen c
      → Keeps (after_first_pod libs cluster c (give_up (u, a))).0
  Keeps-after_first_pod c u r (not_found e) h p f = f
  Keeps-after_first_pod c u r (failed e) h p f = f
  Keeps-after_first_pod c u (w, found []) (found o) h p f = absurd (cc p)
  Keeps-after_first_pod c u (w, not_found e) (found o) h p f = absurd (cc p)
  Keeps-after_first_pod c u (w, failed e) (found o) h p f = absurd (cc p)
  Keeps-after_first_pod c u (w, found (q ∷ rest)) (found o) h p f =
      let (seen, k) = h o rest (cc p) in register-IsFaithful libs Seen is_cache pod o c seen k f

  pub Keeps-get_pod_by_network_connection :
      (addr : Option Addr) (s : W × KubeClient libs)
      → Keeps s
      → Keeps (get_pod_by_network_connection libs cluster addr s).0
  unfolding get_pod_by_network_connection
  Keeps-get_pod_by_network_connection addr (w, c) f =
      let selector = pod_field_selector libs cluster (connection_ip libs addr) in
      let (u, vre) =
        retry_answer cluster.sleep (λ v. first_pod libs cluster (cluster.list_pods selector v)) w in
      let (v, re) = vre in
      let (r, e) = re in
      rw (e.1) (
        Keeps-after_first_pod c u (cluster.list_pods selector v) r (honest.listed selector v) e.0 f)
