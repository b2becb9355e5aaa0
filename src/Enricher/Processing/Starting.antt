-- ===== src/Enricher/Processing/Starting.antt =====
-- The start of the enricher keeps its caches faithful.
use lumigo_kubernetes_operat.Prelude.{
  String, Bool, true, false, ◌≡◌, refl, some, none, Option, Error, if◌then◌else◌,
}
use lumigo_kubernetes_operat.K8s.{ApiResult, found, not_found, failed}
use lumigo_kubernetes_operat.Enricher.Objects.{
  Namespace, Kind, pod, daemon_set, deployment, replica_set, stateful_set, cron_job, job,
  KubeObject,
}
use lumigo_kubernetes_operat.Enricher.External.{Libraries, Cluster, IsCache}
use lumigo_kubernetes_operat.Enricher.Client.{
  KubeClient, cache_of, get_cluster_uid, uid_of_namespace, get_namespace_by_name,
}
use lumigo_kubernetes_operat.Enricher.Watching.{
  started, with_provider_id, start_on_node, start_client,
}
use lumigo_kubernetes_operat.Enricher.Attributes.{start_processor, after_start, after_cluster_uid}
use lumigo_kubernetes_operat.Enricher.Faithful.{IsFaithful, IsHonest}
use lumigo_kubernetes_operat.Enricher.Faithful.Keeping.{Keeps-get_namespace_by_name}

module _ (libs : Libraries) (Seen : KubeObject → Type 0) (is_cache : IsCache libs) where
  -- with other settings than the caches
  with_settings-IsFaithful :
      (provider_id : String) (is_started : Bool) (c : KubeClient libs)
      → IsFaithful libs Seen c
      → IsFaithful libs Seen (record c { provider_id = provider_id; is_started = is_started })
  with_settings-IsFaithful provider_id is_started c f = record {
    caches = λ k. rw (cache_of-with_settings k) (f.caches k);
    pods = f.pods;
    sent = f.sent;
  }
    where
      cache_of-with_settings :
          (k : Kind)
          → cache_of libs k (record c { provider_id = provider_id; is_started = is_started })
            ≡ cache_of libs k c
      cache_of-with_settings pod = refl
      cache_of-with_settings daemon_set = refl
      cache_of-with_settings deployment = refl
      cache_of-with_settings replica_set = refl
      cache_of-with_settings stateful_set = refl
      cache_of-with_settings cron_job = refl
      cache_of-with_settings job = refl

  module _ {W : Type 0} (cluster : Cluster W) (honest : IsHonest Seen cluster) where
    started-IsFaithful :
        (provider_id : String) (c : KubeClient libs) (r : W × Option Error)
        → IsFaithful libs Seen c
        → IsFaithful libs Seen (started libs cluster (record c { provider_id = provider_id }) r).0.1
    started-IsFaithful provider_id c (w, some e) f =
        with_settings-IsFaithful provider_id c.is_started c f
    started-IsFaithful provider_id c (w, none) f = with_settings-IsFaithful provider_id true c f

    with_provider_id-IsFaithful :
        (c : KubeClient libs) (r : W × ApiResult String)
        → IsFaithful libs Seen c
        → IsFaithful libs Seen (with_provider_id libs cluster c r).0.1
    with_provider_id-IsFaithful c (w, found provider_id) f = started-IsFaithful provider_id c _ f
    with_provider_id-IsFaithful c (w, not_found e) f = f
    with_provider_id-IsFaithful c (w, failed e) f = f

    start_on_node-IsFaithful :
        (node : Option String) (s : W × KubeClient libs)
        → IsFaithful libs Seen s.1
        → IsFaithful libs Seen (start_on_node libs cluster node s).0.1
    start_on_node-IsFaithful none s f = f
    start_on_node-IsFaithful (some node) (w, c) f = with_provider_id-IsFaithful c _ f

    start_client-IsFaithful :
        (s : W × KubeClient libs)
        → IsFaithful libs Seen s.1
        → IsFaithful libs Seen (start_client libs cluster s).0.1
    unfolding start_client
    start_client-IsFaithful (w, c) f =
        either_way c.is_started ((w, c), none)
          (start_on_node libs cluster (cluster.lookup_env "LUMIGO_OPERATOR_NODE_NAME") (w, c)) f
          (start_on_node-IsFaithful (cluster.lookup_env "LUMIGO_OPERATOR_NODE_NAME") (w, c) f)
      where
        either_way :
            (b : Bool) (x y : (W × KubeClient libs) × Option Error)
            → IsFaithful libs Seen x.0.1
            → IsFaithful libs Seen y.0.1
            → IsFaithful libs Seen (if b then x else y).0.1
        either_way true x y f g = f
        either_way false x y f g = g

    uid_of_namespace-IsFaithful :
        (r : (W × KubeClient libs) × Option Namespace)
        → IsFaithful libs Seen r.0.1
        → IsFaithful libs Seen (uid_of_namespace libs cluster r).0.1
    uid_of_namespace-IsFaithful (s, none) f = f
    uid_of_namespace-IsFaithful (s, some n) f = f

    after_cluster_uid-IsFaithful :
        (r : (W × KubeClient libs) × Option String)
        → IsFaithful libs Seen r.0.1
        → IsFaithful libs Seen (after_cluster_uid libs cluster r).0.1
    after_cluster_uid-IsFaithful (s, none) f = f
    after_cluster_uid-IsFaithful (s, some uid) f = f

    after_start-IsFaithful :
        (r : (W × KubeClient libs) × Option Error)
        → IsFaithful libs Seen r.0.1
        → IsFaithful libs Seen (after_start libs cluster r).0.1
    unfolding get_cluster_uid
    after_start-IsFaithful (s, some e) f = f
    after_start-IsFaithful (s, none) f =
        after_cluster_uid-IsFaithful (get_cluster_uid libs cluster s) (
          uid_of_namespace-IsFaithful (get_namespace_by_name libs cluster "kube-system" s)
            (Keeps-get_namespace_by_name libs cluster Seen is_cache honest "kube-system" s f))

    pub start_processor-IsFaithful :
        (s : W × KubeClient libs)
        → IsFaithful libs Seen s.1
        → IsFaithful libs Seen (start_processor libs cluster s).0.1
    unfolding start_processor
    start_processor-IsFaithful s f =
        after_start-IsFaithful (start_client libs cluster s) (start_client-IsFaithful s f)
