-- ===== src/Enricher/Attributes/Kept.antt =====
-- What addResourceAttributes of processor.go writes and what it leaves alone.
use lumigo_kubernetes_operat.Prelude.{
  String, true, false, ◌∷◌, ◌≡◌, ◌⊎◌, refl, inl, inr, some, none, Option, ◌==◌, Fallible,
}
use lumigo_kubernetes_operat.Enricher.Objects.{
  Kind, pod, daemon_set, deployment, replica_set, stateful_set, cron_job, job, KubeObject,
  Namespace,
}
use lumigo_kubernetes_operat.Enricher.External.{Libraries, Cluster}
use lumigo_kubernetes_operat.Enricher.Caches.{typed}
use lumigo_kubernetes_operat.Enricher.Client.{KubeClient, Lookup, get_namespace_by_name}
use lumigo_kubernetes_operat.Enricher.Owners.{resolve_relevant_owner_reference}
use lumigo_kubernetes_operat.Enricher.Watching.{Addr}
use lumigo_kubernetes_operat.Enricher.Attributes.{
  Value, str, Attributes, get_attribute, put_str, provider_id_key, cluster_uid_key, node_name_key,
  pod_uid_key, pod_name_key, namespace_name_key, namespace_uid_key, put_owner,
  add_resource_cluster_attributes, put_pod_uid, put_pod, put_namespace, put_upper_owner, find_pod,
  add_owner, add_found_owner, after_namespace, add_pod, add_resource_attributes,
}
use lumigo_kubernetes_operat.Enricher.Attributes.Puts.{
  written_keys, is_foreign, get_attribute-put_attribute, put_other, put_owner_other, IsSpared,
  not_and, spared,
}

module _ (j : String) (free : IsSpared j) where
  put_pod_uid_other :
      (found : Option Value) (uid : String) (l : Attributes)
      → get_attribute pod_uid_key l ≡ found
      → ((pod_uid_key == j) ≡ false) ⊎ ((v : Value) × (get_attribute pod_uid_key l ≡ some v))
      → get_attribute j (put_pod_uid found uid l) ≡ get_attribute j l
  put_pod_uid_other (some v) uid l e h = refl
  put_pod_uid_other none uid l e (inl h) = put_other pod_uid_key j uid l h
  put_pod_uid_other none uid l e (inr h) = absurd (cc (e, h.1))

  uid_kept :
      (node : String) (l : Attributes)
      → ((pod_uid_key == j) ≡ false) ⊎ ((v : Value) × (get_attribute pod_uid_key l ≡ some v))
      → ((pod_uid_key == j) ≡ false)
        ⊎ ((v : Value) × (get_attribute pod_uid_key (put_str node_name_key node l) ≡ some v))
  uid_kept node l (inl h) = inl h
  uid_kept node l (inr h) = inr (h.0, cc (put_other node_name_key pod_uid_key node l refl, h.1))

  put_pod_other :
      (o : KubeObject) (l : Attributes)
      → ((pod_uid_key == j) ≡ false) ⊎ ((v : Value) × (get_attribute pod_uid_key l ≡ some v))
      → get_attribute j (put_pod o l) ≡ get_attribute j l
  unfolding put_pod
  put_pod_other o l h =
      let with_node = put_str node_name_key o.node_name l in
      let with_uid = put_pod_uid (get_attribute pod_uid_key with_node) o.meta.uid with_node in
      cc (
        put_other namespace_name_key j o.meta.namespace (put_str pod_name_key o.meta.name with_uid)
            free.namespace_name,
        put_other pod_name_key j o.meta.name with_uid free.pod_name,
        put_pod_uid_other (get_attribute pod_uid_key with_node) o.meta.uid with_node refl
            (uid_kept o.node_name l h),
        put_other node_name_key j o.node_name l free.node_name,
      )

  put_namespace_other :
      (n : Option Namespace) (l : Attributes)
      → get_attribute j (put_namespace n l) ≡ get_attribute j l
  put_namespace_other none l = refl
  put_namespace_other (some n) l = put_other namespace_uid_key j n.uid l free.namespace_uid

  put_deployment_other :
      (o : Fallible (Option KubeObject)) (l : Attributes)
      → get_attribute j (put_upper_owner deployment o l) ≡ get_attribute j l
  unfolding put_upper_owner
  put_deployment_other (inl e) l = refl
  put_deployment_other (inr none) l = refl
  put_deployment_other (inr (some o)) l = of_kind o.kind
    where
      of_kind :
          (k : Kind)
          → get_attribute j
              (elim k as (λ _. Attributes) [ deployment ↦ put_owner deployment o l | _ ↦ l ])
            ≡ get_attribute j l
      of_kind deployment = put_owner_other deployment j o l free.owners.1.0
      of_kind pod = refl
      of_kind daemon_set = refl
      of_kind replica_set = refl
      of_kind stateful_set = refl
      of_kind cron_job = refl
      of_kind job = refl

  put_cron_job_other :
      (o : Fallible (Option KubeObject)) (l : Attributes)
      → get_attribute j (put_upper_owner cron_job o l) ≡ get_attribute j l
  unfolding put_upper_owner
  put_cron_job_other (inl e) l = refl
  put_cron_job_other (inr none) l = refl
  put_cron_job_other (inr (some o)) l = of_kind o.kind
    where
      of_kind :
          (k : Kind)
          → get_attribute j
              (elim k as (λ _. Attributes) [ cron_job ↦ put_owner cron_job o l | _ ↦ l ])
            ≡ get_attribute j l
      of_kind cron_job = put_owner_other cron_job j o l free.owners.1.1.1.1.0
      of_kind pod = refl
      of_kind daemon_set = refl
      of_kind replica_set = refl
      of_kind stateful_set = refl
      of_kind deployment = refl
      of_kind job = refl

  module _ (libs : Libraries) {W : Type 0} (cluster : Cluster W) where
    add_owner_other :
        (kind : Kind) (o : KubeObject) (l : Attributes) (s : W × KubeClient libs)
        → get_attribute j (add_owner libs cluster kind o l s).1 ≡ get_attribute j l
    add_owner_other daemon_set o l s = put_owner_other daemon_set j o l free.owners.0
    add_owner_other stateful_set o l s = put_owner_other stateful_set j o l free.owners.1.1.1.0
    add_owner_other replica_set o l s = cc (
      put_deployment_other (resolve_relevant_owner_reference libs cluster (typed o) s).1
          (put_owner replica_set o l),
      put_owner_other replica_set j o l free.owners.1.1.0,
    )
    add_owner_other job o l s = cc (
      put_cron_job_other (resolve_relevant_owner_reference libs cluster (typed o) s).1
          (put_owner job o l),
      put_owner_other job j o l free.owners.1.1.1.1.1,
    )
    add_owner_other pod o l s = refl
    add_owner_other deployment o l s = refl
    add_owner_other cron_job o l s = refl

    add_found_owner_other :
        (l : Attributes) (o : Lookup libs cluster KubeObject)
        → get_attribute j (add_found_owner libs cluster l o).1 ≡ get_attribute j l
    add_found_owner_other l (s, inl e) = refl
    add_found_owner_other l (s, inr none) = refl
    add_found_owner_other l (s, inr (some o)) = add_owner_other o.kind o l s

    after_namespace_other :
        (o : KubeObject) (l : Attributes) (r : (W × KubeClient libs) × Option Namespace)
        → get_attribute j (after_namespace libs cluster o l r).1 ≡ get_attribute j l
    after_namespace_other o l (s, n) = cc (
      add_found_owner_other (put_namespace n l)
          (resolve_relevant_owner_reference libs cluster (typed o) s),
      put_namespace_other n l,
    )

    add_pod_other :
        (l : Attributes) (r : (W × KubeClient libs) × Option KubeObject)
        → ((pod_uid_key == j) ≡ false) ⊎ ((v : Value) × (get_attribute pod_uid_key l ≡ some v))
        → get_attribute j (add_pod libs cluster l r).1 ≡ get_attribute j l
    add_pod_other l (s, none) h = refl
    add_pod_other l (s, some o) h = cc (
      after_namespace_other o (put_pod o l) (get_namespace_by_name libs cluster o.meta.namespace s),
      put_pod_other o l h,
    )

-- Attributes after the enrichment, against those before.
pub record IsEnriched (provider_id cluster_uid : String) (before after : Attributes) : Type 0 where
  pub provider : get_attribute provider_id_key after ≡ some (str provider_id)
  pub cluster_id : get_attribute cluster_uid_key after ≡ some (str cluster_uid)
  pub pod_uid :
      (v : Value)
      → get_attribute pod_uid_key before ≡ some v
      → get_attribute pod_uid_key after ≡ some v
  pub others :
      (j : String)
      → is_foreign j (provider_id_key ∷ cluster_uid_key ∷ pod_uid_key ∷ written_keys) ≡ true
      → get_attribute j after ≡ get_attribute j before

foreign_parts :
    (j : String)
    → is_foreign j (provider_id_key ∷ cluster_uid_key ∷ pod_uid_key ∷ written_keys) ≡ true
    → ((provider_id_key == j) ≡ false)
      × (((cluster_uid_key == j) ≡ false)
          × (((pod_uid_key == j) ≡ false) × (is_foreign j written_keys ≡ true)))
unfolding is_foreign
foreign_parts j h =
    let (a, rest) = not_and (provider_id_key == j) _ h in
    let (b, rest') = not_and (cluster_uid_key == j) _ rest in
    (a, (b, not_and (pod_uid_key == j) _ rest'))

module _ (libs : Libraries) {W : Type 0} (cluster : Cluster W) (cluster_uid : String)
    (addr : Option Addr) (l : Attributes) (w : W) (c : KubeClient libs) where
  abbrev with_provider : Attributes
  with_provider = put_str provider_id_key c.provider_id l

  abbrev with_cluster : Attributes
  with_cluster = put_str cluster_uid_key cluster_uid with_provider

  -- a spared attribute is as the cluster attributes leave it
  spared_kept :
      (j : String)
      → is_foreign j written_keys ≡ true
      → ((pod_uid_key == j) ≡ false)
        ⊎ ((v : Value) × (get_attribute pod_uid_key with_cluster ≡ some v))
      → get_attribute j (add_resource_attributes libs cluster cluster_uid addr l (w, c)).1
        ≡ get_attribute j with_cluster
  unfolding add_resource_attributes add_resource_cluster_attributes
  spared_kept j h u =
      add_pod_other j (spared j h) libs cluster with_cluster
        (find_pod libs cluster addr with_cluster (w, c)) u

  -- Whatever the cluster answers: the attributes of a resource have the provider id and the uid of the
  -- cluster afterwards, a pod uid that was there is not replaced, and an attribute whose key is none of
  -- the enricher's is as before, or as absent.
  pub add_resource_attributes-IsEnriched :
      IsEnriched c.provider_id cluster_uid l
        (add_resource_attributes libs cluster cluster_uid addr l (w, c)).1
  unfolding is_foreign
  add_resource_attributes-IsEnriched = record {
    provider = cc (
      spared_kept provider_id_key refl (inl refl),
      put_other cluster_uid_key provider_id_key cluster_uid with_provider refl,
      get_attribute-put_attribute provider_id_key provider_id_key (str c.provider_id) l,
    );
    cluster_id = cc (
      spared_kept cluster_uid_key refl (inl refl),
      get_attribute-put_attribute cluster_uid_key cluster_uid_key (str cluster_uid) with_provider,
    );
    pod_uid = λ v h.
        let kept : get_attribute pod_uid_key with_cluster ≡ some v = cc (
          h,
          put_other cluster_uid_key pod_uid_key cluster_uid with_provider refl,
          put_other provider_id_key pod_uid_key c.provider_id l refl,
        ) in
        cc (spared_kept pod_uid_key refl (inr (v, kept)), kept);
    others = λ j h.
        let (a, bcd) = foreign_parts j h in
        let (b, cd) = bcd in
        cc (
          spared_kept j cd.1 (inl cd.0),
          put_other cluster_uid_key j cluster_uid with_provider b,
          put_other provider_id_key j c.provider_id l a,
        );
  }
