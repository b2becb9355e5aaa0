-- ===== src/Examples/Honesty.antt =====
-- The small cluster and the caches of Enriched behave as the theorems ask for.
use mathlib.Core.List.{Memᴰ}
use lumigo_kubernetes_operat.Prelude.{
  ℕ, ◌<◌, String, true, Option, none, some, List, [], ◌∷◌, ◌≡◌, ◌⊎◌, refl, inl, inr, ◌==◌, ◌&&◌,
  eq_iff, if◌then◌else◌, arith, Bool-cases, sym,
}
use lumigo_kubernetes_operat.K8s.{found}
use lumigo_kubernetes_operat.Enricher.Objects.{
  Kind, pod, daemon_set, deployment, replica_set, stateful_set, cron_job, job, OwnerReference,
  KubeObject, ObjectReference, kind_of_gvk, is_gvk_relevant,
}
use lumigo_kubernetes_operat.Enricher.External.{IsCache}
use lumigo_kubernetes_operat.Enricher.Client.{cache_of}
use lumigo_kubernetes_operat.Enricher.Owners.{
  gvk_of_reference, get_first_relevant_owner_reference, reference_to_owner,
}
use lumigo_kubernetes_operat.Enricher.Keys.{IsName, lacks}
use lumigo_kubernetes_operat.Enricher.Faithful.{
  IsFaithful, IsPodEntry, IsFaithfulCache, IsAnswer, IsHonest,
}
use lumigo_kubernetes_operat.Enricher.Roots.{IsOwnerStep, owned, IsAcyclic}
use lumigo_kubernetes_operat.Enricher.Processing.LogRecords.{IsLogged}
use lumigo_kubernetes_operat.Examples.Enriched.{
  Entries, find_object, replica_set_owner, deployment_owner, web_pod, web_replica_set,
  web_deployment, pod_reference, libs, Counters, missing, cluster, client,
}

not_in_nil : (o : KubeObject) → ¬ Memᴰ o []
not_in_nil o = elim [ ]

pub data IsThere : KubeObject → Type 0 where
  pod_there : IsThere web_pod
  replica_set_there : IsThere web_replica_set
  deployment_there : IsThere web_deployment

find_added :
    (k j : String) (v w : KubeObject) (c : Entries)
    → find_object k ((j, v) ∷ c) ≡ some w
    → ((k ≡ j) × (w ≡ v)) ⊎ (find_object k c ≡ some w)
find_added k j v w c h = elim (Bool-cases (j == k)) [
  | inl e ↦ inl (sym ((eq_iff j k).0 e), cc (h, e))
  | inr e ↦ inr (cc (h, e))
]

new_entries :
    (size : ℕ) (k : String) (c : Entries) → libs.new_cache size ≡ inr c → find_object k c ≡ none
new_entries size k c h = let same : c ≡ [] = cc h in rw same refl

pub libs-IsCache : IsCache libs
libs-IsCache = record { new_is_empty = new_entries; get-add = find_added; get-get = λ k j w c h. h }

two_tests : (s t u v : String) → (s == t && u == v) ≡ true → (s ≡ t) × (u ≡ v)
two_tests s t u v h = ground (arith, eq_iff s t, eq_iff u v)

answers_if :
    (kind : Kind) (o : KubeObject) (name namespace n ns : String) (p : KubeObject)
    → IsThere o
    → o.kind ≡ kind
    → o.meta.name ≡ n
    → o.meta.namespace ≡ ns
    → (if name == n && namespace == ns then found o else missing) ≡ found p
    → IsAnswer IsThere kind name namespace p
answers_if kind o name namespace n ns p there k e f h =
    elim (Bool-cases (name == n && namespace == ns)) [
      | inl t ↦
          let (same_name, same_namespace) = two_tests name n namespace ns t in
          let same : p ≡ o = cc (h, t) in
          rw same (record {
            seen = there;
            of_kind = k;
            of_name = cc (e, same_name);
            of_namespace = cc (f, same_namespace);
          })
      | inr t ↦ absurd (cc (h, t))
    ]

answers_there :
    (kind : Kind) (name namespace rv : String) (w : Counters) (o : KubeObject)
    → (cluster.get_object kind name namespace rv w).1 ≡ found o
    → IsAnswer IsThere kind name namespace o
answers_there pod name namespace rv w o h =
    answers_if pod web_pod name namespace "web-1-x" "shop" o pod_there refl refl refl h
answers_there replica_set name namespace rv w o h =
    answers_if replica_set web_replica_set name namespace "web-1" "shop" o replica_set_there refl
      refl refl h
answers_there deployment name namespace rv w o h =
    answers_if deployment web_deployment name namespace "web" "shop" o deployment_there refl refl
      refl h
answers_there daemon_set name namespace rv w o h = absurd (cc h)
answers_there stateful_set name namespace rv w o h = absurd (cc h)
answers_there cron_job name namespace rv w o h = absurd (cc h)
answers_there job name namespace rv w o h = absurd (cc h)

named_there : (o : KubeObject) → IsThere o → IsName o.meta.name × IsName o.meta.namespace
unfolding IsName lacks
named_there _ pod_there = ((refl, refl), (refl, refl))
named_there _ replica_set_there = ((refl, refl), (refl, refl))
named_there _ deployment_there = ((refl, refl), (refl, refl))

listed_there :
    (selector : String) (w : Counters) (o : KubeObject) (rest : List KubeObject)
    → (cluster.list_pods selector w).1 ≡ found (o ∷ rest)
    → IsThere o × (o.kind ≡ pod)
listed_there selector w o rest h = let same : o ≡ web_pod = cc h in rw same (pod_there, refl)

pub cluster-IsHonest : IsHonest IsThere cluster
cluster-IsHonest = record { answers = answers_there; listed = listed_there; named = named_there }

pub pod_reference_named : IsName pod_reference.name × IsName pod_reference.namespace
unfolding IsName lacks
pod_reference_named = ((refl, refl), (refl, refl))

pub web_1_named : IsName "web-1" × IsName "shop"
unfolding IsName lacks
web_1_named = ((refl, refl), (refl, refl))

web_named : IsName "web"
unfolding IsName lacks
web_named = (refl, refl)

abbrev rank_of_kind : Option Kind → ℕ
rank_of_kind (some pod) = 3
rank_of_kind (some replica_set) = 2
rank_of_kind (some deployment) = 1
rank_of_kind _ = 0

abbrev pub rank : ObjectReference → ℕ
rank r = rank_of_kind (kind_of_gvk (gvk_of_reference libs r))

owner_named :
    (o : KubeObject) (owner : OwnerReference)
    → IsThere o
    → get_first_relevant_owner_reference libs o.meta.owner_references ≡ some owner
    → IsName owner.name
unfolding get_first_relevant_owner_reference is_gvk_relevant
owner_named _ owner pod_there h =
    let same : owner ≡ replica_set_owner = cc h in rw same web_1_named.0
owner_named _ owner replica_set_there h =
    let same : owner ≡ deployment_owner = cc h in rw same web_named
owner_named _ owner deployment_there h = absurd (cc h)

step_descends :
    (r : ObjectReference) (kind : Kind) (o : KubeObject) (owner : OwnerReference)
    → kind_of_gvk (gvk_of_reference libs r) ≡ some kind
    → IsThere o
    → o.kind ≡ kind
    → get_first_relevant_owner_reference libs o.meta.owner_references ≡ some owner
    → rank (reference_to_owner libs r.namespace owner) < rank r
unfolding get_first_relevant_owner_reference is_gvk_relevant kind_of_gvk
step_descends r kind _ owner k pod_there e h =
    let same : owner ≡ replica_set_owner = cc h in rw (same, k, ← e) (omega arith)
step_descends r kind _ owner k replica_set_there e h =
    let same : owner ≡ deployment_owner = cc h in rw (same, k, ← e) (omega arith)
step_descends r kind _ owner k deployment_there e h = absurd (cc h)

descends : (r s : ObjectReference) → IsOwnerStep libs IsThere r s → rank s < rank r
descends r _ (owned {kind = kind} {o = o} {owner = owner} k a h) =
    step_descends r kind o owner k a.seen a.of_kind h

pub rank-IsAcyclic : IsAcyclic libs IsThere rank
rank-IsAcyclic = record { descends = descends; named_owners = owner_named }

rank_of_kind-bounded : (k : Option Kind) → rank_of_kind k < 4
rank_of_kind-bounded k = ground arith

pub rank-bounded : (r : ObjectReference) → rank r < 4
rank-bounded r = rank_of_kind-bounded (kind_of_gvk (gvk_of_reference libs r))

pub libs-IsLogged : IsLogged libs IsThere
libs-IsLogged = record {
  parsed = λ kind body o h. absurd (cc h);
  involved = λ body r h. let same : r ≡ pod_reference = cc h in rw same pod_reference_named;
  remaining = λ sent o m. absurd (not_in_nil o m);
}

nothing_cached : (kind : Kind) → IsFaithfulCache libs IsThere kind (cache_of libs kind client)
unfolding IsFaithfulCache
nothing_cached pod key e h = absurd (cc h)
nothing_cached daemon_set key e h = absurd (cc h)
nothing_cached deployment key e h = absurd (cc h)
nothing_cached replica_set key e h = absurd (cc h)
nothing_cached stateful_set key e h = absurd (cc h)
nothing_cached cron_job key e h = absurd (cc h)
nothing_cached job key e h = absurd (cc h)

pods_there :
    (uid : String) (o : KubeObject)
    → find_object uid (("p1", web_pod) ∷ []) ≡ some o
    → IsPodEntry IsThere uid o
pods_there uid o h = elim (Bool-cases ("p1" == uid)) [
  | inl t ↦
      let same : o ≡ web_pod = cc (h, t) in
      rw same (record { seen = pod_there; of_kind = refl; of_uid = (eq_iff "p1" uid).0 t })
  | inr t ↦ absurd (cc (h, t))
]

pub client-IsFaithful : IsFaithful libs IsThere client
client-IsFaithful = record {
  caches = nothing_cached;
  pods = pods_there;
  sent = λ o m. absurd (not_in_nil o m);
}
