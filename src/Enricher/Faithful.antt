-- ===== src/Enricher/Faithful.antt =====
-- What the caches of the enricher may answer. `Seen` holds of every object that the cluster has ever
-- answered or reported.
pub mod Caches
pub mod Lookups
pub mod Keeping
pub mod Beginning
use lumigo_kubernetes_operat.Prelude.{String, ◌≡◌, ◌⊎◌, Option, some, List, ◌∷◌}
use mathlib.Core.List.{Memᴰ}
use lumigo_kubernetes_operat.K8s.{ApiResult, found, not_found, failed}
use lumigo_kubernetes_operat.Enricher.Objects.{Kind, KubeObject, compact, pod}
use lumigo_kubernetes_operat.Enricher.External.{Libraries, Cluster}
use lumigo_kubernetes_operat.Enricher.Caches.{object_key, resource_version_key}
use lumigo_kubernetes_operat.Enricher.Client.{KubeClient, cache_of}
use lumigo_kubernetes_operat.Enricher.Keys.{IsName}

-- An entry of the cache of a kind: an object that was seen, compacted, under one of its two keys.
pub record IsEntry (Seen : KubeObject → Type 0) (kind : Kind) (key : String) (e : KubeObject)
    : Type 0 where
  pub origin : KubeObject
  pub seen : Seen origin
  pub of_kind : origin.kind ≡ kind
  pub compacted : e ≡ compact origin
  pub under :
      (key ≡ object_key origin.meta.namespace origin.meta.name)
      ⊎ (key
          ≡ resource_version_key origin.meta.namespace origin.meta.name
              origin.meta.resource_version)

pub record IsPodEntry (Seen : KubeObject → Type 0) (uid : String) (o : KubeObject) : Type 0 where
  pub seen : Seen o
  pub of_kind : o.kind ≡ pod
  pub of_uid : o.meta.uid ≡ uid

module _ (libs : Libraries) (Seen : KubeObject → Type 0) where
  unfoldable pub IsFaithfulCache : Kind → libs.Cache → Type 0
  IsFaithfulCache kind cache =
      (key : String) (e : KubeObject) → (libs.get key cache).1 ≡ some e → IsEntry Seen kind key e

  -- Every answer of a cache, and everything that is sent downstream, was seen.
  pub record IsFaithful (c : KubeClient libs) : Type 0 where
    pub caches : (kind : Kind) → IsFaithfulCache kind (cache_of libs kind c)
    pub pods :
        (uid : String) (o : KubeObject)
        → (libs.get uid c.pod_uid_cache).1 ≡ some o
        → IsPodEntry Seen uid o
    pub sent : (o : KubeObject) → Memᴰ o c.object_resource_versions → Seen o

-- An object as the cluster may answer it to a call for a kind, a name and a namespace.
pub record IsAnswer (Seen : KubeObject → Type 0) (kind : Kind) (name namespace : String)
    (o : KubeObject) : Type 0 where
  pub seen : Seen o
  pub of_kind : o.kind ≡ kind
  pub of_name : o.meta.name ≡ name
  pub of_namespace : o.meta.namespace ≡ namespace

-- What the program relies on of the cluster: it answers the object it is asked for, it lists pods as
-- pods, and no name of an object has a character that the keys of the caches use.
pub record IsHonest {W : Type 0} (Seen : KubeObject → Type 0) (cluster : Cluster W) : Type 0 where
  pub answers :
      (kind : Kind) (name namespace resource_version : String) (w : W) (o : KubeObject)
      → (cluster.get_object kind name namespace resource_version w).1 ≡ found o
      → IsAnswer Seen kind name namespace o
  pub listed :
      (selector : String) (w : W) (o : KubeObject) (rest : List KubeObject)
      → (cluster.list_pods selector w).1 ≡ found (o ∷ rest)
      → Seen o × (o.kind ≡ pod)
  pub named : (o : KubeObject) → Seen o → IsName o.meta.name × IsName o.meta.namespace
