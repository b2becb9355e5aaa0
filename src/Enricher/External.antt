-- ===== src/Enricher/External.antt =====
-- What the enricher calls outside of the repository: the LRU cache of hashicorp/golang-lru, the store
-- of a shared informer and the conversions of k8s.io (`Libraries`), and the cluster (`Cluster`), which
-- acts on a world `W`. `Get` of a cache marks the entry as used, so it returns the cache too.
use lumigo_kubernetes_operat.Prelude.{
  ℕ, String, Bool, Option, none, some, List, ◌≡◌, ◌⊎◌, Fallible, inr, Error,
}
use lumigo_kubernetes_operat.K8s.{ApiResult}
use lumigo_kubernetes_operat.Enricher.Objects.{
  GroupVersionKind, Kind, KubeObject, Namespace, ObjectReference, OwnerReference,
}
use lumigo_kubernetes_operat.Enricher.Raw.{Fields}

-- What the store of the namespace informer answers: a namespace, or an object of another type.
pub data Stored : Type 0 where
  stored_namespace : Namespace → Stored
  stored_other : String → Stored

pub record Libraries : Type 1 where
  -- lru.Cache[string, V]
  pub Cache : Type 0
  pub contains : Cache → String → Bool
  pub add : String → KubeObject → Cache → Cache
  pub get : String → Cache → Cache × Option KubeObject
  -- lru.New with a number of entries
  pub new_cache : ℕ → Fallible Cache
  -- cache.Store
  pub Store : Type 0
  pub empty_store : Store
  pub get_by_key : String → Store → Fallible (Option Stored)
  pub store_add : Namespace → Store → Store × Option Error
  -- schema.FromAPIVersionAndKind and its inverse
  pub from_api_version_and_kind : String → String → GroupVersionKind
  pub to_api_version_and_kind : GroupVersionKind → String × String
  -- `String()` of a GroupVersionKind
  pub gvk_string : GroupVersionKind → String
  -- `reflect.TypeOf(object).String()` of a pointer to an object of the kind
  pub type_string : Kind → String
  -- `%v` of references
  pub format_owner_reference : OwnerReference → String
  pub format_object_reference : ObjectReference → String
  -- strings.ToLower
  pub to_lower : String → String
  -- errors.NewNotFound of a group, a resource and a name
  pub new_not_found : String → String → String → Error
  -- `GroupVersionKind()` of an unstructured object, and the unstructured converter: from the fields
  -- of an object of a kind, of a namespace and of an event, whose involved object alone is looked at
  pub unstructured_gvk : Fields → GroupVersionKind
  pub object_from_unstructured : Kind → Fields → Fallible KubeObject
  pub namespace_from_unstructured : Fields → Fallible Namespace
  pub involved_object_from_unstructured : Fields → Fallible ObjectReference
  pub object_to_unstructured : KubeObject → Fallible Fields
  pub reference_to_unstructured : ObjectReference → Fallible Fields
  -- net.ParseIP, then String()
  pub parse_ip : String → Option String
  -- receiving from the channel of new objects until it is empty: of the objects whose sends were
  -- started, those that are received, and those that are not yet on the channel
  pub receive : List KubeObject → List KubeObject × List KubeObject

-- The documented behaviour of the cache: a new one answers
-- nothing; it answers an entry as it was last added under its key, or
-- has evicted it; a lookup changes no entry.
pub record IsCache (libs : Libraries) : Type 0 where
  pub new_is_empty :
      (size : ℕ) (k : String) (c : libs.Cache)
      → libs.new_cache size ≡ inr c
      → (libs.get k c).1 ≡ none
  pub get-add :
      (k j : String) (v w : KubeObject) (c : libs.Cache)
      → (libs.get k (libs.add j v c)).1 ≡ some w
      → ((k ≡ j) × (w ≡ v)) ⊎ ((libs.get k c).1 ≡ some w)
  pub get-get :
      (k j : String) (w : KubeObject) (c : libs.Cache)
      → (libs.get k (libs.get j c).0).1 ≡ some w
      → (libs.get k c).1 ≡ some w

pub record Cluster (W : Type 0) : Type 0 where
  -- `Get` of a kind with a name, a namespace and a resource version
  pub get_object : Kind → String → String → String → W → W × ApiResult KubeObject
  pub get_namespace : String → W → W × ApiResult Namespace
  -- `Pods("").List` with a field selector
  pub list_pods : String → W → W × ApiResult (List KubeObject)
  -- `Nodes().Get`: the ProviderID of the node
  pub get_provider_id : String → W → W × ApiResult String
  -- `os.LookupEnv`
  pub lookup_env : String → Option String
  -- `AddEventHandler` of the informer of a kind of objects
  pub add_event_handler : String → W → W × Option Error
  -- `time.Sleep` for a number of nanoseconds
  pub sleep : ℕ → W → W
