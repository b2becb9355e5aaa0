-- ===== src/Enricher/Caches.antt =====
-- The caches of objects: lruWithIndexer of internal/kube.go, metadataToCacheKeys, and the keys that
-- lookups make.
use Prim.Native.String.{◌++◌ as ◌⧺◌}
use lumigo_kubernetes_operat.Prelude.{
  String, Bool, true, false, List, [], ◌∷◌, ◌++◌, ◌==◌, if◌then◌else◌, Fallible, inl, inr, errorf,
}
use lumigo_kubernetes_operat.Enricher.Objects.{
  Kind, pod, daemon_set, deployment, replica_set, stateful_set, cron_job, job, KubeObject,
  ObjectMeta, compact,
}
use lumigo_kubernetes_operat.Enricher.External.{Libraries}

-- `fmt.Sprintf("%s/%s", namespace, name)`
abbrev pub object_key : String → String → String
object_key namespace name = namespace ⧺ ("/" ⧺ name)

-- `fmt.Sprintf("%s/%s@%s", namespace, name, resourceVersion)`
abbrev pub resource_version_key : String → String → String → String
resource_version_key namespace name resource_version =
    namespace ⧺ ("/" ⧺ (name ⧺ ("@" ⧺ resource_version)))

unfoldable pub metadata_to_cache_keys : ObjectMeta → String × String
metadata_to_cache_keys m =
    (resource_version_key m.namespace m.name m.resource_version, object_key m.namespace m.name)

-- The `cacheKey` of a lookup.
unfoldable pub cache_key : String → String → String → String
cache_key name namespace resource_version =
    if resource_version == ""
    then object_key namespace name
    else resource_version_key namespace name resource_version

-- What the informers hand over: an object of one of the seven types, or of another.
pub data Untyped : Type 0 where
  typed : KubeObject → Untyped
  untyped : String → Untyped

abbrev pub is_kind : Kind → Kind → Bool
is_kind pod pod = true
is_kind daemon_set daemon_set = true
is_kind deployment deployment = true
is_kind replica_set replica_set = true
is_kind stateful_set stateful_set = true
is_kind cron_job cron_job = true
is_kind job job = true
is_kind _ _ = false

unfoldable pub wrong_type : {A : Type 0} → String → Fallible A
wrong_type type_string =
    inl (errorf "the received object is not of the right type: " (type_string ∷ []))

-- The assertion `object.(*V)`, or the error of a cache that it does not fit.
unfoldable pub assert_kind : Libraries → Kind → Untyped → Fallible KubeObject
unfolding wrong_type
assert_kind libs kind (untyped type_string) = wrong_type type_string
assert_kind libs kind (typed o) =
    if is_kind o.kind kind then inr o else wrong_type (libs.type_string o.kind)

module _ (libs : Libraries) where
  -- A cache, and the objects that were sent downstream by goroutines of their own and not yet taken
  -- there, in the order in which the sends were started.
  abbrev pub Sending : Type 0
  Sending = libs.Cache × List KubeObject

  unfoldable pub add_new : KubeObject → Sending → Sending
  unfolding metadata_to_cache_keys
  add_new o (cache, sent) =
      let (version_key, key) = metadata_to_cache_keys o.meta in
      (libs.add version_key (compact o) (libs.add key (compact o) cache), sent ++ (o ∷ []))

  -- `Add`, which answers whether the object's resource version is new.
  unfoldable pub add_object : KubeObject → Sending → Sending × Bool
  unfolding metadata_to_cache_keys
  add_object o (cache, sent) =
      if libs.contains cache (metadata_to_cache_keys o.meta).0
      then ((cache, sent), false)
      else (add_new o (cache, sent), true)

  abbrev pub added : Sending → Fallible KubeObject → Sending × Fallible Bool
  added s (inl e) = (s, inl e)
  added s (inr o) = let (s', is_new) = add_object o s in (s', inr is_new)

  unfoldable pub add_untyped : Kind → Untyped → Sending → Sending × Fallible Bool
  add_untyped kind u s = added s (assert_kind libs kind u)
