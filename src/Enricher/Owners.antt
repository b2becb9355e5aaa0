-- ===== src/Enricher/Owners.antt =====
-- Owner references and their resolution in internal/kube.go:597-648 and 789-1040.
use Prim.Native.String.{◌++◌ as ◌⧺◌}
use lumigo_kubernetes_operat.Prelude.{
  ℕ, zero, suc, String, Option, none, some, List, [], ◌∷◌, Fallible, inl, inr, Error, errorf, wrapf,
  if◌then◌else◌,
}
use lumigo_kubernetes_operat.Enricher.Objects.{
  GroupVersionKind, Kind, KubeObject, ObjectMeta, OwnerReference, ObjectReference, is_gvk_relevant,
  kind_of_gvk,
}
use lumigo_kubernetes_operat.Enricher.Raw.{Fields}
use lumigo_kubernetes_operat.Enricher.External.{Libraries, Cluster}
use lumigo_kubernetes_operat.Enricher.Caches.{Untyped, typed, untyped}
use lumigo_kubernetes_operat.Enricher.Client.{KubeClient, Lookup, get_kind}

-- How the loop of GetRootOwnerReference ends; `walking` where the fuel is used up.
pub data Walked : Type 0 where
  rooted : ObjectReference → Walked
  lost : Error → Walked
  walking : ObjectReference → Walked

unfoldable pub runtime_object_to_object_meta : Untyped → Fallible ObjectMeta
runtime_object_to_object_meta (typed o) = inr o.meta
runtime_object_to_object_meta (untyped type_string) =
    inl (errorf "unsupported type to extract object meta: %s" (type_string ∷ []))

module _ (libs : Libraries) where
  unfoldable pub runtime_object_to_object_reference : Untyped → Fallible ObjectReference
  unfolding runtime_object_to_object_meta
  runtime_object_to_object_reference (untyped type_string) =
      inl (errorf "unsupported type to extract object meta: %s" (type_string ∷ []))
  runtime_object_to_object_reference (typed o) =
      let (api_version, kind) = libs.to_api_version_and_kind o.gvk in
      inr (record {
        api_version = api_version;
        kind = kind;
        name = o.meta.name;
        namespace = o.meta.namespace;
        uid = o.meta.uid;
        resource_version = o.meta.resource_version;
      })

  unfoldable pub gvk_to_group_resource : GroupVersionKind → String × String
  gvk_to_group_resource gvk = (gvk.group, libs.to_lower gvk.kind ⧺ "s")

  abbrev gvk_of_owner : OwnerReference → GroupVersionKind
  gvk_of_owner r = libs.from_api_version_and_kind r.api_version r.kind

  -- `GroupVersionKind()` of an object reference
  abbrev pub gvk_of_reference : ObjectReference → GroupVersionKind
  gvk_of_reference r = libs.from_api_version_and_kind r.api_version r.kind

  unfoldable pub get_first_relevant_owner_reference : List OwnerReference → Option OwnerReference
  get_first_relevant_owner_reference [] = none
  get_first_relevant_owner_reference (r ∷ rest) =
      let later = get_first_relevant_owner_reference rest in
      if is_gvk_relevant (gvk_of_owner r) then some r else later

  -- Owners are in the namespace of what they own.
  abbrev pub reference_to_owner : String → OwnerReference → ObjectReference
  reference_to_owner namespace r = record {
    api_version = r.api_version;
    kind = r.kind;
    name = r.name;
    namespace = namespace;
    uid = r.uid;
    resource_version = "";
  }

  module _ {W : Type 0} (cluster : Cluster W) where
    abbrev State : Type 0
    State = W × KubeClient libs

    abbrev pub resolve_kind : Option Kind → String → String → State → Lookup libs cluster KubeObject
    resolve_kind none name namespace s = (s, inr none)
    resolve_kind (some kind) name namespace s = get_kind libs cluster kind name namespace "" s

    unfoldable pub resolve_object :
        GroupVersionKind → String → String → State → Lookup libs cluster KubeObject
    resolve_object gvk name namespace s = resolve_kind (kind_of_gvk gvk) name namespace s

    abbrev pub owner_references_of :
        Lookup libs cluster KubeObject → State × Fallible (List OwnerReference)
    owner_references_of (s, inl e) = (s, inl e)
    owner_references_of (s, inr none) = (s, inr [])
    owner_references_of (s, inr (some o)) = (s, inr o.meta.owner_references)

    abbrev pub resolve_owners_of_kind :
        GroupVersionKind
        → Option Kind
        → String
        → String
        → State
        → State × Fallible (List OwnerReference)
    resolve_owners_of_kind gvk none name namespace s =
        (s, inl (errorf "unsupported GVK: %s" (libs.gvk_string gvk ∷ [])))
    resolve_owners_of_kind gvk (some kind) name namespace s =
        owner_references_of (get_kind libs cluster kind name namespace "" s)

    unfoldable pub resolve_owner_references :
        GroupVersionKind → String → String → State → State × Fallible (List OwnerReference)
    resolve_owner_references gvk name namespace s =
        resolve_owners_of_kind gvk (kind_of_gvk gvk) name namespace s

    abbrev pub as_object_reference : String → Option OwnerReference → Option ObjectReference
    as_object_reference namespace none = none
    as_object_reference namespace (some r) = some (reference_to_owner namespace r)

    abbrev pub first_reference :
        String → State × Fallible (List OwnerReference) → Lookup libs cluster ObjectReference
    first_reference namespace (s, inl e) = (s, inl e)
    first_reference namespace (s, inr owners) =
        (s, inr (as_object_reference namespace (get_first_relevant_owner_reference owners)))

    unfoldable pub get_first_relevant_owner_reference_as_object_reference :
        ObjectReference → State → Lookup libs cluster ObjectReference
    get_first_relevant_owner_reference_as_object_reference r s =
        first_reference r.namespace
          (resolve_owner_references (gvk_of_reference r) r.name r.namespace s)

    abbrev pub wrap_unresolved :
        OwnerReference → String → Lookup libs cluster KubeObject → Lookup libs cluster KubeObject
    wrap_unresolved r namespace (s, inr o) = (s, inr o)
    wrap_unresolved r namespace (s, inl e) = (
      s,
      inl (
          wrapf "cannot resolve owner reference %v in namespace %s; error: %w"
            (libs.format_owner_reference r ∷ namespace ∷ []) e),
    )

    abbrev pub resolve_first :
        String → Option OwnerReference → State → Lookup libs cluster KubeObject
    resolve_first namespace none s = (s, inr none)
    resolve_first namespace (some r) s =
        wrap_unresolved r namespace (resolve_object (gvk_of_owner r) r.name namespace s)

    abbrev resolve_owner_of :
        Fallible ObjectReference → Fallible ObjectMeta → State → Lookup libs cluster KubeObject
    resolve_owner_of (inl e) m s = (s, inl e)
    resolve_owner_of (inr r) (inl e) s = (s, inl e)
    resolve_owner_of (inr r) (inr m) s =
        resolve_first r.namespace (get_first_relevant_owner_reference m.owner_references) s

    unfoldable pub resolve_relevant_owner_reference :
        Untyped → State → Lookup libs cluster KubeObject
    resolve_relevant_owner_reference object s =
        resolve_owner_of (runtime_object_to_object_reference object)
          (runtime_object_to_object_meta object) s

    abbrev pub known :
        GroupVersionKind → String → Lookup libs cluster KubeObject → State × Option Error
    known gvk name (s, inl e) = (s, some e)
    known gvk name (s, inr (some o)) = (s, none)
    known gvk name (s, inr none) =
        let (group, resource) = gvk_to_group_resource gvk in
        (s, some (libs.new_not_found group resource name))

    abbrev pub ensure_of_kind : Option Kind → ObjectReference → State → State × Option Error
    ensure_of_kind none r s = (s, none)
    ensure_of_kind (some kind) r s =
        known (gvk_of_reference r) r.name
          (get_kind libs cluster kind r.name r.namespace r.resource_version s)

    unfoldable pub ensure_object_reference_is_known : ObjectReference → State → State × Option Error
    ensure_object_reference_is_known r s = ensure_of_kind (kind_of_gvk (gvk_of_reference r)) r s

    abbrev unresolved : ObjectReference → Error → Error
    unresolved r e =
        wrapf "cannot retrieve owner reference of object reference %v: %w"
          (libs.format_object_reference r ∷ []) e

    abbrev pub follow :
        (ObjectReference → State → State × Walked)
        → ObjectReference
        → Lookup libs cluster ObjectReference
        → State × Walked
    follow walk r (s, inl e) = (s, lost (unresolved r e))
    follow walk r (s, inr none) = (s, rooted r)
    follow walk r (s, inr (some owner)) = walk owner s

    -- the loop of GetRootOwnerReference, with at most as many iterations as the fuel says
    unfoldable pub walk_to_root : ℕ → ObjectReference → State → State × Walked
    walk_to_root zero r s = (s, walking r)
    walk_to_root (suc fuel) r s =
        follow (walk_to_root fuel) r (get_first_relevant_owner_reference_as_object_reference r s)

    -- What GetRootOwnerReference returns; `none` where the fuel is used up.
    abbrev pub root_fields : Walked → Option (Fallible Fields)
    root_fields (rooted r) = some (libs.reference_to_unstructured r)
    root_fields (lost e) = some (inl e)
    root_fields (walking r) = none

    unfoldable pub get_root_owner_reference :
        ℕ → ObjectReference → State → State × Option (Fallible Fields)
    get_root_owner_reference fuel involved_object s =
        let (s', o) = walk_to_root fuel involved_object s in (s', root_fields o)
