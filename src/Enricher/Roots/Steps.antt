-- ===== src/Enricher/Roots/Steps.antt =====
-- One step of GetRootOwnerReference: getFirstRelevantOwnerReferenceAsObjectReference.
use lumigo_kubernetes_operat.Prelude.{
  String, Option, none, some, ◌≡◌, Error, Fallible, inl, inr, refl,
}
use lumigo_kubernetes_operat.Enricher.Objects.{
  Kind, KubeObject, OwnerReference, ObjectReference, kind_of_gvk,
}
use lumigo_kubernetes_operat.Enricher.External.{Libraries, Cluster, IsCache}
use lumigo_kubernetes_operat.Enricher.Client.{KubeClient, Lookup, lookup_object}
use lumigo_kubernetes_operat.Enricher.Owners.{
  gvk_of_reference, get_first_relevant_owner_reference, owner_references_of, resolve_owners_of_kind,
  resolve_owner_references, first_reference, as_object_reference,
  get_first_relevant_owner_reference_as_object_reference,
}
use lumigo_kubernetes_operat.Enricher.Keys.{IsName}
use lumigo_kubernetes_operat.Enricher.Faithful.{IsFaithful, IsAnswer, IsHonest}
use lumigo_kubernetes_operat.Enricher.Faithful.Lookups.{
  IsLookedUp, IsLookup, from_cache, from_cluster, absent, erred, lookup_object-IsLookup,
}
use lumigo_kubernetes_operat.Enricher.Faithful.Keeping.{get_kind-lookup_object}
use lumigo_kubernetes_operat.Enricher.Roots.{
  IsOwnerStep, owned, IsRoot, unowned, gone, IsLost, unsupported, unanswered,
}

abbrev pub IsNamed : ObjectReference → Type 0
IsNamed r = IsName r.name × IsName r.namespace

module _ (libs : Libraries) {W : Type 0} (cluster : Cluster W) (Seen : KubeObject → Type 0) where
  -- How one step from a reference ends: at the owner, at a root, or with an error.
  pub data IsStep (r : ObjectReference) : Fallible (Option ObjectReference) → Type 0 where
    steps : {s : ObjectReference} → IsOwnerStep libs Seen r s → IsStep r (inr (some s))
    stops : IsRoot libs Seen cluster r → IsStep r (inr none)
    fails : {e : Error} → IsLost libs Seen cluster r → IsStep r (inl e)

  owners-looked_up :
      (kind : Kind) (name namespace : String) (o : KubeObject)
      (a : IsLookedUp Seen kind name namespace o)
      → o.meta.owner_references ≡ a.origin.meta.owner_references
  owners-looked_up kind name namespace o a = elim a.as_seen [
    | inl e ↦ rw e refl
    | inr e ↦ rw e refl
  ]

  IsStep-owner :
      (r : ObjectReference) (kind : Kind) (s : W × KubeClient libs) (o : KubeObject)
      (first : Option OwnerReference)
      → kind_of_gvk (gvk_of_reference libs r) ≡ some kind
      → IsAnswer Seen kind r.name r.namespace o
      → get_first_relevant_owner_reference libs o.meta.owner_references ≡ first
      → IsStep r (inr (as_object_reference libs cluster r.namespace first))
  IsStep-owner r kind s o none k a h = stops (unowned k a h)
  IsStep-owner r kind s o (some owner) k a h = steps (owned k a h)

  IsStep-first_owner :
      (r : ObjectReference) (kind : Kind) (s : W × KubeClient libs) (o : KubeObject)
      → kind_of_gvk (gvk_of_reference libs r) ≡ some kind
      → IsAnswer Seen kind r.name r.namespace o
      → IsStep r (first_reference libs cluster r.namespace (s, inr o.meta.owner_references)).1
  IsStep-first_owner r kind s o k a =
      IsStep-owner r kind s o (get_first_relevant_owner_reference libs o.meta.owner_references) k a
        refl

  IsStep-looked_up :
      (r : ObjectReference) (kind : Kind) (s : W × KubeClient libs) (o : KubeObject)
      → kind_of_gvk (gvk_of_reference libs r) ≡ some kind
      → IsLookedUp Seen kind r.name r.namespace o
      → IsStep r (first_reference libs cluster r.namespace (s, inr o.meta.owner_references)).1
  IsStep-looked_up r kind s o k a =
      rw (owners-looked_up kind r.name r.namespace o a)
        (IsStep-first_owner r kind s a.origin k a.answer)

  -- the state that a step leaves is faithful, and it ends in one of the three ways
  abbrev pub StepSound : ObjectReference → Lookup libs cluster ObjectReference → Type 0
  StepSound r l = IsFaithful libs Seen l.0.1 × IsStep r l.1

  StepSound-lookup :
      (r : ObjectReference) (kind : Kind) (l : Lookup libs cluster KubeObject)
      → kind_of_gvk (gvk_of_reference libs r) ≡ some kind
      → IsFaithful libs Seen l.0.1
      → IsLookup Seen cluster kind r.name r.namespace "" l.1
      → StepSound r (first_reference libs cluster r.namespace (owner_references_of libs cluster l))
  unfolding get_first_relevant_owner_reference
  StepSound-lookup r kind (s, inl e) k f (erred h) = (f, fails (unanswered k h))
  StepSound-lookup r kind (s, inr none) k f (absent h) = (f, stops (gone k h))
  StepSound-lookup r kind (s, inr (some o)) k f (from_cache a v) =
      (f, IsStep-looked_up r kind s o k a)
  StepSound-lookup r kind (s, inr (some o)) k f (from_cluster h a) =
      (f, IsStep-looked_up r kind s o k a)

  module _ (is_cache : IsCache libs) (honest : IsHonest Seen cluster) where
    StepSound-of_kind :
        (r : ObjectReference) (kind : Option Kind) (s : W × KubeClient libs)
        → kind_of_gvk (gvk_of_reference libs r) ≡ kind
        → IsNamed r
        → IsFaithful libs Seen s.1
        → StepSound r (
            first_reference libs cluster r.namespace (
              resolve_owners_of_kind libs cluster
                (gvk_of_reference libs r)
                kind
                r.name
                r.namespace
                s))
    StepSound-of_kind r none s k n f = (f, fails (unsupported k))
    StepSound-of_kind r (some kind) (w, c) k n f =
        let (f', l) =
          lookup_object-IsLookup libs cluster Seen is_cache honest kind r.name r.namespace "" n w c
            f in
        rw (get_kind-lookup_object cluster kind r.name r.namespace "" (w, c)) (
          StepSound-lookup r kind (lookup_object libs cluster kind r.name r.namespace "" (w, c)) k
            f' l)

    pub StepSound-step :
        (r : ObjectReference) (s : W × KubeClient libs)
        → IsNamed r
        → IsFaithful libs Seen s.1
        → StepSound r (get_first_relevant_owner_reference_as_object_reference libs cluster r s)
    unfolding get_first_relevant_owner_reference_as_object_reference resolve_owner_references
    StepSound-step r s n f = StepSound-of_kind r (kind_of_gvk (gvk_of_reference libs r)) s refl n f
