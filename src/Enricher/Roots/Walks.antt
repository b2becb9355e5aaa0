-- ===== src/Enricher/Roots/Walks.antt =====
-- GetRootOwnerReference ends, and with what.
use lumigo_kubernetes_operat.Prelude.{
  ℕ, zero, suc, ◌<◌, Option, none, some, arith, Error, Fallible, inl, inr,
}
use lumigo_kubernetes_operat.Enricher.Objects.{KubeObject, ObjectReference}
use lumigo_kubernetes_operat.Enricher.Raw.{Fields}
use lumigo_kubernetes_operat.Enricher.External.{Libraries, Cluster, IsCache}
use lumigo_kubernetes_operat.Enricher.Client.{KubeClient, Lookup}
use lumigo_kubernetes_operat.Enricher.Owners.{
  get_first_relevant_owner_reference_as_object_reference, Walked, rooted, lost, follow,
  walk_to_root, get_root_owner_reference, root_fields,
}
use lumigo_kubernetes_operat.Enricher.Keys.{IsName}
use lumigo_kubernetes_operat.Enricher.Faithful.{IsFaithful, IsHonest}
use lumigo_kubernetes_operat.Enricher.Roots.{
  IsOwnerStep, owned, IsOwnerChain, itself, onward, IsAcyclic, IsRoot, IsLost,
}
use lumigo_kubernetes_operat.Enricher.Roots.Steps.{
  IsNamed, steps, stops, fails, StepSound, StepSound-step,
}

module _ (libs : Libraries) {W : Type 0} (cluster : Cluster W) (Seen : KubeObject → Type 0) where
  -- How the walk ends; it does not end with its fuel used up.
  data IsWalk (r : ObjectReference) : Walked → Type 0 where
    at_root :
        {s : ObjectReference}
        → IsOwnerChain libs Seen r s
        → IsRoot libs Seen cluster s
        → IsWalk r (rooted s)
    at_error :
        {s : ObjectReference} {e : Error}
        → IsOwnerChain libs Seen r s
        → IsLost libs Seen cluster s
        → IsWalk r (lost e)

  -- What GetRootOwnerReference returns: the end of the chain, as the converter answers it, or an
  -- error.
  pub data IsRootAnswer (r : ObjectReference) : Option (Fallible Fields) → Type 0 where
    root_found :
        {s : ObjectReference}
        → IsOwnerChain libs Seen r s
        → IsRoot libs Seen cluster s
        → IsRootAnswer r (some (libs.reference_to_unstructured s))
    refused :
        {s : ObjectReference} {e : Error}
        → IsOwnerChain libs Seen r s
        → IsLost libs Seen cluster s
        → IsRootAnswer r (some (inl e))

  IsWalk-onward :
      (r s : ObjectReference) (o : Walked) → IsOwnerStep libs Seen r s → IsWalk s o → IsWalk r o
  IsWalk-onward r s _ step (at_root chain root) = at_root (onward step chain) root
  IsWalk-onward r s _ step (at_error chain stuck) = at_error (onward step chain) stuck

  module _ (is_cache : IsCache libs) (honest : IsHonest Seen cluster) where
    module _ (rank : ObjectReference → ℕ) (acyclic : IsAcyclic libs Seen rank) where
      IsNamed-owner : (r s : ObjectReference) → IsNamed r → IsOwnerStep libs Seen r s → IsNamed s
      IsNamed-owner r _ n (owned {o = o} {owner = owner} k a h) =
          (acyclic.named_owners o owner a.seen h, n.1)

      abbrev WalkSound : ObjectReference → (W × KubeClient libs) × Walked → Type 0
      WalkSound r o = IsFaithful libs Seen o.0.1 × IsWalk r o.1

      WalkSound-follow :
          (walk : ObjectReference → W × KubeClient libs → (W × KubeClient libs) × Walked) (fuel : ℕ)
          (r : ObjectReference) (l : Lookup libs cluster ObjectReference)
          → ((s : ObjectReference) (t : W × KubeClient libs)
              → rank s < fuel
              → IsNamed s
              → IsFaithful libs Seen t.1
              → WalkSound s (walk s t))
          → rank r < suc fuel
          → IsNamed r
          → StepSound libs cluster Seen r l
          → WalkSound r (follow libs cluster walk r l)
      WalkSound-follow walk fuel r (s, inl e) ih b n (f, fails h) = (f, at_error itself h)
      WalkSound-follow walk fuel r (s, inr none) ih b n (f, stops h) = (f, at_root itself h)
      WalkSound-follow walk fuel r (s, inr (some owner)) ih b n (f, steps h) =
          let (f', o) =
            ih owner s (omega (arith, acyclic.descends r owner h, b)) (IsNamed-owner r owner n h)
              f in
          (f', IsWalk-onward r owner (walk owner s).1 h o)

      walk_to_root-WalkSound :
          (fuel : ℕ) (r : ObjectReference) (s : W × KubeClient libs)
          → rank r < fuel
          → IsNamed r
          → IsFaithful libs Seen s.1
          → WalkSound r (walk_to_root libs cluster fuel r s)
      unfolding walk_to_root
      walk_to_root-WalkSound zero r s b n f = absurd (omega arith)
      walk_to_root-WalkSound (suc fuel) r s b n f =
          WalkSound-follow (walk_to_root libs cluster fuel) fuel r
            (get_first_relevant_owner_reference_as_object_reference libs cluster r s)
            (walk_to_root-WalkSound fuel) b n
            (StepSound-step libs cluster Seen is_cache honest r s n f)

      get_root-WalkSound :
          (fuel : ℕ) (r : ObjectReference) (t : (W × KubeClient libs) × Walked)
          → WalkSound r t
          → IsFaithful libs Seen t.0.1 × IsRootAnswer r (root_fields libs cluster t.1)
      get_root-WalkSound fuel r (s, _) (f, at_root chain root) = (f, root_found chain root)
      get_root-WalkSound fuel r (s, _) (f, at_error chain stuck) = (f, refused chain stuck)

      -- Where the ownership of the objects seen has no cycles, the cluster answers what it is asked for
      -- and the caches hold what was seen: with more fuel than the rank of the involved object, the
      -- search for its root owner ends. It answers the end of the chain of first relevant owners, which
      -- has none itself or is gone, or it fails at a reference of the chain that cannot be resolved.
      pub get_root_owner_reference-ends :
          (fuel : ℕ) (r : ObjectReference) (s : W × KubeClient libs)
          → rank r < fuel
          → IsName r.name × IsName r.namespace
          → IsFaithful libs Seen s.1
          → IsFaithful libs Seen (get_root_owner_reference libs cluster fuel r s).0.1
            × IsRootAnswer r (get_root_owner_reference libs cluster fuel r s).1
      unfolding get_root_owner_reference
      get_root_owner_reference-ends fuel r s b n f =
          get_root-WalkSound fuel r (walk_to_root libs cluster fuel r s)
            (walk_to_root-WalkSound fuel r s b n f)
