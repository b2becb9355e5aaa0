-- ===== src/Mutation/Guards.antt =====
-- When the mutation leaves an object alone, and when it fails (mutation/mutate.go:199-359).
use lumigo_kubernetes_operat.Prelude.{
  String, true, false, List, [], ◌∷◌, ◌≡◌, ◌↔◌, inl, inr, refl, arith, ◌==◌, ◌&&◌, eq_iff,
  Bool-cases, Outcome, ok, err, panicked, Error,
}
use lumigo_kubernetes_operat.K8s.{
  OwnerReference, Workload, WorkloadKind, replica_set, Resource, object, other_resource, Libs,
}
use lumigo_kubernetes_operat.Mutation.Mutator.{InjectingMutator}
use lumigo_kubernetes_operat.Mutation.Workloads.{
  has_deployment_owner_reference, inject_lumigo_into, inject_lumigo_into_template,
  inject_lumigo_into_replica_set, inject_lumigo_into_kind, inject_lumigo_into_resource,
  remove_lumigo_from_replica_set, remove_lumigo_from_kind, remove_lumigo_from_resource,
}

module _ (libs : Libs) (m : InjectingMutator) where
  inject_error_unchanged :
      (w : Workload) (e : Error)
      → (inject_lumigo_into libs m w).1 ≡ err e
      → (inject_lumigo_into libs m w).0 ≡ w
  unfolding inject_lumigo_into inject_lumigo_into_template
  inject_error_unchanged w e h = ground arith

  inject_replica_set_error_unchanged :
      (w : Workload) (e : Error)
      → (inject_lumigo_into_replica_set libs m w).1 ≡ err e
      → (inject_lumigo_into_replica_set libs m w).0 ≡ w
  unfolding inject_lumigo_into_replica_set
  inject_replica_set_error_unchanged w e h = ground (arith, inject_error_unchanged w e)

  inject_kind_error_unchanged :
      (kind : WorkloadKind) (w : Workload) (e : Error)
      → (inject_lumigo_into_kind libs m kind w).1 ≡ err e
      → (inject_lumigo_into_kind libs m kind w).0 ≡ w
  unfolding inject_lumigo_into_kind
  inject_kind_error_unchanged replica_set w e h = inject_replica_set_error_unchanged w e h
  inject_kind_error_unchanged _ w e h = inject_error_unchanged w e h

  -- An injection that returns an error has changed nothing, whatever the kind of the object.
  pub inject_resource_error_unchanged :
      (r : Resource) (e : Error)
      → (inject_lumigo_into_resource libs m r).1 ≡ err e
      → (inject_lumigo_into_resource libs m r).0 ≡ r
  unfolding inject_lumigo_into_resource
  inject_resource_error_unchanged (object kind w) e h = cc (inject_kind_error_unchanged kind w e h)
  inject_resource_error_unchanged (other_resource s) e h = cc

-- Some owner of the object is a Deployment of the group apps and the version v1, and no reference
-- before it fails to parse.
pub data HasDeploymentOwner (libs : Libs) : List OwnerReference → Type 0 where
  here :
      {r : OwnerReference} {rs : List OwnerReference}
      → libs.parse_group_version r.api_version ≡ ok ("apps", "v1")
      → r.kind ≡ "Deployment"
      → HasDeploymentOwner libs (r ∷ rs)
  there :
      {r : OwnerReference} {rs : List OwnerReference} {gv : String × String}
      → libs.parse_group_version r.api_version ≡ ok gv
      → HasDeploymentOwner libs rs
      → HasDeploymentOwner libs (r ∷ rs)

owner_found :
    (libs : Libs) {rs : List OwnerReference}
    → HasDeploymentOwner libs rs
    → has_deployment_owner_reference libs rs ≡ ok true
unfolding has_deployment_owner_reference
owner_found libs (here p k) = rw (p, has_deployment_owner_reference) (rw k)
owner_found libs (there {r} {rs} {gv = (g, v)} p h) = ground (arith, owner_found libs h)

is_deployment :
    (g v k : String)
    → (g == "apps" && v == "v1" && k == "Deployment") ≡ true
    → (g ≡ "apps") × (v ≡ "v1") × (k ≡ "Deployment")
is_deployment g v k h = ground (arith, eq_iff g "apps", eq_iff v "v1", eq_iff k "Deployment")

found_owner_step :
    (libs : Libs) (r : OwnerReference) (rs : List OwnerReference) (o : Outcome (String × String))
    → libs.parse_group_version r.api_version ≡ o
    → (has_deployment_owner_reference libs rs ≡ ok true → HasDeploymentOwner libs rs)
    → has_deployment_owner_reference libs (r ∷ rs) ≡ ok true
    → HasDeploymentOwner libs (r ∷ rs)
unfolding has_deployment_owner_reference
found_owner_step libs r rs (ok (g, v)) e ih h =
    elim (Bool-cases (g == "apps" && v == "v1" && r.kind == "Deployment")) [
      | inl t ↦ let (p, q, k) = is_deployment g v r.kind t in here (ground (arith, e)) k
      | inr t ↦ there e (ih (ground (arith, e, h, t)))
    ]
found_owner_step libs r rs (err x) e ih h = ground (arith, e, h)
found_owner_step libs r rs panicked e ih h = ground (arith, e, h)

found_owner :
    (libs : Libs) (rs : List OwnerReference)
    → has_deployment_owner_reference libs rs ≡ ok true
    → HasDeploymentOwner libs rs
unfolding has_deployment_owner_reference
found_owner libs [] h = cc
found_owner libs (r ∷ rs) h =
    found_owner_step libs r rs (libs.parse_group_version r.api_version) refl (found_owner libs rs) h

-- The search for a Deployment among the owners answers "yes" exactly where some reference is one to
-- an apps/v1 Deployment and all references before it can be parsed.
pub has_deployment_owner_reference_iff :
    (libs : Libs) (rs : List OwnerReference)
    → (has_deployment_owner_reference libs rs ≡ ok true) ↔ HasDeploymentOwner libs rs
has_deployment_owner_reference_iff libs rs = (found_owner libs rs, owner_found libs)

-- A ReplicaSet that a Deployment owns is left as it is by the injection and by the removal, which
-- both report no change and no error.
pub owned_replica_set_untouched :
    (libs : Libs) (m : InjectingMutator) (w : Workload)
    → HasDeploymentOwner libs w.meta.owner_references
    → (inject_lumigo_into_resource libs m (object replica_set w) ≡ (object replica_set w, ok false))
      × (remove_lumigo_from_resource libs (object replica_set w) ≡ (object replica_set w, ok false))
unfolding inject_lumigo_into_resource inject_lumigo_into_kind inject_lumigo_into_replica_set
    remove_lumigo_from_resource remove_lumigo_from_kind remove_lumigo_from_replica_set
owned_replica_set_untouched libs m w h =
    let found = owner_found libs h in (ground arith, ground arith)
