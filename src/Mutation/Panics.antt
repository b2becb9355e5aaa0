-- ===== src/Mutation/Panics.antt =====
-- On which objects the mutation panics (mutation/mutate.go:199-359).
use lumigo_kubernetes_operat.Prelude.{
  String, false, none, List, [], ◌∷◌, ◌≡◌, ◌≢◌, ◌↔◌, lower_is, label_or_empty, inl, inr, refl,
  arith, ◌==◌, ◌&&◌, eq_iff, Bool-cases, Outcome, ok, err, panicked,
}
use lumigo_kubernetes_operat.K8s.{
  OwnerReference, Workload, WorkloadKind, replica_set, Resource, object, other_resource, Libs,
}
use lumigo_kubernetes_operat.Mutation.Mutator.{InjectingMutator}
use lumigo_kubernetes_operat.Mutation.PodSpecs.{inject_lumigo_into_pod_spec}
use lumigo_kubernetes_operat.Mutation.Workloads.{
  opts_out, has_deployment_owner_reference, inject_lumigo_into, inject_lumigo_into_template,
  inject_lumigo_into_replica_set, inject_lumigo_into_kind, inject_lumigo_into_resource,
}

module _ (libs : Libs) (m : InjectingMutator) where
  inject_panics :
      (w : Workload)
      → ((inject_lumigo_into libs m w).1 ≡ panicked)
        ↔ ((opts_out w.meta ≡ false) × (w.template.spec.security_context ≡ none))
  unfolding inject_lumigo_into inject_lumigo_into_template inject_lumigo_into_pod_spec
  inject_panics w = (λ h. ground arith, λ h. ground arith)

-- All owner references of the object can be parsed, and none is to an apps/v1 Deployment.
pub data HasNoDeploymentOwner (libs : Libs) : List OwnerReference → Type 0 where
  no_owner : HasNoDeploymentOwner libs []
  other_owner :
      {r : OwnerReference} {rs : List OwnerReference} {group version : String}
      → libs.parse_group_version r.api_version ≡ ok (group, version)
      → ¬ ((group ≡ "apps") × (version ≡ "v1") × (r.kind ≡ "Deployment"))
      → HasNoDeploymentOwner libs rs
      → HasNoDeploymentOwner libs (r ∷ rs)

not_deployment :
    (g v k : String)
    → (g == "apps" && v == "v1" && k == "Deployment") ≡ false
    → ¬ ((g ≡ "apps") × (v ≡ "v1") × (k ≡ "Deployment"))
not_deployment g v k h e =
    ground (arith, h, e, eq_iff g "apps", eq_iff v "v1", eq_iff k "Deployment")

no_owner_step :
    (libs : Libs) (r : OwnerReference) (rs : List OwnerReference) (o : Outcome (String × String))
    → libs.parse_group_version r.api_version ≡ o
    → (has_deployment_owner_reference libs rs ≡ ok false → HasNoDeploymentOwner libs rs)
    → has_deployment_owner_reference libs (r ∷ rs) ≡ ok false
    → HasNoDeploymentOwner libs (r ∷ rs)
unfolding has_deployment_owner_reference
no_owner_step libs r rs (ok (g, v)) e ih h =
    elim (Bool-cases (g == "apps" && v == "v1" && r.kind == "Deployment")) [
      | inl t ↦ ground (arith, e, h, t)
      | inr f ↦ other_owner e (not_deployment g v r.kind f) (ih (ground (arith, e, h, f)))
    ]
no_owner_step libs r rs (err x) e ih h = ground (arith, e, h)
no_owner_step libs r rs panicked e ih h = ground (arith, e, h)

no_owner_found :
    (libs : Libs) (rs : List OwnerReference)
    → has_deployment_owner_reference libs rs ≡ ok false
    → HasNoDeploymentOwner libs rs
unfolding has_deployment_owner_reference
no_owner_found libs [] h = no_owner
no_owner_found libs (r ∷ rs) h =
    no_owner_step libs r rs (libs.parse_group_version r.api_version) refl (no_owner_found libs rs) h

has_no_owner :
    (libs : Libs) {rs : List OwnerReference}
    → HasNoDeploymentOwner libs rs
    → has_deployment_owner_reference libs rs ≡ ok false
unfolding has_deployment_owner_reference
has_no_owner libs no_owner = refl
has_no_owner libs (other_owner {r} {rs} {group} {version} p n h) = ground (
  arith,
  p,
  n,
  has_no_owner libs h,
  eq_iff group "apps",
  eq_iff version "v1",
  eq_iff r.kind "Deployment",
)

-- The object does not opt out, its pod template has no security context, and, if it is a
-- ReplicaSet, no Deployment owns it.
pub data IsUnguarded (libs : Libs) : Resource → Type 0 where
  unguarded :
      {kind : WorkloadKind} {w : Workload}
      → lower_is (label_or_empty w.meta.labels "lumigo.auto-trace") "false" ≡ false
      → w.template.spec.security_context ≡ none
      → (kind ≡ replica_set → HasNoDeploymentOwner libs w.meta.owner_references)
      → IsUnguarded libs (object kind w)

module _ (libs : Libs) (parses : (s : String) → libs.parse_group_version s ≢ panicked) where
  search_completes_step :
      (r : OwnerReference) (rs : List OwnerReference) (o : Outcome (String × String))
      → libs.parse_group_version r.api_version ≡ o
      → has_deployment_owner_reference libs rs ≢ panicked
      → has_deployment_owner_reference libs (r ∷ rs) ≢ panicked
  unfolding has_deployment_owner_reference
  search_completes_step r rs (ok (g, v)) e ih h = ground (arith, e, h, ih)
  search_completes_step r rs (err x) e ih h = ground (arith, e, h)
  search_completes_step r rs panicked e ih h = absurd (parses r.api_version e)

  search_completes : (rs : List OwnerReference) → has_deployment_owner_reference libs rs ≢ panicked
  unfolding has_deployment_owner_reference
  search_completes [] h = cc h
  search_completes (r ∷ rs) h =
      search_completes_step r rs (libs.parse_group_version r.api_version) refl (search_completes rs)
        h

  module _ (m : InjectingMutator) where
    replica_set_panics :
        (w : Workload)
        → (inject_lumigo_into_replica_set libs m w).1 ≡ panicked
        → (has_deployment_owner_reference libs w.meta.owner_references ≡ ok false)
          × ((inject_lumigo_into libs m w).1 ≡ panicked)
    unfolding inject_lumigo_into_replica_set
    replica_set_panics w h =
        let completes = search_completes w.meta.owner_references in
        (ground (arith, h, completes), ground (arith, h, completes))

    IsUnguarded-if_panics :
        (kind : WorkloadKind) (w : Workload)
        → (inject_lumigo_into_kind libs m kind w).1 ≡ panicked
        → IsUnguarded libs (object kind w)
    unfolding inject_lumigo_into_kind opts_out
    IsUnguarded-if_panics replica_set w h =
        let (none_found, p) = replica_set_panics w h in
        let (o, s) = (inject_panics libs m w).0 p in
        unguarded o s (λ e. no_owner_found libs w.meta.owner_references none_found)
    IsUnguarded-if_panics _ w h =
        let (o, s) = (inject_panics libs m w).0 h in unguarded o s (λ e. absurd (cc e))

    panics_if_unguarded :
        (kind : WorkloadKind) (w : Workload)
        → (opts_out w.meta ≡ false) × (w.template.spec.security_context ≡ none)
        → (kind ≡ replica_set → HasNoDeploymentOwner libs w.meta.owner_references)
        → (inject_lumigo_into_kind libs m kind w).1 ≡ panicked
    unfolding inject_lumigo_into_kind inject_lumigo_into_replica_set
    panics_if_unguarded replica_set w u n =
        rw (inject_lumigo_into_replica_set, has_no_owner libs (n refl))
          ((inject_panics libs m w).1 u)
    panics_if_unguarded _ w u n = (inject_panics libs m w).1 u

    -- If the parser of API versions does not panic: the injection panics exactly on the objects of
    -- the six kinds that do not opt out and whose pod template has no security context, of the
    -- ReplicaSets only on those all of whose owner references can be parsed and are to no apps/v1
    -- Deployment.
    pub inject_panics_iff :
        (r : Resource) → ((inject_lumigo_into_resource libs m r).1 ≡ panicked) ↔ IsUnguarded libs r
    unfolding inject_lumigo_into_resource opts_out
    inject_panics_iff (object kind w) = (
      IsUnguarded-if_panics kind w,
      λ u. elim u [ unguarded o s n ↦ panics_if_unguarded kind w (o, s) n ],
    )
    inject_panics_iff (other_resource s) = (λ h. absurd (cc h), λ u. elim u [ ])
