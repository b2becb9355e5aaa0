-- ===== src/Enricher/Roots.antt =====
-- Chains of owners, as GetRootOwnerReference follows them.
pub mod Steps
pub mod Walks
use lumigo_kubernetes_operat.Prelude.{
  ℕ, ◌<◌, String, Bool, true, false, Option, none, some, ◌≡◌, arith, Error, ◌==◌, eq_iff, eq_refl,
  refl, inl, inr, Bool-cases, if◌then◌else◌,
}
use lumigo_kubernetes_operat.K8s.{ApiResult, not_found, failed}
use lumigo_kubernetes_operat.Enricher.Objects.{
  GroupVersionKind, Kind, KubeObject, OwnerReference, ObjectReference, is_gvk_relevant, kind_of_gvk,
  same_gvk, v1_pod, apps_v1_daemon_set, apps_v1_deployment, apps_v1_replica_set,
  apps_v1_stateful_set, batch_v1_cron_job, batch_v1_job, pod, daemon_set, deployment, replica_set,
  stateful_set, cron_job, job,
}
use lumigo_kubernetes_operat.Enricher.External.{Libraries, Cluster}
use lumigo_kubernetes_operat.Enricher.Owners.{
  gvk_of_reference, get_first_relevant_owner_reference, reference_to_owner,
}
use lumigo_kubernetes_operat.Enricher.Keys.{IsName}
use lumigo_kubernetes_operat.Enricher.Faithful.{IsAnswer}

abbrev has_kind : Option Kind → Bool
has_kind none = false
has_kind (some k) = true

seven :
    {a b c d e f g a' b' c' d' e' f' g' : Bool}
    → a ≡ a'
    → b ≡ b'
    → c ≡ c'
    → d ≡ d'
    → e ≡ e'
    → f ≡ f'
    → g ≡ g'
    → (if a
        then true
        else if b
        then true
        else if c
        then true
        else if d
        then true
        else if e
        then true
        else if f
        then true
        else if g
        then true
        else false)
      ≡ has_kind (
          if a'
          then some pod
          else if b'
          then some daemon_set
          else if c'
          then some deployment
          else if d'
          then some replica_set
          else if e'
          then some stateful_set
          else if f'
          then some cron_job
          else if g'
          then some job
          else none)
seven p q r s t u v = ground (arith, p, q, r, s, t, u, v)

test_sym : (s t : String) → (s == t) ≡ (t == s)
test_sym s t = elim (Bool-cases (s == t)) [
  | inl h ↦ rw (h, (eq_iff s t).0 h, eq_refl t) refl
  | inr h ↦ elim (Bool-cases (t == s)) [
    | inl k ↦ absurd (cc (h, (eq_iff t s).0 k, eq_refl s))
    | inr k ↦ rw (h, k) refl
  ]
]

same_gvk_sym : (g h : GroupVersionKind) → same_gvk g h ≡ same_gvk h g
same_gvk_sym g h =
    rw (test_sym g.group h.group, test_sym g.version h.version, test_sym g.kind h.kind) refl

-- The list of the relevant kinds of owners and the switches over the kinds agree: a kind is relevant
-- exactly if the switches have a case for it.
is_gvk_relevant-has_kind :
    (gvk : GroupVersionKind) → is_gvk_relevant gvk ≡ has_kind (kind_of_gvk gvk)
unfolding is_gvk_relevant kind_of_gvk
is_gvk_relevant-has_kind gvk =
    seven (same_gvk_sym v1_pod gvk) (same_gvk_sym apps_v1_daemon_set gvk)
      (same_gvk_sym apps_v1_deployment gvk) (same_gvk_sym apps_v1_replica_set gvk)
      (same_gvk_sym apps_v1_stateful_set gvk) (same_gvk_sym batch_v1_cron_job gvk)
      (same_gvk_sym batch_v1_job gvk)

module _ (libs : Libraries) (Seen : KubeObject → Type 0) where
  -- The object that the first reference points at was seen, and the second is to the first of its
  -- owners that is relevant.
  pub data IsOwnerStep : ObjectReference → ObjectReference → Type 0 where
    owned :
        {r : ObjectReference} {kind : Kind} {o : KubeObject} {owner : OwnerReference}
        → kind_of_gvk (gvk_of_reference libs r) ≡ some kind
        → IsAnswer Seen kind r.name r.namespace o
        → get_first_relevant_owner_reference libs o.meta.owner_references ≡ some owner
        → IsOwnerStep r (reference_to_owner libs r.namespace owner)

  pub data IsOwnerChain : ObjectReference → ObjectReference → Type 0 where
    itself : {r : ObjectReference} → IsOwnerChain r r
    onward : {r s t : ObjectReference} → IsOwnerStep r s → IsOwnerChain s t → IsOwnerChain r t

  -- The ownership of the objects seen has no cycles, as a rank that grows from owner to owned shows;
  -- owners have names like other objects.
  pub record IsAcyclic (rank : ObjectReference → ℕ) : Type 0 where
    pub descends : (r s : ObjectReference) → IsOwnerStep r s → rank s < rank r
    pub named_owners :
        (o : KubeObject) (owner : OwnerReference)
        → Seen o
        → get_first_relevant_owner_reference libs o.meta.owner_references ≡ some owner
        → IsName owner.name

  module _ {W : Type 0} (cluster : Cluster W) where
    -- where the chain ends: the object has no relevant owner, or the cluster said that it is gone
    pub data IsRoot (r : ObjectReference) : Type 0 where
      unowned :
          {kind : Kind} {o : KubeObject}
          → kind_of_gvk (gvk_of_reference libs r) ≡ some kind
          → IsAnswer Seen kind r.name r.namespace o
          → get_first_relevant_owner_reference libs o.meta.owner_references ≡ none
          → IsRoot r
      gone :
          {kind : Kind} {e : Error} {v : W}
          → kind_of_gvk (gvk_of_reference libs r) ≡ some kind
          → (cluster.get_object kind r.name r.namespace "" v).1 ≡ not_found e
          → IsRoot r

    -- where it cannot be followed: the kind is not supported, or the cluster returned an error
    pub data IsLost (r : ObjectReference) : Type 0 where
      unsupported : kind_of_gvk (gvk_of_reference libs r) ≡ none → IsLost r
      unanswered :
          {kind : Kind} {e : Error} {v : W}
          → kind_of_gvk (gvk_of_reference libs r) ≡ some kind
          → (cluster.get_object kind r.name r.namespace "" v).1 ≡ failed e
          → IsLost r
